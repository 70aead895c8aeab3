-- ===== src/Relay/Tests/Stores.antt =====
-- Examples for lib/store.ts.
use inzo.Prelude.{
  ℕ, ◌+◌, ◌≡◌, refl, String, true, false, List, [], ◌∷◌, none, some, map, ok, err, includes,
  string_dec, arith, is_none, all,
}
use inzo.Prelude.Int.{pos}
use inzo.Prelude.Json.{int, null}
use inzo.Relay.Errors.{conflict}
use inzo.Relay.Scopes.{all_scopes, narrowed_scope}
use inzo.Relay.CredentialStore.{record_audit, bind_pairing, revoke_agent_credentials}
use inzo.Relay.Store.State.{
  Store, Plan, PlanItem, WaitHandle, Pairing, Message, get_members, get_pairing, member_pairing,
}
use inzo.Relay.Store.Codes.{Fresh, get_code, issue_for}
use inzo.Relay.Store.Pairing.{Joined, join_pairing, join_new, usable_code, found_pairing}
use inzo.Relay.Store.Joining.{join_pairing-once}
use inzo.Relay.Store.Members.{HasJoined, join_pairing-HasJoined}
use inzo.Relay.Store.Revocation.{
  Revoked, TokenIdentity, revoke_agent, revoke_known, revoke_whom, revoke_target, eject,
  resolve_token, get_agent_scope,
}
use inzo.Relay.Store.Revocation.KillSwitch.{revoke_agent-resolve_token}
use inzo.Relay.Store.Revocation.Narrowed.{narrow_all-narrows}
use inzo.Relay.Store.Messages.{add_message, get_messages}
use inzo.Relay.Store.Messages.Paging.{get_messages-add_message}
use inzo.Relay.Store.Plans.{
  PlanHashing, ConsentInput, update_plan, Proposal, Approving, propose_checks, propose_begin,
  propose_commit, propose_plan, approve_begin, approve_commit, get_plan_row, next_version,
}
use inzo.Relay.Store.Plans.Versions.{SamePlan, propose_plan-opens}
use inzo.Relay.Store.Plans.Approval.{approve_begin-eq-ok}
use inzo.Relay.Store.Plans.Votes.{approve_commit-plans}
use inzo.Relay.Store.Plans.Races.{HoldsPlan, propose_plan-race, approve_plan-race}
use inzo.Relay.Consent.{pop}
use inzo.Relay.Tests.{root, demo, key, hashing, reading}

abbrev start : Store
start = record {
  codes =
      record {
        code = "c1";
        creator_agent_id = "agt_1";
        pairing_id = none;
        created_at = 0;
        expires_at = 1800000;
        used_at = none;
      }
      ∷ [];
  tokens =
      record {
        token_hash = "h1";
        agent_id = "agt_1";
        pairing_id = none;
        scope = all_scopes;
        revoked_at = none;
        created_at = 0;
      }
      ∷ [];
  pairings = [];
  members = [];
  messages = [];
  plans = [];
  plan_waits = [];
  disposed = [];
  trust = record {
    principals = [];
    credentials = [];
    revoked_jtis = [];
    consents = [];
    audit = [];
  };
  events = [];
}

abbrev fresh : Fresh
fresh = record {
  agent_id = "agt_2";
  token_hash = "h2";
  pairing_id = "p1";
  principal_id = "prn_2";
  jti = "cred_2";
}

abbrev pair : Pairing
pair = record {
  id = "p1";
  code = "c1";
  agent_a = "agt_1";
  agent_b = "agt_2";
  members = "agt_1" ∷ "agt_2" ∷ [];
  created_at = 1000;
}

abbrev joined : Joined
joined = record { pairing = pair; agent_id = "agt_2"; peer_agent_id = "agt_1"; issued = none }

abbrev paired : Store
paired = (join_pairing demo hashing key "https://relay" start "c1" none fresh 1000).0

join_pairing-once_example :
    join_pairing demo hashing key "https://relay" paired "c1" none fresh 2000
    ≡ (paired, err conflict)
unfolding join_pairing join_new usable_code get_code issue_for string_dec
join_pairing-once_example =
    join_pairing-once demo hashing key "https://relay" start paired "c1" none none fresh fresh 1000
      2000 joined refl

join_pairing-HasJoined_example : HasJoined paired "agt_2" joined
unfolding join_pairing join_new usable_code get_code issue_for get_members string_dec
join_pairing-HasJoined_example =
    join_pairing-HasJoined demo hashing key "https://relay" start paired "c1" none fresh 1000 joined
      refl refl (λ p. omega arith)

abbrev revoked : Revoked
revoked = record { agent_id = "agt_2"; revoked_at = some 3000; by = "agt_1"; credentials = some [] }

abbrev ejected : Store
ejected = (revoke_agent hashing paired "p1" "agt_1" "peer" 3000).0

abbrev identity : TokenIdentity
identity = record {
  agent_id = "agt_2";
  pairing_id = some "p1";
  scope = all_scopes;
  revoked_at = some 3000;
}

revoke_agent-resolve_token_example : is_none identity.revoked_at ≡ false
unfolding revoke_agent revoke_known revoke_whom revoke_target eject resolve_token join_pairing
    join_new usable_code get_code issue_for get_pairing get_members found_pairing
    inzo.Relay.Store.State.other_agent revoke_agent_credentials bind_pairing record_audit string_dec
revoke_agent-resolve_token_example =
    revoke_agent-resolve_token hashing (λ s. s) paired ejected "p1" "agt_1" "peer" "h2" 3000 revoked
      identity refl refl refl

narrow_all-narrows_example : includes (get_agent_scope start "agt_1") "messages:read" ≡ true
unfolding narrowed_scope get_agent_scope inzo.Relay.Store.Revocation.narrow_scope string_dec
narrow_all-narrows_example =
    narrow_all-narrows (("agt_1", reading) ∷ []) start "agt_1" "messages:read" refl

abbrev message : Message
message = record {
  cursor = 2;
  id = "m2";
  pairing_id = "p1";
  from_agent_id = "agt_1";
  body = "hello";
  created_at = 6000;
}

abbrev talking : Store
talking = (add_message (λ s. s) paired "p1" "agt_2" "hi" "m1" 5000).0

abbrev answered : Store
answered = (add_message (λ s. s) talking "p1" "agt_1" "hello" "m2" 6000).0

get_messages-add_message_example :
    (get_messages answered "p1" (some 1) ≡ ok (message ∷ []))
    × (get_messages answered "p1" (some 2) ≡ ok [])
unfolding add_message get_messages join_pairing join_new usable_code get_code issue_for get_pairing
    get_members found_pairing string_dec
get_messages-add_message_example =
    get_messages-add_message (λ s. s) talking answered "p1" "agt_1" "hello" "m2" 6000 message 0 []
      refl (omega arith) refl

abbrev plan_hashing : PlanHashing
plan_hashing = record { hashing = hashing; canonicalize_subject = λ p goal items version. goal }

abbrev task : List PlanItem
task = record { owner = "agt_1"; task = "build"; depends_on = none } ∷ []

abbrev wait : WaitHandle
wait = record { sandbox_id = "box"; simulated = true }

abbrev plan : Plan
plan = record {
  pairing_id = "p1";
  goal = "ship";
  items = task;
  proposed_by = "agt_1";
  approved_by = [];
  locked = false;
  version = 1;
  created_at = 7000;
  updated_at = 7000;
  sandbox_id = "box";
  sandbox_state = "simulated";
}

abbrev planned : Store
planned = (propose_plan (λ s. s) plan_hashing paired "p1" "agt_1" "ship" task wait 7000).0

propose_plan-opens_example :
    (plan.version ≡ next_version (get_plan_row paired "p1"))
    × (plan.goal ≡ "ship")
    × (plan.items ≡ task)
    × (plan.approved_by ≡ [])
    × (plan.locked ≡ false)
    × ((row : Plan) × (get_plan_row planned "p1" ≡ some row) × SamePlan row plan)
unfolding propose_plan propose_begin propose_commit propose_checks get_plan_row join_pairing
    join_new usable_code get_code issue_for get_pairing get_members found_pairing string_dec
propose_plan-opens_example =
    propose_plan-opens (λ s. s) plan_hashing paired planned "p1" "agt_1" "ship" task wait 7000 plan
      refl

abbrev approval : Approving
approval = record {
  row = plan;
  approved_by = "agt_1" ∷ [];
  locked = false;
  sandbox_state = "simulated";
}

abbrev waiting : Store
waiting = (approve_begin planned "p1" "agt_1" (int (pos 1))).0

approve_begin-eq-ok_example :
    (int (pos 1) ≡ int (pos approval.row.version))
    × (get_plan_row planned "p1" ≡ some approval.row)
    × (waiting.plans ≡ planned.plans)
    × (includes approval.approved_by "agt_1" ≡ true)
    × ((p : Pairing) × (member_pairing planned "p1" "agt_1" ≡ ok p)
        × (approval.locked ≡ all (includes approval.approved_by) p.members))
unfolding approve_begin propose_plan propose_begin propose_commit propose_checks get_plan_row
    join_pairing join_new usable_code get_code issue_for get_pairing get_members found_pairing
    string_dec
approve_begin-eq-ok_example =
    approve_begin-eq-ok planned waiting "p1" "agt_1" (int (pos 1)) approval refl

abbrev proposal : String → String → ℕ → ℕ → Proposal
proposal by goal version created_at = record {
  pairing = pair;
  proposed_by = by;
  goal = goal;
  items = task;
  version = version;
  created_at = created_at;
  started_at = 8000;
}

abbrev begun : Store
begun = (propose_begin (λ s. s) paired "p1" "agt_1" "ship" task 8000).0

abbrev ship : Proposal
ship = proposal "agt_1" "ship" 1 8000

abbrev wait_a_day : Proposal
wait_a_day = record (proposal "agt_2" "wait" 1 8100) { started_at = 8100 }

propose_plan-race_example :
    (ship.version ≡ wait_a_day.version)
    × HoldsPlan "p1" "wait" 1
        (propose_commit plan_hashing
          (propose_commit plan_hashing begun "p1" ship wait 9000).0
          "p1"
          wait_a_day
          wait
          9500).0
    × HoldsPlan "p1" "ship" 1
        (propose_commit plan_hashing
          (propose_commit plan_hashing begun "p1" wait_a_day wait 9500).0
          "p1"
          ship
          wait
          9000).0
unfolding propose_begin propose_checks get_plan_row join_pairing join_new usable_code get_code
    issue_for get_pairing get_members found_pairing string_dec
propose_plan-race_example =
    propose_plan-race (λ s. s) plan_hashing paired begun begun "p1" "agt_1" "agt_2" "ship" "wait"
      task task 8000 8100 ship wait_a_day wait wait 9000 9500 refl refl

abbrev replaced : Store
replaced = (propose_begin (λ s. s) waiting "p1" "agt_2" "wait" task 8000).0

approve_plan-race_example :
    (int (pos 1) ≡ int (pos approval.row.version))
    × ((row : Plan) × (get_plan_row
            (approve_commit demo plan_hashing
              (propose_commit plan_hashing replaced "p1"
                (proposal "agt_2" "wait" 2 7000)
                wait
                9000).0
              "p1"
              approval
              none
              9500).0
            "p1"
          ≡ some row)
        × (row.goal ≡ "wait")
        × (row.version ≡ approval.row.version + 1)
        × (row.approved_by ≡ approval.approved_by)
        × (row.locked ≡ approval.locked))
unfolding approve_begin propose_plan propose_begin propose_commit propose_checks get_plan_row
    join_pairing join_new usable_code get_code issue_for get_pairing get_members found_pairing
    string_dec
approve_plan-race_example =
    approve_plan-race demo plan_hashing (λ s. s) planned waiting replaced "p1" "agt_1" "agt_2"
      "wait" task 8000 (int (pos 1)) approval (proposal "agt_2" "wait" 2 7000) wait 9000 9500 refl
      refl

-- A vote whose signature is refused, since no consent record is there.
abbrev unsigned : ConsentInput
unsigned = record { payload = root; assurance = pop; signature = null }

approve_commit-plans_example :
    (approve_commit demo plan_hashing waiting "p1" approval (some unsigned) 9500).0.plans
    ≡ map
        (update_plan "p1" approval.approved_by approval.locked 9500 approval.sandbox_state)
        waiting.plans
approve_commit-plans_example =
    approve_commit-plans demo plan_hashing waiting "p1" approval (some unsigned) 9500
