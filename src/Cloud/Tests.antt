-- ===== src/Cloud/Tests.antt =====
-- Examples for packages/relay-cf/src/pairingRoom.ts: two agents, a plan of two items of which the
-- second depends on the first, and both votes.
mod Usages
use inzo.Prelude.{ℕ, ◌<◌, ◌≡◌, refl, true, List, [], ◌∷◌, none, some, string_dec, map}
use inzo.Prelude.Int.{pos}
use inzo.Prelude.Json.{int, arr, cons, nil, str}
use inzo.Relay.Consent.{ConsentRecord, ConsentSubject, pop}
use inzo.Relay.Consent
use inzo.Relay.Audit.{AuditActor}
use inzo.Relay.Store.State.{Pairing}
use inzo.Relay.Store.Plans.{PlanHashing}
use inzo.Relay.Tests.{demo, root, hashing}
use inzo.Cloud.Room.{Room, Plan, ItemStatus, done, new_room, initialize}
use inzo.Cloud.Room.Log.{get_audit}
use inzo.Cloud.Room.Plans.{
  SentItem, Proposed, propose_plan, get_plan_row, status_of, subject_hash, check_items, stored_item,
}
use inzo.Cloud.Room.Approving.{Signed, approve_plan, signed_checks, write_consent, consent_row}
use inzo.Cloud.Room.Approving.Agreement.{approve_input, signed_checks-approve}
use inzo.Cloud.Room.Progress.Finishing.{Works, Reached-finishes}
use inzo.Cloud.Room.Sound.{IsSound, depends_earlier}
use inzo.Cloud.Room.Sound.Audit.{get_audit-Reached}
use inzo.Cloud.Room.Log.{get_audit}
use inzo.Cloud.Room.Sound.Reached.{Reached, made, proposed, approved, Reached-IsSound}

abbrev plan_hashing : PlanHashing
plan_hashing = record { hashing = hashing; canonicalize_subject = λ id goal items version. goal }

abbrev sent : List SentItem
sent =
    record { owner = "agt_1"; task = "build"; depends_on = none }
    ∷ record { owner = "agt_2"; task = "test"; depends_on = some (arr (cons (int (pos 0)) nil)) }
    ∷ []

abbrev proposal : Proposed
proposal = record {
  pairing_id = "p1";
  proposed_by = "agt_1";
  goal = "ship";
  sent = sent;
  principals = "prn_1" ∷ "prn_2" ∷ [];
}

abbrev nobody : AuditActor
nobody = record { principal = none; agent = none; credential = none }

abbrev start : Room
start = initialize new_room "p1" "ABC" "agt_1" "agt_2" 10

abbrev planned : Room
planned = (propose_plan plan_hashing (λ s. s) start proposal nobody pop 20).0

abbrev voted : Room
voted = (approve_plan demo plan_hashing planned "agt_1" (int (pos 1)) none 30).0

abbrev agreed : Room
agreed = (approve_plan demo plan_hashing voted "agt_2" (int (pos 1)) none 40).0

abbrev reached : Reached demo plan_hashing (λ s. s) "p1" agreed
reached =
    approved
      (approved (proposed (made "ABC" "agt_1" "agt_2" 10) proposal nobody pop 20 refl) "agt_1"
        (int (pos 1)) none 30)
      "agt_2" (int (pos 1)) none 40

Reached-IsSound_example : IsSound hashing "p1" agreed
Reached-IsSound_example = Reached-IsSound demo plan_hashing (λ s. s) "p1" reached

get_audit-Reached_example :
    ((get_audit hashing agreed 0).chain_valid ≡ true)
    × ((get_audit hashing agreed 0).broken_at ≡ none)
get_audit-Reached_example = get_audit-Reached demo plan_hashing (λ s. s) "p1" 0 reached

abbrev locked_plan : Plan
locked_plan = record {
  pairing_id = "p1";
  goal = "ship";
  items = map stored_item sent;
  proposed_by = "agt_1";
  approved_by = "agt_1" ∷ "agt_2" ∷ [];
  locked = true;
  version = 1;
  created_at = 20;
  updated_at = 40;
}

Reached-finishes_example :
    (r' : Room) × Works hashing locked_plan agreed r'
    × ((i : ℕ) → i < 2 → status_of r'.statuses "p1" 1 i ≡ done)
unfolding propose_plan approve_plan string_dec inzo.Cloud.Room.Approving.approve_checks
    inzo.Cloud.Room.member_pairing inzo.Cloud.Room.get_pairing inzo.Cloud.Room.Plans.propose_checks
    initialize inzo.Cloud.Room.Plans.propose_writes inzo.Cloud.Room.Log.append_entry
    inzo.Cloud.Room.Approving.take_approval
Reached-finishes_example =
    Reached-finishes demo plan_hashing (λ s. s) "p1" locked_plan nobody pop 50 reached refl refl

abbrev current : ConsentRecord
current =
    Consent.open_consent "p1" (record { version = 1; hash = subject_hash plan_hashing locked_plan })
      ("prn_1" ∷ "prn_2" ∷ []) 20

abbrev asking : Room
asking = record new_room { consents = current ∷ [] }

abbrev pairing : Pairing
pairing = record {
  id = "p1";
  code = "ABC";
  agent_a = "agt_1";
  agent_b = "agt_2";
  members = "agt_1" ∷ "agt_2" ∷ [];
  created_at = 10;
}

abbrev signed : Signed
signed = record { payload = root; signature = str "kinzo-consent-v3\np1\nplan\n1\nsha256:ship" }

signed_checks-approve_example :
    signed_checks demo plan_hashing asking pairing locked_plan signed 60
    ≡ Consent.approve demo (some current) (approve_input "p1" signed) 60
unfolding Consent.open_consent string_dec
signed_checks-approve_example =
    signed_checks-approve demo plan_hashing asking pairing locked_plan signed 60 current refl refl
