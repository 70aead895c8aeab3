-- ===== src/Relay/Store/Plans.antt =====
-- Plans of packages/relay/src/lib/store.ts: `proposePlan`, `approvePlan`, `withdrawConsent` and
-- `getPlan`, with `planSubjectHash` of lib/consent.ts. `proposePlan` and `approvePlan` wait for a
-- sandbox between their reads and their writes, and other requests run meanwhile; each is the
-- composition of a first half, `…_begin`, and a second half, `…_commit`.
pub mod Approval
pub mod Versions
pub mod Races
pub mod Votes
use inzo.Prelude.{
  ℕ, ◌+◌, String, Bool, true, false, not, ◌&&◌, ◌||◌, List, [], ◌∷◌, ◌++◌, map, Option, none, some,
  Result, ok, err, guard, attempt, ◌>>=◌, ◌>>◌, or_throw, filter, find?, any, all, includes,
  add_to_set, is_empty, eqb, length, ◌==◌, if◌then◌else◌,
}
use Prim.Native.String
use mathlib.Core.List.{filter_map}
use inzo.Prelude.Int.{pos, negsuc}
use inzo.Prelude.Json.{Json, null, bool, int, fraction, str, arr, obj, field, end}
use inzo.Relay.Errors.{Error, bad_request, not_found, stale_plan, subject_hash_mismatch}
use inzo.Relay.Credential.Interface.{CredentialPayload, Crypto}
use inzo.Relay.Consent.{ConsentRecord, ConsentSubject, ApproveInput, Assurance, pop}
use inzo.Relay.Audit.{AuditActor, Hashing}
use inzo.Relay.CredentialStore.{
  CredentialStore, get_consent, open_consent, record_audit, agent_principal, withdraw,
}
use inzo.Relay.CredentialStore
use inzo.Relay.Store.State.{
  Store, Pairing, Plan, PlanItem, WaitHandle, get_pairing, member_pairing, publish,
}
use inzo.Relay.Store.Messages.{is_blank}

-- The hash that an approval binds, from `createHash("sha256")` and `canonicalize`: the goal, the
-- owner and task of each item, and the version.
pub record PlanHashing : Type 0 where
  pub hashing : Hashing
  pub canonicalize_subject : String → String → List (String × String) → ℕ → String

unfoldable pub plan_subject_hash : PlanHashing → Plan → String
plan_subject_hash p plan = String.◌++◌ "sha256:" (
    p.hashing.sha256_hex (
      p.canonicalize_subject plan.pairing_id plan.goal
        (map (λ (item : PlanItem). (item.owner, item.task)) plan.items) plan.version))

unfoldable pub get_plan_row : Store → String → Option Plan
get_plan_row s pairing_id = find? (λ row. row.pairing_id == pairing_id) s.plans

unfoldable pub get_plan : Store → String → Result Error (Option Plan)
get_plan s pairing_id = do pairing ← get_pairing s pairing_id; ok (get_plan_row s pairing_id)

abbrev pub wait_of : Store → String → Option WaitHandle
wait_of s pairing_id = elim (find? (λ w. w.0 == pairing_id) s.plan_waits) [
  | none ↦ none
  | some w ↦ some w.1
]

-- `planWaits.delete`, and `dispose` on the handle.
abbrev pub dispose_wait : Store → String → Option WaitHandle → Store
dispose_wait s pairing_id none = s
dispose_wait s pairing_id (some w) = record s {
  plan_waits = filter (λ v. not (v.0 == pairing_id)) s.plan_waits;
  disposed = s.disposed ++ w.sandbox_id ∷ [];
}

-- `planWaits.set`
abbrev pub set_wait : String → WaitHandle → List (String × WaitHandle) → List (String × WaitHandle)
set_wait pairing_id w [] = (pairing_id, w) ∷ []
set_wait pairing_id w ((p, v) ∷ waits) =
    if p == pairing_id then (pairing_id, w) ∷ waits else (p, v) ∷ set_wait pairing_id w waits

-- The upsert keeps the `created_at` of the row that is there.
abbrev pub upsert_plan : Plan → List Plan → List Plan
upsert_plan plan [] = plan ∷ []
upsert_plan plan (row ∷ rows) =
    if row.pairing_id == plan.pairing_id
    then record plan { created_at = row.created_at } ∷ rows
    else row ∷ upsert_plan plan rows

-- `UPDATE plans SET approved_by, locked, updated_at, sandbox_state WHERE pairing_id = ?`
abbrev pub update_plan : String → List String → Bool → ℕ → String → Plan → Plan
update_plan pairing_id approved_by locked now sandbox_state row =
    if row.pairing_id == pairing_id
    then record row {
      approved_by = approved_by;
      locked = locked;
      updated_at = now;
      sandbox_state = sandbox_state;
    }
    else row

abbrev pub complete_item : (String → String) → PlanItem → Bool
complete_item trim item = not (is_blank trim item.owner || is_blank trim item.task)

-- The principals of the members that have one.
abbrev pub known_principals : CredentialStore → List String → List String
known_principals t members = filter_map (agent_principal t) members

abbrev pub version_detail : ℕ → String → Json
version_detail version hash =
    obj (field "version" (int (pos version)) (field "subjectHash" (str hash) end))

abbrev pub next_version : Option Plan → ℕ
next_version none = 1
next_version (some row) = row.version + 1

abbrev pub created_or : Option Plan → ℕ → ℕ
created_or none now = now
created_or (some row) now = row.created_at

-- What a proposal has read when it starts to wait.
pub record Proposal : Type 0 where
  pub pairing : Pairing
  pub proposed_by : String
  pub goal : String
  pub items : List PlanItem
  pub version : ℕ
  pub created_at : ℕ
  pub started_at : ℕ

unfoldable pub propose_checks :
    (String → String)
    → Store
    → (pairing_id proposed_by goal : String) → List PlanItem
    → Result Error Pairing
propose_checks trim s pairing_id proposed_by goal items = do
  guard (not (is_blank trim goal)) bad_request
  guard (not (is_empty items)) bad_request
  guard (all (complete_item trim) items) bad_request
  member_pairing s pairing_id proposed_by

-- Up to the first `await`: the checks and the reads; the wait of the last version is ended.
unfoldable pub propose_begin :
    (String → String)
    → Store
    → (pairing_id proposed_by goal : String) → List PlanItem
    → (now : ℕ) → Store × Result Error Proposal
propose_begin trim s pairing_id proposed_by goal items now =
    attempt s (propose_checks trim s pairing_id proposed_by goal items) λ pairing.
      let existing = get_plan_row s pairing_id in
      (
        dispose_wait s pairing_id (wait_of s pairing_id),
        ok (record {
          pairing = pairing;
          proposed_by = proposed_by;
          goal = goal;
          items = items;
          version = next_version existing;
          created_at = created_or existing now;
          started_at = now;
        }),
      )

abbrev pub proposed_plan : String → Proposal → WaitHandle → Plan
proposed_plan pairing_id p wait = record {
  pairing_id = pairing_id;
  goal = p.goal;
  items = p.items;
  proposed_by = p.proposed_by;
  approved_by = [];
  locked = false;
  version = p.version;
  created_at = p.created_at;
  updated_at = p.started_at;
  sandbox_id = wait.sandbox_id;
  sandbox_state = if wait.simulated then "simulated" else "stopped";
}

-- From the last `await` on: `wait` is what `beginPlanWait` has opened.
unfoldable pub propose_commit :
    PlanHashing → Store → String → Proposal → WaitHandle → (now : ℕ) → Store × Plan
propose_commit ph s pairing_id p wait now =
    let plan = proposed_plan pairing_id p wait in
    let principals = known_principals s.trust p.pairing.members in
    let subject : ConsentSubject = record {
      version = p.version;
      hash = plan_subject_hash ph plan;
    } in
    let t₁ =
      if eqb (length principals) (length p.pairing.members)
      then open_consent s.trust pairing_id subject principals now
      else s.trust in
    let t₂ =
      record_audit ph.hashing t₁
        (record {
          pairing_id = pairing_id;
          action = "plan.proposed";
          actor = record {
            principal = agent_principal t₁ p.proposed_by;
            agent = some p.proposed_by;
            credential = none;
          };
          assurance = pop;
          detail = version_detail p.version (plan_subject_hash ph plan);
        })
        now in
    (
      publish
          (record s {
            plan_waits = set_wait pairing_id wait s.plan_waits;
            plans = upsert_plan plan s.plans;
            trust = t₂;
          })
          "plan.updated" pairing_id,
      plan,
    )

-- With no other request in between.
unfoldable pub propose_plan :
    (String → String)
    → PlanHashing
    → Store
    → (pairing_id proposed_by goal : String) → List PlanItem
    → WaitHandle
    → (now : ℕ) → Store × Result Error Plan
propose_plan trim ph s pairing_id proposed_by goal items wait now =
    let (s', begun) = propose_begin trim s pairing_id proposed_by goal items now in
    attempt s' begun
      λ p. let (s'', plan) = propose_commit ph s' pairing_id p wait now in (s'', ok plan)

-- The consent that a v3 caller sends along.
pub record ConsentInput : Type 0 where
  pub payload : CredentialPayload
  pub assurance : Assurance
  pub signature : Json

-- `typeof planVersion !== "number" || !Number.isInteger(planVersion)`, then the comparison.
abbrev pub check_version : Json → ℕ → Result Error (Unit {0})
check_version (int (pos n)) version = guard (eqb n version) stale_plan
check_version (int (negsuc n)) version = err stale_plan
check_version _ version = err bad_request

-- What an approval has read when it starts to wait.
pub record Approving : Type 0 where
  pub row : Plan
  pub approved_by : List String
  pub locked : Bool
  pub sandbox_state : String

-- Up to the only `await`, which a locked plan reaches if it has a wait to end.
unfoldable pub approve_begin :
    Store → (pairing_id agent_id : String) → (plan_version : Json) → Store × Result Error Approving
approve_begin s pairing_id agent_id plan_version =
    attempt s (member_pairing s pairing_id agent_id) λ pairing.
      attempt s (or_throw (get_plan_row s pairing_id) not_found) λ row.
        attempt s (check_version plan_version row.version) λ _.
          let approved_by = add_to_set row.approved_by agent_id in
          let locked = all (includes approved_by) pairing.members in
          let wait = if locked then wait_of s pairing_id else none in
          (
            dispose_wait s pairing_id wait,
            ok (record {
              row = row;
              approved_by = approved_by;
              locked = locked;
              sandbox_state = elim wait [
                | none ↦ row.sandbox_state
                | some w ↦ if w.simulated then "simulated" else "disposed"
              ];
            }),
          )

module _ (c : Crypto) (ph : PlanHashing) where
  abbrev audit_consent :
      CredentialStore → String → String → ConsentInput → ℕ → String → ℕ → CredentialStore
  audit_consent t pairing_id action input version hash now =
      record_audit ph.hashing t
        (record {
          pairing_id = pairing_id;
          action = action;
          actor = record {
            principal = some input.payload.prn;
            agent = some input.payload.sub;
            credential = some input.payload.jti;
          };
          assurance = input.assurance;
          detail = version_detail version hash;
        })
        now

  abbrev pub hash_matches : Option ConsentRecord → String → Bool
  hash_matches none expected = true
  hash_matches (some current) expected = current.subject.hash == expected

  -- The signed part of an approval.
  abbrev pub approve_consent :
      Store → String → Plan → ConsentInput → (now : ℕ) → Store × Result Error ConsentRecord
  approve_consent s pairing_id plan input now =
      let expected = plan_subject_hash ph plan in
      attempt s
        (guard (hash_matches (get_consent s.trust pairing_id) expected) subject_hash_mismatch)
        λ _.
          attempt s
            (CredentialStore.approve c s.trust
              (record {
                pairing_id = pairing_id;
                payload = input.payload;
                assurance = input.assurance;
                signature = input.signature;
              })
              now)
            λ approved.
              let (t₁, r) = approved in
              let t₂ =
                audit_consent t₁ pairing_id "consent.approved" input plan.version expected now in
              let t₃ =
                audit_consent t₂ pairing_id "consent.satisfied" input plan.version expected now in
              (
                publish (record s { trust = if r.satisfied then t₃ else t₂ }) "consent.updated"
                    pairing_id,
                ok r,
              )

  -- From the `await` on.
  unfoldable pub approve_commit :
      Store
      → String
      → Approving
      → Option ConsentInput
      → (now : ℕ) → Store × Result Error (Plan × Option ConsentRecord)
  approve_commit s pairing_id a consent now =
      let written : Store = record s {
        plans = map (update_plan pairing_id a.approved_by a.locked now a.sandbox_state) s.plans;
      } in
      let plan : Plan = record a.row {
        approved_by = a.approved_by;
        locked = a.locked;
        updated_at = now;
        sandbox_state = a.sandbox_state;
      } in
      elim consent [
        | none ↦ (publish written "plan.updated" pairing_id, ok (plan, none))
        | some input ↦
            let (s', approved) = approve_consent written pairing_id plan input now in
            attempt s' approved (λ r. (publish s' "plan.updated" pairing_id, ok (plan, some r)))
      ]

  unfoldable pub approve_plan :
      Store
      → (pairing_id agent_id : String) → (plan_version : Json) → Option ConsentInput
      → (now : ℕ) → Store × Result Error (Plan × Option ConsentRecord)
  approve_plan s pairing_id agent_id plan_version consent now =
      let (s', begun) = approve_begin s pairing_id agent_id plan_version in
      attempt s' begun (λ a. approve_commit s' pairing_id a consent now)

unfoldable pub withdraw_consent :
    Hashing
    → Store
    → (pairing_id principal_id agent_id : String) → (now : ℕ) → Store × Result Error ConsentRecord
withdraw_consent h s pairing_id principal_id agent_id now =
    attempt s (withdraw s.trust pairing_id principal_id now) λ withdrawn.
      let (t, r) = withdrawn in
      let t' =
        record_audit h t
          (record {
            pairing_id = pairing_id;
            action = "consent.withdrawn";
            actor = record {
              principal = some principal_id;
              agent = some agent_id;
              credential = none;
            };
            assurance = pop;
            detail = obj (field "version" (int (pos r.subject.version)) end);
          })
          now in
      (publish (record s { trust = t' }) "consent.updated" pairing_id, ok r)
