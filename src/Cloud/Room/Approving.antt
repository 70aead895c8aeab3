-- ===== src/Cloud/Room/Approving.antt =====
-- `approvePlan`, `withdrawConsent` and `withdrawByCredentials` of
-- packages/relay-cf/src/pairingRoom.ts. No method waits, so nothing runs between its reads and its
-- writes.
pub mod Agreement
use inzo.Prelude.{
  ℕ, String, Bool, true, false, not, List, [], ◌∷◌, ◌++◌, map, Option, none, some, Result, ok, err,
  guard, attempt, ◌>>=◌, ◌>>◌, or_throw, find?, all, includes, add_to_set, length, eqb, ◌==◌,
  if◌then◌else◌,
}
use inzo.Prelude.Int.{pos}
use inzo.Prelude.Json.{Json, obj, field, str, end}
use inzo.Relay.Errors.{Error, bad_request, not_found, forbidden, subject_hash_mismatch}
use inzo.Relay.Credential.Interface.{CredentialPayload, Crypto}
use inzo.Relay.Consent.{
  ConsentRecord, Approval, Assurance, pop, signature_text, verify_approval_signature,
  with_approvals, without_principal, without_credentials, withdraw, withdraw_by_credentials,
}
use inzo.Relay.Consent
use inzo.Relay.Audit.{AuditActor}
use inzo.Relay.CredentialStore.{write_rows}
use inzo.Relay.Store.State.{Pairing}
use inzo.Relay.Store.Plans.{PlanHashing, check_version, version_detail}
use inzo.Cloud.Room.{Room, Plan, get_pairing, member_pairing, broadcast}
use inzo.Cloud.Room.Log.{Entry, append_entry}
use inzo.Cloud.Room.Plans.{get_plan_row, subject_hash}

-- The consent record that is read: the row of this pairing.
abbrev pub consent_row : Room → String → Option ConsentRecord
consent_row r pairing_id = find? (λ row. row.pairing_id == pairing_id) r.consents

unfoldable pub get_consent : Room → Result Error (Option ConsentRecord)
get_consent r = do pairing ← get_pairing r; ok (consent_row r pairing.id)

abbrev pub write_consent : Room → ConsentRecord → Room
write_consent r record' = record r { consents = write_rows record' r.consents }

-- The signed part of an approval, as it is sent.
pub record Signed : Type 0 where
  pub payload : CredentialPayload
  pub signature : Json

-- `UPDATE plans SET approved_by, locked, updated_at WHERE pairing_id = ?`
abbrev pub update_plan : String → List String → Bool → ℕ → Plan → Plan
update_plan pairing_id approved_by locked now row =
    if row.pairing_id == pairing_id
    then record row { approved_by = approved_by; locked = locked; updated_at = now }
    else row

-- The checks: the pairing and the plan that is read.
unfoldable pub approve_checks : Room → String → Json → Result Error (Pairing × Plan)
approve_checks r agent_id plan_version = do
  pairing ← member_pairing r agent_id
  row ← or_throw (get_plan_row r) not_found
  check_version plan_version row.version
  ok (pairing, row)

abbrev pub approved_plan : Pairing → Plan → String → (now : ℕ) → Plan
approved_plan pairing row agent_id now =
    let approved_by = add_to_set row.approved_by agent_id in
    record row {
      approved_by = approved_by;
      locked = all (includes approved_by) pairing.members;
      updated_at = now;
    }

abbrev pub approval_entry : String → CredentialPayload → ℕ → String → Entry
approval_entry action payload version hash = record {
  action = action;
  actor = record {
    principal = some payload.prn;
    agent = some payload.sub;
    credential = some payload.jti;
  };
  assurance = pop;
  detail = version_detail version hash;
}

module _ (c : Crypto) (ph : PlanHashing) where
  -- The checks of the signed part; the record that it makes.
  unfoldable pub signed_checks :
      Room → Pairing → Plan → Signed → (now : ℕ) → Result Error ConsentRecord
  signed_checks r pairing plan signed now = do
    signature ← or_throw (signature_text signed.signature) bad_request
    current ← or_throw (consent_row r pairing.id) not_found
    guard (current.subject.hash == subject_hash ph plan) subject_hash_mismatch
    guard (includes current.required signed.payload.prn) forbidden
    guard (verify_approval_signature c pairing.id current.subject signature signed.payload.cnf)
        bad_request
    let approval : Approval = record {
      principal = signed.payload.prn;
      credential = signed.payload.jti;
      at = now;
      signature = signature;
    }
    ok (
        with_approvals current
          (without_principal signed.payload.prn current.approvals ++ approval ∷ []) now)

  unfoldable pub approve_signed :
      Room → Pairing → Plan → Signed → (now : ℕ) → Room × Result Error ConsentRecord
  approve_signed r pairing plan signed now =
      attempt r (signed_checks r pairing plan signed now) λ next.
        let hash = subject_hash ph plan in
        let r₁ = write_consent r next in
        let r₂ =
          append_entry ph.hashing r₁ pairing.id
            (approval_entry "consent.approved" signed.payload plan.version hash) now in
        let r₃ =
          append_entry ph.hashing r₂ pairing.id
            (approval_entry "consent.satisfied" signed.payload plan.version hash) now in
        (if next.satisfied then r₃ else r₂, ok next)

  -- The part of `approvePlan` after the vote is written.
  unfoldable pub take_approval :
      Room
      → Pairing
      → Plan
      → Option Signed
      → (now : ℕ) → Room × Result Error (Plan × Option ConsentRecord)
  take_approval r pairing plan none now = (broadcast r "plan.updated", ok (plan, none))
  take_approval r pairing plan (some signed) now =
      let (r', approved) = approve_signed r pairing plan signed now in
      attempt r' approved (λ next. (broadcast r' "plan.updated", ok (plan, some next)))

  unfoldable pub approve_plan :
      Room
      → String
      → (plan_version : Json) → Option Signed
      → (now : ℕ) → Room × Result Error (Plan × Option ConsentRecord)
  approve_plan r agent_id plan_version consent now =
      attempt r (approve_checks r agent_id plan_version) λ checked.
        let (pairing, row) = checked in
        let plan = approved_plan pairing row agent_id now in
        take_approval
          (record r {
            plans = map (update_plan pairing.id plan.approved_by plan.locked now) r.plans;
          })
          pairing plan consent now

unfoldable pub withdraw_consent :
    PlanHashing
    → Room
    → (principal_id : String) → AuditActor
    → Assurance
    → (now : ℕ) → Room × Result Error ConsentRecord
withdraw_consent ph r principal_id actor assurance now = attempt r (get_pairing r) λ pairing.
    attempt r (or_throw (consent_row r pairing.id) not_found) λ current.
      let next = Consent.withdraw current principal_id now in
      (
        append_entry ph.hashing (write_consent r next) pairing.id
            (record {
              action = "consent.withdrawn";
              actor = actor;
              assurance = assurance;
              detail = obj (field "principal" (str principal_id) end);
            })
            now,
        ok next,
      )

abbrev pub strip_row :
    Room
    → Option ConsentRecord
    → List String
    → (now : ℕ) → Room × Result Error (Option ConsentRecord)
strip_row r none jtis now = (r, ok none)
strip_row r (some old) jtis now =
    let next = Consent.withdraw_by_credentials old jtis now in
    if eqb (length (without_credentials jtis old.approvals)) (length old.approvals)
    then (r, ok (some old))
    else (write_consent r next, ok (some next))

unfoldable pub strip_consent :
    Room → List String → (now : ℕ) → Room × Result Error (Option ConsentRecord)
strip_consent r jtis now = attempt r (get_consent r) λ current. strip_row r current jtis now
