-- ===== src/Cloud/Room/Sound/Consents.antt =====
-- The consent methods of packages/relay-cf/src/pairingRoom.ts keep the object sound.
use inzo.Prelude.{
  attempt_keeps, ℕ, ◌≡◌, refl, sym, ap, ◌∙◌, String, Bool, List, [], ◌∷◌, map, Option, none, some,
  ok, arith, length, eqb, Bool-cases, inl, inr, ◌==◌, >>=-eq-ok, or_throw, or_throw-eq-ok,
  ok-injective,
}
use inzo.Prelude.Json.{Json, str, obj, field, end}
use inzo.Relay.Errors.{not_found}
use inzo.Relay.Credential.Interface.{Crypto}
use inzo.Relay.Consent.{ConsentRecord, Assurance, without_credentials}
use inzo.Relay.Consent
use inzo.Relay.Consent.Invariant.{
  IsConsistent, approve-IsConsistent, withdraw-IsConsistent, withdraw_by_credentials-IsConsistent,
}
use inzo.Relay.Audit.{AuditActor, Hashing}
use inzo.Relay.Store.State.{Pairing}
use inzo.Relay.Store.Plans.{PlanHashing, check_version}
use inzo.Cloud.Room.{Room, Plan, StatusRow, get_members, get_pairing, member_pairing}
use inzo.Cloud.Room.Log.{append_entry}
use inzo.Cloud.Room.Plans.{get_plan_row, subject_hash}
use inzo.Cloud.Room.Approving.{
  Signed, consent_row, get_consent, write_consent, update_plan, approve_checks, approved_plan,
  approval_entry, signed_checks, approve_signed, take_approval, approve_plan, withdraw_consent,
  strip_row, strip_consent,
}
use inzo.Cloud.Room.Approving.Agreement.{approve_input, signed_checks-eq-ok}
use inzo.Cloud.Room.Sound.{
  IsPlanned, owned, IsSound, either_keeps, pair_keeps, append_entry-IsSound, with_plans,
  with_consents, write_rows-AllConsistent, find-AllConsistent,
}
use inzo.Cloud.Room.Sound.Plans.{get_pairing-id, member_pairing-id}

-- A vote changes neither the pairing of a plan, nor its version, nor its items.
vote-IsPlanned :
    (id pairing_id : String) (approved_by : List String) (locked : Bool) (now : ℕ)
    (plans : List Plan) (rows : List StatusRow)
    → IsPlanned id plans rows
    → IsPlanned id (map (update_plan pairing_id approved_by locked now) plans) rows
vote-IsPlanned id pairing_id approved_by locked now [] rows v = v
vote-IsPlanned id pairing_id approved_by locked now (plan ∷ []) rows v =
    elim (Bool-cases (plan.pairing_id == pairing_id)) [ inl e ↦ rw e v | inr e ↦ rw e v ]
vote-IsPlanned id pairing_id approved_by locked now (plan ∷ plan' ∷ plans) rows v = absurd v

or_throw-ok :
    {E A : Type 0} (found : Option A) (thrown : E) {a : A}
    → or_throw found thrown ≡ ok a
    → found ≡ some a
or_throw-ok none thrown e = cc
or_throw-ok (some a) thrown e = ap some (ok-injective e)

vote-owned :
    (agents : List String) (pairing_id : String) (approved_by : List String) (locked : Bool)
    (now : ℕ) (plans : List Plan)
    → owned agents (map (update_plan pairing_id approved_by locked now) plans) ≡ owned agents plans
vote-owned agents pairing_id approved_by locked now [] = refl
vote-owned agents pairing_id approved_by locked now (plan ∷ plans) =
    ground (arith, vote-owned agents pairing_id approved_by locked now plans)

write_consent-IsSound :
    (h : Hashing) (id : String) (r : Room) (next : ConsentRecord)
    → IsConsistent next
    → IsSound h id r
    → IsSound h id (write_consent r next)
write_consent-IsSound h id r next n v =
    with_consents v (write_rows-AllConsistent next r.consents n v.consistent)

approve_checks-id :
    (h : Hashing) (id : String) (r : Room) (agent_id : String) (plan_version : Json)
    (pairing : Pairing) (plan : Plan)
    → IsSound h id r
    → approve_checks r agent_id plan_version ≡ ok (pairing, plan)
    → pairing.id ≡ id
unfolding approve_checks
approve_checks-id h id r agent_id plan_version pairing plan v e =
    let (found, member, e₁) = >>=-eq-ok (member_pairing r agent_id) _ e in
    let (row, there, e₂) = or_throw-eq-ok (get_plan_row r) not_found _ e₁ in
    let (_, checked, e₃) = >>=-eq-ok (check_version plan_version row.version) _ e₂ in
    sym (ap (λ (p : Pairing × Plan). p.0.id) (ok-injective e₃))
    ∙ member_pairing-id h id r agent_id found v member

module _ (c : Crypto) (ph : PlanHashing) (id : String) where
  approve_signed-IsSound :
      (r : Room) (pairing : Pairing) (plan : Plan) (signed : Signed) (now : ℕ)
      → pairing.id ≡ id
      → IsSound ph.hashing id r
      → IsSound ph.hashing id (approve_signed c ph r pairing plan signed now).0
  unfolding approve_signed
  approve_signed-IsSound r pairing plan signed now own v =
      attempt_keeps (IsSound ph.hashing id) r (signed_checks c ph r pairing plan signed now) _ v
        λ next taken.
          let (current, found, same, approved) =
            signed_checks-eq-ok c ph r pairing plan signed now next taken in
          let consistent =
            approve-IsConsistent c current next (approve_input pairing.id signed) now
              (find-AllConsistent (λ row. row.pairing_id == pairing.id) r.consents current found
                v.consistent)
              approved in
          let hash = subject_hash ph plan in
          let approval = approval_entry "consent.approved" signed.payload plan.version hash in
          let satisfied = approval_entry "consent.satisfied" signed.payload plan.version hash in
          let r₁ = write_consent r next in
          let v₁ = write_consent-IsSound ph.hashing id r next consistent v in
          let r₂ = append_entry ph.hashing r₁ id approval now in
          let v₂ = append_entry-IsSound ph.hashing id r₁ approval now v₁ in
          let v₃ = append_entry-IsSound ph.hashing id r₂ satisfied now v₂ in
          rw own (
            either_keeps (IsSound ph.hashing id) next.satisfied
              (append_entry ph.hashing r₂ id satisfied now) r₂ v₃ v₂)

  take_approval-IsSound :
      (r : Room) (pairing : Pairing) (plan : Plan) (consent : Option Signed) (now : ℕ)
      → pairing.id ≡ id
      → IsSound ph.hashing id r
      → IsSound ph.hashing id (take_approval c ph r pairing plan consent now).0
  unfolding take_approval
  take_approval-IsSound r pairing plan none now own v = v
  take_approval-IsSound r pairing plan (some signed) now own v =
      let kept = approve_signed-IsSound r pairing plan signed now own v in
      let (r', approved) = approve_signed c ph r pairing plan signed now in
      attempt_keeps (IsSound ph.hashing id) r' approved _ kept (λ next taken. kept)

  pub approve_plan-IsSound :
      (r : Room) (agent_id : String) (plan_version : Json) (consent : Option Signed) (now : ℕ)
      → IsSound ph.hashing id r
      → IsSound ph.hashing id (approve_plan c ph r agent_id plan_version consent now).0
  unfolding approve_plan
  approve_plan-IsSound r agent_id plan_version consent now v =
      attempt_keeps (IsSound ph.hashing id) r (approve_checks r agent_id plan_version) _ v
        λ (pairing, row) checked.
          let plan = approved_plan pairing row agent_id now in
          let own = approve_checks-id ph.hashing id r agent_id plan_version pairing row v checked in
          let written : Room = record r {
            plans = map (update_plan pairing.id plan.approved_by plan.locked now) r.plans;
          } in
          let w : IsSound ph.hashing id written =
            with_plans v
              (vote-IsPlanned id pairing.id plan.approved_by plan.locked now r.plans r.statuses
                v.planned)
              (vote-owned (get_members r) pairing.id plan.approved_by plan.locked now r.plans
                ∙ v.owners) in
          take_approval-IsSound written pairing plan consent now own w

module _ (ph : PlanHashing) (id : String) where
  pub withdraw_consent-IsSound :
      (r : Room) (principal_id : String) (actor : AuditActor) (assurance : Assurance) (now : ℕ)
      → IsSound ph.hashing id r
      → IsSound ph.hashing id (withdraw_consent ph r principal_id actor assurance now).0
  unfolding withdraw_consent
  withdraw_consent-IsSound r principal_id actor assurance now v =
      attempt_keeps (IsSound ph.hashing id) r (get_pairing r) _ v λ pairing made.
        attempt_keeps (IsSound ph.hashing id) r (or_throw (consent_row r pairing.id) not_found) _ v
          λ current there.
            let found = or_throw-ok (consent_row r pairing.id) not_found there in
            let consistent = withdraw-IsConsistent current principal_id now (
              find-AllConsistent (λ row. row.pairing_id == pairing.id) r.consents current found
                v.consistent) in
            let next = Consent.withdraw current principal_id now in
            rw (get_pairing-id ph.hashing id r pairing v made) (
              append_entry-IsSound ph.hashing id (write_consent r next)
                (record {
                  action = "consent.withdrawn";
                  actor = actor;
                  assurance = assurance;
                  detail = obj (field "principal" (str principal_id) end);
                })
                now (write_consent-IsSound ph.hashing id r next consistent v))

  pub strip_consent-IsSound :
      (r : Room) (jtis : List String) (now : ℕ)
      → IsSound ph.hashing id r
      → IsSound ph.hashing id (strip_consent r jtis now).0
  unfolding strip_consent get_consent
  strip_consent-IsSound r jtis now v =
      attempt_keeps (IsSound ph.hashing id) r (get_consent r) _ v λ current read.
        let (pairing, made, found) = >>=-eq-ok (get_pairing r) _ read in
        strip pairing current (ok-injective found)
    where
      strip :
          (pairing : Pairing) (current : Option ConsentRecord)
          → consent_row r pairing.id ≡ current
          → IsSound ph.hashing id (strip_row r current jtis now).0
      strip pairing none found = v
      strip pairing (some old) found =
          let next = Consent.withdraw_by_credentials old jtis now in
          let kept =
            write_consent-IsSound ph.hashing id r next
              (withdraw_by_credentials-IsConsistent old jtis now (
                find-AllConsistent (λ row. row.pairing_id == pairing.id) r.consents old found
                  v.consistent))
              v in
          pair_keeps (IsSound ph.hashing id)
            (eqb (length (without_credentials jtis old.approvals)) (length old.approvals))
            (r, ok (some old)) (write_consent r next, ok (some next)) (λ e. v) (λ e. kept)
