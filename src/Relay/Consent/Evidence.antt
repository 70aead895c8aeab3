-- ===== src/Relay/Consent/Evidence.antt =====
-- The life of a consent record, and the signatures that its approvals carry all the while.
use inzo.Prelude.{
  ℕ, ◌≡◌, refl, String, true, List, [], ◌∷◌, some, ok, arith, all, all-filter, all-append,
  Bool-cases, inl, inr, eqb, length,
}
use inzo.Relay.Credential.Interface.{Jwk, Crypto}
use inzo.Relay.Consent.{
  ConsentRecord, ConsentSubject, ApproveInput, open_consent, withdraw, withdraw_by_credentials,
  without_principal, without_credentials, approve, holder_key, approval_valid,
}
use inzo.Relay.Consent.Invariant.{
  IsConsistent, Approved, approve-Approved, approve-IsConsistent, open_consent-IsConsistent,
  withdraw-IsConsistent, withdraw_by_credentials-IsConsistent,
}

module _ (c : Crypto) (keys : List (String × Jwk)) where
  -- The records that the store can hold: opened for a proposal, then approved for the pairing that
  -- it belongs to with credentials whose holder keys are on file, withdrawn from, or stripped of the
  -- approvals of revoked credentials, in any order.
  pub data Life : ConsentRecord → Type 0 where
    opened :
        (pairing_id : String) (subject : ConsentSubject) (required : List String) (now : ℕ)
        → Life (open_consent pairing_id subject required now)
    approved :
        {r : ConsentRecord}
        → Life r
        → (input : ApproveInput) (now : ℕ) (next : ConsentRecord) → input.pairing_id ≡ r.pairing_id
        → holder_key c input.payload.jti keys ≡ some input.payload.cnf
        → approve c (some r) input now ≡ ok next
        → Life next
    withdrawn :
        {r : ConsentRecord}
        → Life r
        → (principal : String) (now : ℕ) → Life (withdraw r principal now)
    stripped :
        {r : ConsentRecord}
        → Life r
        → (dead : List String) (now : ℕ) → Life (withdraw_by_credentials r dead now)

  -- A record that `Life` reaches is consistent: its flag is what `isSatisfied` says of it, its
  -- approvals are of required principals, and no principal approves twice.
  pub Life-IsConsistent : {r : ConsentRecord} → Life r → IsConsistent r
  Life-IsConsistent (opened pairing_id subject required now) =
      open_consent-IsConsistent pairing_id subject required now
  Life-IsConsistent (approved {r = r} l input now next same known h) =
      approve-IsConsistent c r next input now (Life-IsConsistent l) h
  Life-IsConsistent (withdrawn {r = r} l principal now) =
      withdraw-IsConsistent r principal now (Life-IsConsistent l)
  Life-IsConsistent (stripped {r = r} l dead now) =
      withdraw_by_credentials-IsConsistent r dead now (Life-IsConsistent l)

  -- Every approval of the record would pass an outside check.
  abbrev pub HasEvidence : ConsentRecord → Type 0
  HasEvidence r = all (approval_valid c r keys) r.approvals ≡ true

  approve-HasEvidence :
      (r next : ConsentRecord) (input : ApproveInput) (now : ℕ)
      → HasEvidence r
      → input.pairing_id ≡ r.pairing_id
      → holder_key c input.payload.jti keys ≡ some input.payload.cnf
      → approve c (some r) input now ≡ ok next
      → HasEvidence next
  approve-HasEvidence r next input now e same known h =
      let done : Approved c r next input now = (approve-Approved c r next input now h).1 in
      let left = without_principal input.payload.prn r.approvals in
      rw done.made (
        all-append (approval_valid c r keys) left (done.approval ∷ [])
          (all-filter _ (approval_valid c r keys) r.approvals e)
          (ground (arith, done.credential, done.principal, done.required, done.signed)))

  -- Every approval of a record that `Life` reaches passes the check of an outside verifier: its
  -- credential's holder key is known, its principal is required, and its signature is good.
  pub Life-HasEvidence : {r : ConsentRecord} → Life r → HasEvidence r
  unfolding open_consent withdraw withdraw_by_credentials
  Life-HasEvidence (opened pairing_id subject required now) = refl
  Life-HasEvidence (approved {r = r} l input now next same known h) =
      approve-HasEvidence r next input now (Life-HasEvidence l) same known h
  Life-HasEvidence (withdrawn {r = r} l principal now) =
      all-filter _ (approval_valid c r keys) r.approvals (Life-HasEvidence l)
  Life-HasEvidence (stripped {r = r} l dead now) =
      let left = without_credentials dead r.approvals in
      let kept = all-filter _ (approval_valid c r keys) r.approvals (Life-HasEvidence l) in
      elim (Bool-cases (eqb (length left) (length r.approvals))) [
        | inl e ↦ rw e (Life-HasEvidence l)
        | inr e ↦ rw e kept
      ]
