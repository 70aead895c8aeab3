-- ===== src/Relay/Consent/Verified.antt =====
-- What an outside verifier learns from a consent record: `verifyConsentRecord` against the flag.
use inzo.Prelude.{
  ◌≡◌, ◌≢◌, refl, sym, ◌∙◌, String, Bool, true, false, List, [], ◌∷◌, arith, filter_of_all,
  is_empty, if◌then◌else◌,
}
use inzo.Relay.Credential.Interface.{Jwk, Crypto}
use inzo.Relay.Consent.{ConsentRecord, is_satisfied, approval_valid, verify_consent_record}
use inzo.Relay.Consent.Invariant.{IsConsistent}
use inzo.Relay.Consent.Evidence.{Life, Life-IsConsistent, HasEvidence, Life-HasEvidence}

nonempty :
    (required : List String) (b : Bool)
    → required ≢ []
    → b ≡ (if is_empty required then false else b)
nonempty [] b h = absurd (h refl)
nonempty (p ∷ ps) b h = refl

module _ (c : Crypto) (keys : List (String × Jwk)) where
  verified_of_evidence :
      (r : ConsentRecord)
      → HasEvidence c keys r
      → r.required ≢ []
      → ((verify_consent_record c r keys).valid ≡ true)
        × ((verify_consent_record c r keys).satisfied ≡ is_satisfied r.required r.approvals)
  unfolding verify_consent_record is_satisfied
  verified_of_evidence r e h =
      rw (e, filter_of_all (approval_valid c r keys) r.approvals e) (refl, nonempty r.required _ h)

  -- A third party that has the holder keys finds every record of the store valid, and computes the
  -- very flag that the store keeps, if anybody's consent is required at all.
  pub verify_consent_record-agrees :
      (r : ConsentRecord)
      → Life c keys r
      → r.required ≢ []
      → ((verify_consent_record c r keys).valid ≡ true)
        × ((verify_consent_record c r keys).satisfied ≡ r.satisfied)
  verify_consent_record-agrees r l h =
      let (valid, same) = verified_of_evidence r (Life-HasEvidence c keys l) h in
      let v : IsConsistent r = Life-IsConsistent c keys l in (valid, same ∙ sym v.flag)

  -- Where nobody's consent is required the flag of a consistent record is down, and the outside
  -- verifier calls it satisfied if its approvals are valid.
  pub verify_consent_record-vacuous :
      (r : ConsentRecord)
      → IsConsistent r
      → HasEvidence c keys r
      → r.required ≡ []
      → (r.satisfied ≡ false) × ((verify_consent_record c r keys).satisfied ≡ true)
  unfolding verify_consent_record is_satisfied
  verify_consent_record-vacuous r v e h = (ground arith, ground arith)
