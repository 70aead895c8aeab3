-- ===== src/Cloud/Room/Approving/Agreement.antt =====
-- The two relays take the same approvals: `approvePlan` of packages/relay-cf/src/pairingRoom.ts
-- against `approve` of packages/relay/src/lib/credentialStore.ts.
use inzo.Prelude.{
  ℕ, ◌≡◌, refl, sym, ◌∙◌, String, some, ok, guard-eq-ok, or_throw-eq-ok, ◌==◌, ==_refl, ==→eq,
}
use inzo.Relay.Errors.{bad_request, not_found, subject_hash_mismatch}
use inzo.Relay.Credential.Interface.{Crypto}
use inzo.Relay.Consent.{ConsentRecord, ApproveInput, pop, signature_text}
use inzo.Relay.Consent
use inzo.Relay.Store.State.{Pairing}
use inzo.Relay.Store.Plans.{PlanHashing}
use inzo.Cloud.Room.{Room, Plan}
use inzo.Cloud.Room.Plans.{subject_hash}
use inzo.Cloud.Room.Approving.{Signed, consent_row, signed_checks}

abbrev pub approve_input : String → Signed → ApproveInput
approve_input pairing_id signed = record {
  pairing_id = pairing_id;
  payload = signed.payload;
  assurance = pop;
  signature = signed.signature;
}

-- Where the stored subject is that of the plan, the object takes a signed approval exactly as the
-- Node relay does with proof of possession: with the same record, or the same error.
pub signed_checks-approve :
    (c : Crypto) (ph : PlanHashing) (r : Room) (pairing : Pairing) (plan : Plan) (signed : Signed)
    (now : ℕ) (current : ConsentRecord)
    → consent_row r pairing.id ≡ some current
    → current.subject.hash ≡ subject_hash ph plan
    → signed_checks c ph r pairing plan signed now
      ≡ Consent.approve c (some current) (approve_input pairing.id signed) now
unfolding signed_checks inzo.Relay.Consent.approve
signed_checks-approve c ph r pairing plan signed now current found same =
    rw (found, same, ==_refl (subject_hash ph plan)) refl

-- An approval that is taken is one that the Node relay takes.
pub signed_checks-eq-ok :
    (c : Crypto) (ph : PlanHashing) (r : Room) (pairing : Pairing) (plan : Plan) (signed : Signed)
    (now : ℕ) (next : ConsentRecord)
    → signed_checks c ph r pairing plan signed now ≡ ok next
    → (current : ConsentRecord) × (consent_row r pairing.id ≡ some current)
      × (current.subject.hash ≡ subject_hash ph plan)
      × (Consent.approve c (some current) (approve_input pairing.id signed) now ≡ ok next)
unfolding signed_checks
signed_checks-eq-ok c ph r pairing plan signed now next h =
    let (signature, given, h₁) = or_throw-eq-ok (signature_text signed.signature) bad_request _ h in
    let (current, found, h₂) = or_throw-eq-ok (consent_row r pairing.id) not_found _ h₁ in
    let (equal, h₃) =
      guard-eq-ok (current.subject.hash == subject_hash ph plan) subject_hash_mismatch _ h₂ in
    let same = ==→eq current.subject.hash (subject_hash ph plan) equal in
    (
      current,
      found,
      same,
      sym (signed_checks-approve c ph r pairing plan signed now current found same) ∙ h,
    )
