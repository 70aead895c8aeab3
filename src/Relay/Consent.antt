-- ===== src/Relay/Consent.antt =====
-- packages/relay/src/lib/consent.ts, and what `approve`, `withdraw` and `withdrawByCredentials` of
-- lib/credentialStore.ts make of a consent record. A time is a number of milliseconds.
pub mod Satisfied
pub mod Invariant
pub mod Evidence
pub mod Verified
use inzo.Prelude.{
  ℕ, String, Bool, true, false, not, ◌&&◌, List, [], ◌∷◌, ◌++◌, map, Option, none, some, Result, ok,
  err, guard, or_throw, ◌>>◌, ◌>>=◌, eqb, length, filter, all, includes, is_empty, ◌==◌,
  if◌then◌else◌,
}
use inzo.Prelude.Int.{pos}
use inzo.Prelude.Json.{Json, str}
use inzo.Relay.Errors.{Error, bad_request, forbidden, not_found, pop_required_for_consent}
use inzo.Relay.Credential.Interface.{Jwk, CredentialPayload, Crypto}
use inzo.Relay.Credential.Proof.{join_lines}

-- audit.ts
pub data Assurance : Type 0 where
  pop bearer : Assurance

-- `kind` is always "plan".
pub record ConsentSubject : Type 0 where
  pub version : ℕ
  pub hash : String

pub record Approval : Type 0 where
  pub principal : String
  pub credential : String
  pub at : ℕ
  pub signature : String

pub record ConsentRecord : Type 0 where
  pub pairing_id : String
  pub subject : ConsentSubject
  pub required : List String
  pub approvals : List Approval
  pub satisfied : Bool
  pub created_at : ℕ
  pub updated_at : ℕ

abbrev pub principals : List Approval → List String
principals = map (λ a. a.principal)

unfoldable pub is_satisfied : List String → List Approval → Bool
is_satisfied required approvals =
    if is_empty required then false else all (includes (principals approvals)) required

-- The record with other approvals, as every operation writes it back.
abbrev pub with_approvals : ConsentRecord → List Approval → ℕ → ConsentRecord
with_approvals r approvals now = record r {
  approvals = approvals;
  satisfied = is_satisfied r.required approvals;
  updated_at = now;
}

-- `openConsent`
unfoldable pub open_consent : String → ConsentSubject → List String → ℕ → ConsentRecord
open_consent pairing_id subject required now = record {
  pairing_id = pairing_id;
  subject = subject;
  required = required;
  approvals = [];
  satisfied = false;
  created_at = now;
  updated_at = now;
}

abbrev pub without_principal : String → List Approval → List Approval
without_principal principal = filter (λ entry. not (entry.principal == principal))

unfoldable pub withdraw : ConsentRecord → String → ℕ → ConsentRecord
withdraw r principal now = with_approvals r (without_principal principal r.approvals) now

abbrev pub without_credentials : List String → List Approval → List Approval
without_credentials dead = filter (λ entry. not (includes dead entry.credential))

unfoldable pub withdraw_by_credentials : ConsentRecord → List String → ℕ → ConsentRecord
withdraw_by_credentials r dead now =
    let approvals = without_credentials dead r.approvals in
    if eqb (length approvals) (length r.approvals) then r else with_approvals r approvals now

-- `typeof signature !== "string" || !signature`
abbrev pub signature_text : Json → Option String
signature_text (str s) = if s == "" then none else some s
signature_text _ = none

abbrev pub is_pop : Assurance → Bool
is_pop pop = true
is_pop bearer = false

pub record ApproveInput : Type 0 where
  pub pairing_id : String
  pub payload : CredentialPayload
  pub assurance : Assurance
  pub signature : Json

module _ (c : Crypto) where
  unfoldable pub consent_statement : String → ConsentSubject → String
  consent_statement pairing_id subject = join_lines (
      "inzo-consent-v3"
      ∷ pairing_id
      ∷ "plan"
      ∷ c.show_number (pos subject.version)
      ∷ subject.hash
      ∷ [])

  abbrev verify_with : Option c.PublicKey → String → String → Bool
  verify_with none statement signature = false
  verify_with (some key) statement signature = c.verify key statement signature

  unfoldable pub verify_approval_signature : String → ConsentSubject → String → Jwk → Bool
  verify_approval_signature pairing_id subject signature holder =
      verify_with (c.from_jwk holder) (consent_statement pairing_id subject) signature

  unfoldable pub approve : Option ConsentRecord → ApproveInput → ℕ → Result Error ConsentRecord
  approve current input now = do
    guard (is_pop input.assurance) pop_required_for_consent
    signature ← or_throw (signature_text input.signature) bad_request
    r ← or_throw current not_found
    guard (includes r.required input.payload.prn) forbidden
    guard (verify_approval_signature input.pairing_id r.subject signature input.payload.cnf)
        bad_request
    let approval : Approval = record {
      principal = input.payload.prn;
      credential = input.payload.jti;
      at = now;
      signature = signature;
    }
    ok (with_approvals r (without_principal input.payload.prn r.approvals ++ approval ∷ []) now)

  -- A `Map` from the id of a credential to its holder's key.
  abbrev pub holder_key : String → List (String × Jwk) → Option Jwk
  holder_key jti [] = none
  holder_key jti ((j, key) ∷ keys) = if j == jti then some key else holder_key jti keys

  -- The verdict on one approval; its `reason` is left out.
  abbrev pub approval_valid : ConsentRecord → List (String × Jwk) → Approval → Bool
  approval_valid r keys approval = elim (holder_key approval.credential keys) [
    | none ↦ false
    | some jwk ↦
        includes r.required approval.principal
        && verify_approval_signature r.pairing_id r.subject approval.signature jwk
  ]

  pub record Verdict : Type 0 where
    pub valid : Bool
    pub satisfied : Bool

  unfoldable pub verify_consent_record : ConsentRecord → List (String × Jwk) → Verdict
  verify_consent_record r keys =
      let valid = all (approval_valid r keys) r.approvals in
      let approved = principals (filter (approval_valid r keys) r.approvals) in
      record { valid = valid; satisfied = valid && all (includes approved) r.required }
