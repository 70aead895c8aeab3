-- ===== src/Relay/Credential/Verify.antt =====
-- `verifyCredential` of packages/relay/src/lib/credential.ts.
pub mod Delegation
pub mod Revocation
pub mod RoundTrip
use inzo.Prelude.{
  ℕ, ◌+◌, ◌*◌, String, Bool, true, false, not, ◌&&◌, ◌||◌, List, [], ◌∷◌, Option, none, some,
  Result, ok, err, guard, or_throw, ◌>>◌, ◌>>=◌, leb, ltb, eqb, length, all, includes, find?, ◌==◌,
  if◌then◌else◌,
}
use inzo.Relay.Errors.{Error, credential_error}
use inzo.Relay.Scopes.{all_scopes}
use inzo.Relay.Credential.Interface.{CredentialPayload, Crypto, max_depth, ticks}
use inzo.Relay.Credential.Issue.{seconds, signing_input}

-- The options; `now` has been filled in with `Date.now()`.
pub record VerifyOptions : Type 0 where
  pub now : ℕ
  pub revoked : List String
  pub expected_issuer : Option String

abbrev unauthenticated : Error
unauthenticated = credential_error "unauthenticated"

abbrev pub issued_by : Option String → String → Bool
issued_by none iss = true
issued_by (some expected) iss = (expected == "") || (iss == expected)

-- A text, or its absence, as a JavaScript condition.
abbrev pub truthy : Option String → Bool
truthy none = false
truthy (some s) = not (s == "")

-- The checks on a payload whose signature is good, from `expectedIssuer` to the end.
unfoldable pub check_payload : CredentialPayload → VerifyOptions → Result Error CredentialPayload
check_payload payload options = do
  let now = seconds options.now
  guard (issued_by options.expected_issuer payload.iss) unauthenticated
  guard (ltb (now * ticks) payload.exp) (credential_error "credential_expired")
  guard (leb payload.iat (now + 60)) unauthenticated
  guard (all (includes all_scopes) payload.cap) unauthenticated
  guard (eqb payload.depth (length payload.chain)) unauthenticated
  guard (leb payload.depth max_depth) (credential_error "depth_exceeded")
  guard (not (includes options.revoked payload.jti)) (credential_error "revoked")
  guard (not (truthy (find? (includes options.revoked) payload.chain))) (credential_error "revoked")
  ok payload

module _ (c : Crypto) where
  open c use {PublicKey, verify, decode_header, decode_payload}

  -- A `Map` from `kid` to the key.
  abbrev pub find_key : Option String → List (String × PublicKey) → Option PublicKey
  find_key none keys = none
  find_key (some kid) [] = none
  find_key (some kid) ((k, key) ∷ keys) = if k == kid then some key else find_key (some kid) keys

  abbrev pub verify_parts :
      String
      → String
      → String
      → List (String × PublicKey)
      → VerifyOptions
      → Result Error CredentialPayload
  verify_parts p0 p1 p2 keys options = do
    header ← or_throw (decode_header p0) unauthenticated
    payload ← or_throw (decode_payload p1) unauthenticated
    guard ((header.alg == "EdDSA") && (header.typ == "inzo-cred+jws")) unauthenticated
    key ← or_throw (find_key header.kid keys) unauthenticated
    guard (verify key (signing_input p0 p1) p2) unauthenticated
    check_payload payload options

  unfoldable pub verify_credential :
      List String → List (String × PublicKey) → VerifyOptions → Result Error CredentialPayload
  verify_credential (p0 ∷ p1 ∷ p2 ∷ []) keys options = verify_parts p0 p1 p2 keys options
  verify_credential _ keys options = err unauthenticated
