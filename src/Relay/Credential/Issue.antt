-- ===== src/Relay/Credential/Issue.antt =====
-- `issueCredential` and `attenuate` of packages/relay/src/lib/credential.ts. A credential is the
-- list of its parts between the dots. The random `jti` is an argument.
pub mod Attenuation
use inzo.Prelude.{
  ℕ, ◌+◌, ◌*◌, ◌/◌, String, Bool, true, false, List, [], ◌∷◌, ◌++◌, Option, none, some, Result, ok,
  err, guard, ◌>>◌, ◌>>=◌, leb, ltb, if◌then◌else◌,
}
use Prim.Native.String
use inzo.Prelude.Int.{ℤ, pos, negsuc, pos_part, sub_ℕ, ltb_ℤ, min_ℤ, max_ℤ}
use inzo.Prelude.Json.{Json}
use inzo.Relay.Errors.{Error, credential_error, bad_request}
use inzo.Relay.Scopes.{canonical, requested_subset}
use inzo.Relay.Credential.Interface.{
  Jwk, CredentialPayload, Header, IssuerKey, Crypto, max_ttl_seconds, default_ttl_seconds,
  max_depth, ticks,
}

pub record IssueInput : Type 0 where
  pub issuer : String
  pub agent_id : String
  pub principal_id : String
  pub pairing_id : Option String
  pub cap : List String
  pub cnf : Jwk
  pub chain : List String
  pub depth : ℕ
  -- in ticks
  pub ttl_seconds : Option ℤ
  pub now : ℕ

pub record Issued : Type 0 where
  pub credential : List String
  pub payload : CredentialPayload

-- `Math.floor(now / 1000)`
abbrev pub seconds : ℕ → ℕ
seconds now = now / 1000

-- In ticks, `Math.min(ttlSeconds ?? DEFAULT_TTL_SECONDS, MAX_TTL_SECONDS)`
abbrev pub capped_ttl : Option ℤ → ℤ
capped_ttl none = min_ℤ (pos (default_ttl_seconds * ticks)) (pos (max_ttl_seconds * ticks))
capped_ttl (some ttl) = min_ℤ ttl (pos (max_ttl_seconds * ticks))

abbrev pub payload_of : IssueInput → String → ℤ → CredentialPayload
payload_of input jti ttl = record {
  iss = input.issuer;
  jti = jti;
  sub = input.agent_id;
  prn = input.principal_id;
  pairing = input.pairing_id;
  cap = canonical input.cap;
  cnf = input.cnf;
  chain = input.chain;
  depth = input.depth;
  iat = seconds input.now;
  exp = seconds input.now * ticks + pos_part ttl;
}

abbrev pub credential_header : String → Header
credential_header kid = record { alg = "EdDSA"; typ = "inzo-cred+jws"; kid = some kid }

abbrev pub signing_input : String → String → String
signing_input header payload = String.◌++◌ header (String.◌++◌ "." payload)

-- The lifetime of a child: at most the parent's rest, and at least a second.
abbrev pub child_ttl : CredentialPayload → Option ℤ → ℕ → ℤ
child_ttl parent ttl_seconds now =
    max_ℤ (pos ticks) (min_ℤ (capped_ttl ttl_seconds) (sub_ℕ parent.exp (seconds now * ticks)))

module _ (c : Crypto) where
  open c use {PrivateKey, sign, encode_header, encode_payload}

  abbrev pub sealed : IssuerKey PrivateKey → CredentialPayload → List String
  sealed key payload =
      let header = encode_header (credential_header key.kid) in
      let body = encode_payload payload in
      header ∷ body ∷ sign key.private_key (signing_input header body) ∷ []

  unfoldable pub issue_credential : IssuerKey PrivateKey → IssueInput → String → Result Error Issued
  issue_credential key input jti = do
    let ttl = capped_ttl input.ttl_seconds
    guard (ltb_ℤ (pos 0) ttl) bad_request
    let payload = payload_of input jti ttl
    ok (record { credential = sealed key payload; payload = payload })

  unfoldable pub attenuate :
      IssuerKey PrivateKey
      → CredentialPayload
      → (wanted : Json) (cnf : Jwk) (ttl_seconds : Option ℤ) (now : ℕ) (jti : String)
      → Result Error Issued
  attenuate key parent wanted cnf ttl_seconds now jti = do
    next ← requested_subset wanted parent.cap
    let depth = parent.depth + 1
    guard (leb depth max_depth) (credential_error "depth_exceeded")
    issue_credential key
        (record {
          issuer = parent.iss;
          agent_id = parent.sub;
          principal_id = parent.prn;
          pairing_id = parent.pairing;
          cap = next;
          cnf = cnf;
          chain = parent.chain ++ parent.jti ∷ [];
          depth = depth;
          ttl_seconds = some (child_ttl parent ttl_seconds now);
          now = now;
        })
        jti
