-- ===== src/Relay/Credential/Interface.antt =====
-- The data of packages/relay/src/lib/credential.ts, and what the code takes from `node:crypto`,
-- `Buffer` and `JSON`.
use inzo.Prelude.{ℕ, ◌*◌, String, Bool, List, Option}
use inzo.Prelude.Int.{ℤ}

-- A number of seconds from the wire may have a fraction. A lifetime and the end of a credential are
-- numbers of ticks of 2^-22 seconds, the spacing of JavaScript's numbers at the present time.
abbrev pub ticks : ℕ
ticks = 4194304

-- Seconds.
abbrev pub max_ttl_seconds : ℕ
max_ttl_seconds = 8 * 60 * 60

abbrev pub default_ttl_seconds : ℕ
default_ttl_seconds = 2 * 60 * 60

abbrev pub max_depth : ℕ
max_depth = 4

abbrev pub proof_window_seconds : ℕ
proof_window_seconds = 300

abbrev pub stream_proof_window_seconds : ℕ
stream_proof_window_seconds = 60

-- The public key of a holder. `kty` and `crv` are constant in a key that passed `fromJwk`.
pub record Jwk : Type 0 where
  pub x : String

pub record CredentialPayload : Type 0 where
  pub iss : String
  pub jti : String
  pub sub : String
  pub prn : String
  pub pairing : Option String
  pub cap : List String
  pub cnf : Jwk
  pub chain : List String
  pub depth : ℕ
  pub iat : ℕ
  pub exp : ℕ

-- `kid` is `none` where the header's `kid` is not a text.
pub record Header : Type 0 where
  pub alg : String
  pub typ : String
  pub kid : Option String

pub record IssuerKey (PrivateKey : Type 0) : Type 0 where
  pub kid : String
  pub private_key : PrivateKey

-- What the code relies on. `encode_…` is `canonicalize` with base64url behind it, `decode_…` is
-- `JSON.parse` of `unb64u` with the cast to the type, `none` where it throws or the value is not of
-- that type. A signature is the text that `b64u` makes of it.
pub record Crypto : Type 1 where
  pub PrivateKey : Type 0
  pub PublicKey : Type 0
  pub public_of : PrivateKey → PublicKey
  pub sign : PrivateKey → String → String
  pub verify : PublicKey → String → String → Bool
  pub encode_header : Header → String
  pub decode_header : String → Option Header
  pub encode_payload : CredentialPayload → String
  pub decode_payload : String → Option CredentialPayload
  -- `fromJwk`, `none` where it throws
  pub from_jwk : Jwk → Option PublicKey
  -- `String(n)` and `s.toUpperCase()`
  pub show_number : ℤ → String
  pub to_upper_case : String → String
