-- ===== src/Relay/Tests.antt =====
-- Examples of the theorems at concrete inputs, with a signature scheme that can be computed.
mod Credentials
mod Consents
mod Limits
mod Stores
mod Requests
pub mod Usages
use inzo.Prelude.{◌*◌, ◌/◌, ℕ, String, List, [], ◌∷◌, Option, none, some, ◌==◌}
use Prim.Native.String
use inzo.Prelude.Int.{ℤ, pos}
use inzo.Prelude.Json.{Json, str, arr, cons, nil}
use inzo.Relay.Scopes.{all_scopes}
use inzo.Relay.Credential.Interface.{Jwk, CredentialPayload, Header, IssuerKey, Crypto, ticks}
use inzo.Relay.Credential.Issue.{credential_header, Issued, sealed}
use inzo.Relay.Audit.{Unhashed, Hashing}

abbrev pub holder : Jwk
holder = record { x = "k" }

abbrev pub root : CredentialPayload
root = record {
  iss = "https://relay";
  jti = "root";
  sub = "agt_1";
  prn = "prn_1";
  pairing = none;
  cap = all_scopes;
  cnf = holder;
  chain = [];
  depth = 0;
  iat = 0;
  exp = 7200 * ticks;
}

-- A signature is the key with the message behind it.
abbrev pub demo : Crypto
demo = record {
  PrivateKey = String;
  PublicKey = String;
  public_of = λ k. k;
  sign = λ k m. String.◌++◌ k m;
  verify = λ k m s. s == String.◌++◌ k m;
  encode_header = λ h. "h";
  decode_header = λ s. some (credential_header "k1");
  encode_payload = λ p. "p";
  decode_payload = λ s. some root;
  from_jwk = λ j. some j.x;
  show_number = λ n. "1";
  to_upper_case = λ s. s;
}

abbrev pub key : IssuerKey String
key = record { kid = "k1"; private_key = "sk" }

abbrev pub keys : List (String × String)
keys = ("k1", "sk") ∷ []

abbrev pub reading : Json
reading = arr (cons (str "messages:read") nil)

abbrev pub child : CredentialPayload
child = record {
  iss = "https://relay";
  jti = "child";
  sub = "agt_1";
  prn = "prn_1";
  pairing = none;
  cap = "messages:read" ∷ [];
  cnf = holder;
  chain = "root" ∷ [];
  depth = 1;
  iat = 5;
  exp = 7200 * ticks;
}

abbrev pub child_issued : Issued
child_issued = record { credential = sealed demo key child; payload = child }

abbrev pub hashing : Hashing
hashing = record { sha256_hex = λ s. s; canonicalize = λ u. u.action }
