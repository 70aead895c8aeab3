-- ===== src/Relay/Auth.antt =====
-- packages/relay/src/lib/auth.ts: `requireAuth` and `requireScope`. The clock is read where the
-- credential is verified, where the proof is verified, and by the replay guard.
pub mod Vouched
pub mod Once
use inzo.Prelude.{
  ℕ, String, Bool, true, false, not, List, [], ◌∷◌, Option, none, some, Result, ok, err, guard,
  attempt, ◌>>=◌, ◌>>◌, ◌||◌, or_throw, any, includes, is_none, ◌==◌, if◌then◌else◌,
}
use inzo.Prelude.Int.{ℤ}
use inzo.Relay.Errors.{
  Error, relay_error, credential_error, plain_error, unauthenticated, identity_not_allowed, revoked,
  insufficient_scope, forbidden, credential_expired, proof_invalid, proof_stale, proof_replayed,
}
use inzo.Relay.Credential.Interface.{Crypto, CredentialPayload, stream_proof_window_seconds}
use inzo.Relay.Credential.Proof.{ProofInput, ProofReplayGuard, verify_proof, admit}
use inzo.Relay.Consent.{Assurance, pop, bearer}
use inzo.Relay.CredentialStore
use inzo.Relay.CredentialStore.{agent_principal}
use inzo.Relay.Store.State.{Store, pairing_for_agent}
use inzo.Relay.Store.Revocation.{TokenIdentity, resolve_token}

-- A request as Express gives it. `inzo` and `bearer` are what follows `Inzo ` and `Bearer ` in the
-- header, where it has that form; a `query_…` is a parameter that is a text. `path` is the part
-- before the `?`, `body_names` are the names of the body's fields and `body_hash` is `bodyHashOf` of
-- the body.
pub record Request : Type 0 where
  pub inzo : Option String
  pub bearer : Option String
  pub query_credential : Option String
  pub query_token : Option String
  pub header_proof : Option String
  pub query_proof : Option String
  pub header_proof_at : Option String
  pub query_proof_at : Option String
  pub header_proof_nonce : Option String
  pub query_proof_nonce : Option String
  pub method : String
  pub path : String
  pub body_hash : String
  pub body_names : List String
  pub pairing_param : Option String

-- What the readings of `Date.now()` give, for one request.
pub record Clock : Type 0 where
  pub verified_at : ℕ
  pub proved_at : ℕ
  pub admitted_at : ℕ

-- `s.split(".")`, `Number(s)` where it is finite, and `hashAgentToken`.
pub record Texts : Type 0 where
  pub split_dots : String → List String
  pub to_number : String → Option ℤ
  pub hash_token : String → String

pub record AuthContext : Type 0 where
  pub agent_id : String
  pub pairing_id : Option String
  pub scope : List String
  pub revoked_at : Option ℕ
  pub assurance : Assurance
  pub principal_id : Option String
  pub credential : Option CredentialPayload

abbrev pub identity_fields : List String
identity_fields = "agentId" ∷ "fromAgentId" ∷ "proposedBy" ∷ "principalId" ∷ []

-- `a ?? b`
abbrev pub or_else : {A : Type 0} → Option A → Option A → Option A
or_else none b = b
or_else (some a) b = some a

-- The empty text counts as nothing.
abbrev pub nonempty : Option String → Option String
nonempty none = none
nonempty (some s) = if s == "" then none else some s

abbrev pub or_query : Bool → Option String → Option String → Option String
or_query allow_query header query = or_else header (if allow_query then query else none)

abbrev pub presented_credential : Bool → Request → Option String
presented_credential allow_query r = nonempty (or_query allow_query r.inzo r.query_credential)

abbrev pub presented_proof : Bool → Request → Option String
presented_proof allow_query r = nonempty (or_query allow_query r.header_proof r.query_proof)

abbrev pub presented_token : Bool → Request → Option String
presented_token allow_query r = nonempty (or_query allow_query r.bearer r.query_token)

abbrev pub text_or_empty : Option String → String
text_or_empty none = ""
text_or_empty (some s) = s

abbrev pub parsed : {A B : Type 0} → (A → Option B) → Option A → Option B
parsed f none = none
parsed f (some a) = f a

-- `catch`
abbrev pub rethrow : {A : Type 0} → (Error → Error) → Result Error A → Result Error A
rethrow f (ok a) = ok a
rethrow f (err e) = err (f e)

abbrev pub credential_error_to_relay_error : Error → Error
credential_error_to_relay_error (credential_error code) =
    if code == "credential_expired"
    then credential_expired
    else (if code == "revoked" then revoked else unauthenticated)
credential_error_to_relay_error (relay_error status code) = unauthenticated
credential_error_to_relay_error plain_error = unauthenticated

abbrev pub proof_error : Error → Error
proof_error (credential_error code) = if code == "proof_stale" then proof_stale else proof_invalid
proof_error (relay_error status code) = proof_invalid
proof_error plain_error = proof_invalid

abbrev pub pairing_matches : (asked own : Option String) → Bool
pairing_matches none own = true
pairing_matches (some id) none = id == ""
pairing_matches (some id) (some p) = id == "" || p == id

-- The checks of the body and the path, which follow both ways of identification.
unfoldable pub check_request : Request → AuthContext → Result Error AuthContext
check_request r context = do
  guard (not (any (includes r.body_names) identity_fields)) identity_not_allowed
  guard (pairing_matches r.pairing_param context.pairing_id) forbidden
  ok context

-- The credential of the context bears the pairing that the relay has bound it to.
abbrev pub pop_context : Store → CredentialPayload → AuthContext
pop_context s payload =
    let bound = or_else payload.pairing (pairing_for_agent s payload.sub) in
    record {
      agent_id = payload.sub;
      pairing_id = bound;
      scope = payload.cap;
      revoked_at = none;
      assurance = pop;
      principal_id = some payload.prn;
      credential = some (record payload { pairing = bound });
    }

abbrev pub bearer_context : Store → TokenIdentity → AuthContext
bearer_context s identity = record {
  agent_id = identity.agent_id;
  pairing_id = identity.pairing_id;
  scope = identity.scope;
  revoked_at = identity.revoked_at;
  assurance = bearer;
  principal_id = agent_principal s.trust identity.agent_id;
  credential = none;
}

unfoldable pub token_context : Texts → Bool → Store → Request → Result Error AuthContext
token_context texts allow_query s r = do
  token ← or_throw (presented_token allow_query r) unauthenticated
  identity ← or_throw (resolve_token texts.hash_token s token) unauthenticated
  guard (is_none identity.revoked_at) revoked
  ok (bearer_context s identity)

module _ (c : Crypto) (texts : Texts) (issuer_url : String)
    (keys : List (String × c.PublicKey)) where
  abbrev pub proof_of : Bool → Request → CredentialPayload → (now : ℕ) → ProofInput
  proof_of allow_query r payload now = record {
    payload = payload;
    proof = presented_proof allow_query r;
    timestamp = parsed texts.to_number (or_query allow_query r.header_proof_at r.query_proof_at);
    method = r.method;
    path = r.path;
    body_hash = r.body_hash;
    nonce = text_or_empty (or_query allow_query r.header_proof_nonce r.query_proof_nonce);
    now = now;
    window_seconds = if allow_query then some stream_proof_window_seconds else none;
  }

  -- The payload of the credential, and the proof, both verified.
  unfoldable pub signed_payload :
      Bool
      → Store
      → Request
      → (credential : String) → Clock
      → Result Error (CredentialPayload × String)
  signed_payload allow_query s r credential clock = do
    payload ← rethrow credential_error_to_relay_error (
        CredentialStore.verify c s.trust issuer_url (texts.split_dots credential) keys
          clock.verified_at)
    timestamp ←
        rethrow proof_error (verify_proof c (proof_of allow_query r payload clock.proved_at))
    proof ← or_throw (presented_proof allow_query r) proof_invalid
    ok (payload, proof)

  unfoldable pub authenticate :
      Bool
      → Store
      → Request
      → Option String
      → ProofReplayGuard
      → Clock
      → ProofReplayGuard × Result Error AuthContext
  authenticate allow_query s r (some credential) g clock =
      attempt g (signed_payload allow_query s r credential clock) λ signed.
        let (payload, proof) = signed in
        let (g', fresh) = admit g proof clock.admitted_at in
        (g', if fresh then check_request r (pop_context s payload) else err proof_replayed)
  authenticate allow_query s r none g clock =
      attempt g (token_context texts allow_query s r) λ context. (g, check_request r context)

  unfoldable pub require_auth :
      (allow_query : Bool)
      → Store
      → Request
      → ProofReplayGuard
      → Clock
      → ProofReplayGuard × Result Error AuthContext
  require_auth allow_query s r g clock =
      authenticate allow_query s r (presented_credential allow_query r) g clock

unfoldable pub require_scope : String → Option AuthContext → Result Error (Unit {0})
require_scope scope context = do
  auth ← or_throw context unauthenticated
  guard (includes auth.scope scope) (insufficient_scope)
