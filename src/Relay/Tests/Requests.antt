-- ===== src/Relay/Tests/Requests.antt =====
-- Examples for lib/auth.ts: a signed request to create a pairing.
use inzo.Prelude.{ℕ, ◌+◌, ◌≢◌, ◌⊎◌, refl, false, [], ◌∷◌, none, some, ok, string_dec, arith}
use inzo.Prelude.Int.{pos}
use inzo.Relay.Credential.Proof.{ProofReplayGuard, fresh_guard}
use inzo.Relay.Store.State.{Store}
use inzo.Relay.Auth.{Clock, Request, Texts, AuthContext, pop_context, require_auth}
use inzo.Relay.Auth.Vouched.{ByCredential, ByToken, Fitting, require_auth-eq-ok}
use inzo.Relay.Auth.Once.{handle_all, accepted-once}
use inzo.Relay.Tests.{demo, root, keys}

abbrev http_texts : Texts
http_texts = record {
  split_dots = λ s. "h" ∷ "p" ∷ "skh.p" ∷ [];
  to_number = λ s. some (pos 1);
  hash_token = λ s. s;
}

abbrev store : Store
store = record {
  codes = [];
  tokens = [];
  pairings = [];
  members = [];
  messages = [];
  plans = [];
  plan_waits = [];
  disposed = [];
  trust = record {
    principals = [];
    credentials = [];
    revoked_jtis = [];
    consents = [];
    audit = [];
  };
  events = [];
}

abbrev creating : Request
creating = record {
  inzo = some "h.p.skh.p";
  bearer = none;
  query_credential = none;
  query_token = none;
  header_proof = some "kPOST\n/pairings\nroot\n1\nh\nn";
  query_proof = none;
  header_proof_at = some "1";
  query_proof_at = none;
  header_proof_nonce = some "n";
  query_proof_nonce = none;
  method = "POST";
  path = "/pairings";
  body_hash = "h";
  body_names = "label" ∷ [];
  pairing_param = none;
}

abbrev remembering : ProofReplayGuard
remembering = record { window_seconds = 300; seen = ("kPOST\n/pairings\nroot\n1\nh\nn", 2) ∷ [] }

abbrev at_second : ℕ → Clock
at_second t = record { verified_at = t; proved_at = t; admitted_at = t + 1 }

require_auth-eq-ok_example :
    (ByCredential demo http_texts "https://relay" keys false store creating
        (fresh_guard 300)
        remembering
        (at_second 2000)
        (pop_context store root)
      ⊎ ByToken demo http_texts "https://relay" keys false store creating (pop_context store root))
    × Fitting creating (pop_context store root)
unfolding require_auth string_dec inzo.Relay.Auth.authenticate inzo.Relay.Auth.signed_payload
    inzo.Relay.CredentialStore.verify inzo.Relay.Credential.Verify.verify_credential
    inzo.Relay.Credential.Verify.check_payload inzo.Relay.Credential.Proof.verify_proof
    inzo.Relay.Credential.Proof.proof_input inzo.Relay.Credential.Proof.admit
    inzo.Relay.Auth.check_request
require_auth-eq-ok_example =
    require_auth-eq-ok demo http_texts "https://relay" keys false store creating (fresh_guard 300)
      remembering (at_second 2000) (pop_context store root) refl

accepted-once_example :
    require_auth demo http_texts "https://relay" keys false store creating
      (handle_all demo http_texts "https://relay" keys remembering (
        record { allow_query = false; store = store; request = creating; at = at_second 3000 }
        ∷ []))
      (at_second 4000)
    ≢ (remembering, ok (pop_context store root))
unfolding require_auth string_dec inzo.Relay.Auth.authenticate inzo.Relay.Auth.signed_payload
    inzo.Relay.CredentialStore.verify inzo.Relay.Credential.Verify.verify_credential
    inzo.Relay.Credential.Verify.check_payload inzo.Relay.Credential.Proof.verify_proof
    inzo.Relay.Credential.Proof.proof_input inzo.Relay.Credential.Proof.admit
    inzo.Relay.Auth.check_request
accepted-once_example =
    accepted-once demo http_texts "https://relay" keys false store store creating (fresh_guard 300)
      remembering remembering (at_second 2000) (at_second 4000) (pop_context store root)
      (pop_context store root) "h.p.skh.p"
      (record { allow_query = false; store = store; request = creating; at = at_second 3000 } ∷ [])
      refl refl refl (omega arith) (omega arith, tt) (omega arith)
