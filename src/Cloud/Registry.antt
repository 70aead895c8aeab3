-- ===== src/Cloud/Registry.antt =====
-- packages/relay-cf/src/registry.ts: the object that owns authority for all pairings. The rows of its
-- tables, and what an update does to a row, are those of packages/relay/src/lib/credentialStore.ts
-- and lib/store.ts, with which its schema agrees.
pub mod Codes
pub mod Joining
pub mod Revoking
mod Tests
use inzo.Prelude.{
  ℕ, ◌+◌, String, Bool, true, false, not, ◌&&◌, List, [], ◌∷◌, ◌++◌, map, Option, none, some,
  Result, ok, err, guard, attempt, ◌>>=◌, ◌>>◌, filter, find?, is_none, ◌==◌, if◌then◌else◌,
}
use inzo.Prelude.Int.{ℤ}
use inzo.Prelude.Json.{Json}
use inzo.Relay.Errors.{Error}
use inzo.Relay.Scopes.{narrowed_scope}
use inzo.Relay.RateLimit.{FailureLimiter}
use inzo.Relay.Credential.Interface.{Jwk, CredentialPayload, IssuerKey, Crypto}
use inzo.Relay.Credential.Issue.{IssueInput, Issued, issue_credential, attenuate}
use inzo.Relay.Credential.Verify.{verify_credential}
use inzo.Relay.CredentialStore.{
  CredentialRow, credential_row, bind_row, live_of, revoke_row, add_all,
}
use inzo.Relay.CredentialStore.Keys.{KeyRing}
use inzo.Relay.CredentialStore.Keys
use inzo.Relay.Store.State.{CodeRow, TokenRow}
use inzo.Relay.Store.Revocation.{TokenIdentity, rescope_row}

-- The tables, and what the object keeps beside them: the issuer's keys, the set of revoked ids and
-- the limiter.
pub record Registry (c : Crypto) : Type 0 where
  pub issuer_url : String
  pub ring : KeyRing c
  pub principals : List String
  pub credentials : List CredentialRow
  pub tokens : List TokenRow
  pub codes : List CodeRow
  pub revoked_jtis : List String
  pub limiter : FailureLimiter

-- `UPDATE agent_tokens SET pairing_id = ? WHERE agent_id = ? AND pairing_id IS NULL`
abbrev pub bind_token : String → String → TokenRow → TokenRow
bind_token agent_id pairing_id row =
    if row.agent_id == agent_id && is_none row.pairing_id
    then record row { pairing_id = some pairing_id }
    else row

-- `UPDATE agent_tokens SET revoked_at = ? WHERE agent_id = ? AND revoked_at IS NULL`
abbrev pub revoke_token : String → ℕ → TokenRow → TokenRow
revoke_token agent_id at row =
    if row.agent_id == agent_id && is_none row.revoked_at
    then record row { revoked_at = some at }
    else row

abbrev pub first_revoked_at : Option TokenRow → Option ℕ
first_revoked_at none = none
first_revoked_at (some row) = row.revoked_at

abbrev pub scope_or_none : Option TokenRow → List String
scope_or_none none = []
scope_or_none (some row) = row.scope

abbrev pub identity_of : TokenRow → TokenIdentity
identity_of row = record {
  agent_id = row.agent_id;
  pairing_id = row.pairing_id;
  scope = row.scope;
  revoked_at = row.revoked_at;
}

pub record RevokeResult : Type 0 where
  pub revoked_agent_id : String
  pub revoked_at : ℕ
  pub revoked_credential_jtis : List String

module _ {c : Crypto} where
  unfoldable pub set_issuer_url : Registry c → String → Registry c
  set_issuer_url r url = record r { issuer_url = url }

  unfoldable pub rotate_issuer_key : Registry c → IssuerKey c.PrivateKey → (now : ℕ) → Registry c
  rotate_issuer_key r next now = record r { ring = Keys.rotate_issuer_key c r.ring next now }

  unfoldable pub prune_retired_keys : Registry c → (now : ℕ) → Registry c × ℕ
  prune_retired_keys r now =
      let (ring, removed) = Keys.prune_retired_keys c r.ring now in
      (record r { ring = ring }, removed)

  abbrev pub persist_credential : Registry c → CredentialPayload → Registry c
  persist_credential r payload = record r {
    credentials = r.credentials ++ credential_row payload ∷ [];
  }

  unfoldable pub issue_root :
      Registry c → IssueInput → (jti : String) → Result Error (Registry c × Issued)
  issue_root r input jti = do
    issued ← issue_credential c r.ring.active input jti
    ok (persist_credential r issued.payload, issued)

  unfoldable pub attenuate_from :
      Registry c
      → CredentialPayload
      → (wanted : Json) (cnf : Jwk) (ttl_seconds : Option ℤ) → (now : ℕ) (jti : String)
      → Result Error (Registry c × Issued)
  attenuate_from r parent wanted cnf ttl_seconds now jti = do
    issued ← attenuate c r.ring.active parent wanted cnf ttl_seconds now jti
    ok (persist_credential r issued.payload, issued)

  unfoldable pub verify : Registry c → List String → (now : ℕ) → Result Error CredentialPayload
  verify r credential now =
      verify_credential c credential r.ring.verification_keys
        (record { now = now; revoked = r.revoked_jtis; expected_issuer = some r.issuer_url })

  abbrev pub credential_of : Registry c → String → Option CredentialRow
  credential_of r agent_id = find? (λ row. row.agent_id == agent_id) r.credentials

  unfoldable pub agent_principal : Registry c → String → Option String
  agent_principal r agent_id = elim (credential_of r agent_id) [
    | none ↦ none
    | some row ↦ some row.principal_id
  ]

  unfoldable pub pairing_for_agent : Registry c → String → Option String
  pairing_for_agent r agent_id = elim (credential_of r agent_id) [
    | none ↦ none
    | some row ↦ row.pairing_id
  ]

  unfoldable pub holder_keys_for : Registry c → String → List (String × Jwk)
  holder_keys_for r pairing_id =
      map (λ (row : CredentialRow). (row.jti, row.cnf))
        (filter (λ row. elim row.pairing_id [ none ↦ false | some p ↦ p == pairing_id ])
          r.credentials)

  unfoldable pub bind_pairing : Registry c → String → String → Registry c
  bind_pairing r agent_id pairing_id = record r {
    credentials = map (bind_row agent_id pairing_id) r.credentials;
    tokens = map (bind_token agent_id pairing_id) r.tokens;
  }

  -- `hash_token` is `hashAgentToken`.
  unfoldable pub resolve_token : (String → String) → Registry c → String → Option TokenIdentity
  resolve_token hash_token r token =
      elim (find? (λ row. row.token_hash == hash_token token) r.tokens) [
        | none ↦ none
        | some row ↦ some (identity_of row)
      ]

  abbrev pub token_of : Registry c → String → Option TokenRow
  token_of r agent_id = find? (λ row. row.agent_id == agent_id) r.tokens

  unfoldable pub get_agent_scope : Registry c → String → List String
  get_agent_scope r agent_id = scope_or_none (token_of r agent_id)

  unfoldable pub is_agent_revoked : Registry c → String → Bool
  is_agent_revoked r agent_id = not (is_none (first_revoked_at (token_of r agent_id)))

  unfoldable pub narrow_scope : Registry c → String → Json → Registry c × Result Error (List String)
  narrow_scope r agent_id requested =
      attempt r (narrowed_scope requested (get_agent_scope r agent_id))
        λ next. (record r { tokens = map (rescope_row agent_id next) r.tokens }, ok next)

  -- What `revokeAgent` writes, and its answer, where the agent is not revoked yet.
  abbrev pub revoke_writes : Registry c → String → (at : ℕ) → Registry c × RevokeResult
  revoke_writes r agent_id at =
      let jtis = map (λ (row : CredentialRow). row.jti) (filter (live_of agent_id) r.credentials) in
      (
        record r {
          tokens = map (revoke_token agent_id at) r.tokens;
          credentials = map (revoke_row agent_id at) r.credentials;
          revoked_jtis = add_all r.revoked_jtis jtis;
        },
        record { revoked_agent_id = agent_id; revoked_at = at; revoked_credential_jtis = jtis },
      )

  abbrev pub revoke_unless : Registry c → String → (at : ℕ) → Option ℕ → Registry c × RevokeResult
  revoke_unless r agent_id at none = revoke_writes r agent_id at
  revoke_unless r agent_id at (some before) =
      (r, record { revoked_agent_id = agent_id; revoked_at = before; revoked_credential_jtis = [] })

  unfoldable pub revoke_agent : Registry c → String → (at : ℕ) → Registry c × RevokeResult
  revoke_agent r agent_id at = revoke_unless r agent_id at (first_revoked_at (token_of r agent_id))
