-- ===== src/Relay/CredentialStore.antt =====
-- packages/relay/src/lib/credentialStore.ts: credentials, consent records and the audit log. A table
-- is the list of its rows in the order of insertion; random ids and times are arguments. The issuer
-- keys are in the child `Keys`.
pub mod Keys
pub mod Revoking
use inzo.Prelude.{
  ◌/◌, ℕ, ◌*◌, String, Bool, true, false, not, ◌&&◌, List, [], ◌∷◌, ◌++◌, map, Option, none, some,
  Result, ok, err, ◌>>=◌, filter, find?, includes, dedup, ◌==◌, if◌then◌else◌, is_empty, is_none,
  add_to_set,
}
use inzo.Prelude.Int.{ℤ}
use inzo.Prelude.Json.{Json}
use inzo.Relay.Errors.{Error, not_found}
use inzo.Relay.Credential.Interface.{Jwk, CredentialPayload, IssuerKey, Crypto, ticks}
use inzo.Relay.Credential.Issue.{IssueInput, Issued, issue_credential, attenuate}
use inzo.Relay.Credential.Verify.{verify_credential, VerifyOptions}
use inzo.Relay.Consent.{ConsentRecord, ConsentSubject, ApproveInput, Assurance}
use inzo.Relay.Consent
use inzo.Relay.Audit.{AuditRecord, AuditActor, AppendInput, Hashing}
use inzo.Relay.Audit

pub record CredentialRow : Type 0 where
  pub jti : String
  pub agent_id : String
  pub principal_id : String
  pub pairing_id : Option String
  pub cap_held : List String
  pub cnf : Jwk
  pub chain : List String
  pub depth : ℕ
  pub issued_at : ℕ
  pub expires_at : ℕ
  pub revoked_at : Option ℕ

pub record CredentialStore : Type 0 where
  pub principals : List String
  pub credentials : List CredentialRow
  pub revoked_jtis : List String
  pub consents : List ConsentRecord
  pub audit : List AuditRecord

unfoldable pub create_principal : CredentialStore → String → CredentialStore
create_principal t id = record t { principals = t.principals ++ id ∷ [] }

abbrev pub credential_row : CredentialPayload → CredentialRow
credential_row payload = record {
  jti = payload.jti;
  agent_id = payload.sub;
  principal_id = payload.prn;
  pairing_id = payload.pairing;
  cap_held = payload.cap;
  cnf = payload.cnf;
  chain = payload.chain;
  depth = payload.depth;
  issued_at = payload.iat * 1000;
  expires_at = payload.exp * 1000 / ticks;
  revoked_at = none;
}

abbrev pub persist : CredentialStore → CredentialPayload → CredentialStore
persist t payload = record t { credentials = t.credentials ++ credential_row payload ∷ [] }

-- `UPDATE credentials SET pairing_id = ? WHERE agent_id = ? AND pairing_id IS NULL`
abbrev pub bind_row : String → String → CredentialRow → CredentialRow
bind_row agent_id pairing_id row =
    if row.agent_id == agent_id && is_none row.pairing_id
    then record row { pairing_id = some pairing_id }
    else row

unfoldable pub bind_pairing : CredentialStore → String → String → CredentialStore
bind_pairing t agent_id pairing_id = record t {
  credentials = map (bind_row agent_id pairing_id) t.credentials;
}

-- `agent_id = ? AND revoked_at IS NULL`
abbrev pub live_of : String → CredentialRow → Bool
live_of agent_id row = row.agent_id == agent_id && is_none row.revoked_at

abbrev pub revoke_row : String → ℕ → CredentialRow → CredentialRow
revoke_row agent_id at row =
    if live_of agent_id row then record row { revoked_at = some at } else row

abbrev pub add_all : List String → List String → List String
add_all revoked [] = revoked
add_all revoked (jti ∷ jtis) = add_all (add_to_set revoked jti) jtis

unfoldable pub revoke_agent_credentials :
    CredentialStore → String → (at : ℕ) → CredentialStore × List String
revoke_agent_credentials t agent_id at =
    let jtis = map (λ (row : CredentialRow). row.jti) (filter (live_of agent_id) t.credentials) in
    (
      record t {
        credentials = map (revoke_row agent_id at) t.credentials;
        revoked_jtis = add_all t.revoked_jtis jtis;
      },
      jtis,
    )

unfoldable pub agent_principal : CredentialStore → String → Option String
agent_principal t agent_id = elim (find? (λ row. row.agent_id == agent_id) t.credentials) [
  | none ↦ none
  | some row ↦ some row.principal_id
]

unfoldable pub holder_keys_for : CredentialStore → String → List (String × Jwk)
holder_keys_for t pairing_id =
    map (λ (row : CredentialRow). (row.jti, row.cnf))
      (filter (λ row. elim row.pairing_id [ none ↦ false | some p ↦ p == pairing_id ])
        t.credentials)

unfoldable pub get_consent : CredentialStore → String → Option ConsentRecord
get_consent t pairing_id = find? (λ r. r.pairing_id == pairing_id) t.consents

-- The upsert keeps the `created_at` of the row that is there.
abbrev pub write_rows : ConsentRecord → List ConsentRecord → List ConsentRecord
write_rows r [] = r ∷ []
write_rows r (row ∷ rows) =
    if row.pairing_id == r.pairing_id
    then record r { created_at = row.created_at } ∷ rows
    else row ∷ write_rows r rows

abbrev pub write_consent : CredentialStore → ConsentRecord → CredentialStore
write_consent t r = record t { consents = write_rows r t.consents }

unfoldable pub open_consent :
    CredentialStore → String → ConsentSubject → List String → ℕ → CredentialStore
open_consent t pairing_id subject required now =
    write_consent t (Consent.open_consent pairing_id subject required now)

unfoldable pub withdraw :
    CredentialStore → String → String → ℕ → Result Error (CredentialStore × ConsentRecord)
withdraw t pairing_id principal now = elim (get_consent t pairing_id) [
  | none ↦ err not_found
  | some r ↦ let next = Consent.withdraw r principal now in ok (write_consent t next, next)
]

-- A record that loses no approval is not written back.
unfoldable pub withdraw_by_credentials :
    CredentialStore → String → List String → ℕ → CredentialStore
withdraw_by_credentials t pairing_id dead now = elim (get_consent t pairing_id) [
  | none ↦ t
  | some r ↦ write_consent t (Consent.withdraw_by_credentials r dead now)
]

unfoldable pub record_audit : Hashing → CredentialStore → AppendInput → (now : ℕ) → CredentialStore
record_audit h t input now = record t { audit = (Audit.append h t.audit input now).0 }

module _ (c : Crypto) where
  open c use {PrivateKey, PublicKey}

  unfoldable pub issue_root :
      IssuerKey PrivateKey
      → CredentialStore
      → IssueInput
      → String
      → Result Error (CredentialStore × Issued)
  issue_root key t input jti = do
    issued ← issue_credential c key input jti
    ok (persist t issued.payload, issued)

  unfoldable pub attenuate_from :
      IssuerKey PrivateKey
      → CredentialStore
      → CredentialPayload
      → (wanted : Json) (cnf : Jwk) (ttl_seconds : Option ℤ) (now : ℕ) (jti : String)
      → Result Error (CredentialStore × Issued)
  attenuate_from key t parent wanted cnf ttl_seconds now jti = do
    issued ← attenuate c key parent wanted cnf ttl_seconds now jti
    ok (persist t issued.payload, issued)

  unfoldable pub verify :
      CredentialStore
      → (issuer_url : String) → List String
      → List (String × PublicKey)
      → (now : ℕ) → Result Error CredentialPayload
  verify t issuer_url credential keys now =
      verify_credential c credential keys
        (record { now = now; revoked = t.revoked_jtis; expected_issuer = some issuer_url })

  unfoldable pub approve :
      CredentialStore → ApproveInput → ℕ → Result Error (CredentialStore × ConsentRecord)
  approve t input now = do
    next ← Consent.approve c (get_consent t input.pairing_id) input now
    ok (write_consent t next, next)
