-- ===== src/Cloud/Registry/Codes.antt =====
-- The codes of packages/relay-cf/src/registry.ts: `createPairingCode` and `createInviteCode`.
use inzo.Prelude.{
  ℕ, ◌+◌, String, List, [], ◌∷◌, ◌++◌, Option, none, some, Result, ok, err, attempt, any, ◌==◌,
  if◌then◌else◌,
}
use inzo.Relay.Errors.{Error, plain_error}
use inzo.Relay.Scopes.{all_scopes}
use inzo.Relay.Credential.Interface.{Jwk, Crypto}
use inzo.Relay.Credential.Issue.{IssueInput, Issued}
use inzo.Relay.Store.State.{CodeRow, TokenRow}
use inzo.Relay.Store.Codes.{Fresh, token_row, pairing_code_ttl_ms}
use inzo.Cloud.Registry.{Registry, issue_root}

abbrev pub code_row : String → String → Option String → (now : ℕ) → CodeRow
code_row code creator pairing_id now = record {
  code = code;
  creator_agent_id = creator;
  pairing_id = pairing_id;
  created_at = now;
  expires_at = now + pairing_code_ttl_ms;
  used_at = none;
}

abbrev pub root_input : String → Jwk → Fresh → (pairing_id : Option String) (now : ℕ) → IssueInput
root_input issuer_url cnf fresh pairing_id now = record {
  issuer = issuer_url;
  agent_id = fresh.agent_id;
  principal_id = fresh.principal_id;
  pairing_id = pairing_id;
  cap = all_scopes;
  cnf = cnf;
  chain = [];
  depth = 0;
  ttl_seconds = none;
  now = now;
}

module _ {c : Crypto} where
  -- Up to five generated codes, until one is new; `attempts` are the codes that the generator gives.
  unfoldable pub insert_code :
      List String
      → Registry c
      → (creator : String) (pairing_id : Option String) (now : ℕ) → Option (Registry c × CodeRow)
  insert_code [] r creator pairing_id now = none
  insert_code (code ∷ attempts) r creator pairing_id now =
      let retry = insert_code attempts r creator pairing_id now in
      let row = code_row code creator pairing_id now in
      if any (λ (old : CodeRow). old.code == code) r.codes
      then retry
      else some (record r { codes = r.codes ++ row ∷ [] }, row)

  abbrev pub add_token : Registry c → TokenRow → Registry c
  add_token r row = record r { tokens = r.tokens ++ row ∷ [] }

  abbrev pub create_principal : Registry c → String → Registry c
  create_principal r id = record r { principals = r.principals ++ id ∷ [] }

  -- The principal and the credential of a caller that sent a `cnf`.
  unfoldable pub issue_for :
      Registry c
      → Option Jwk
      → Fresh
      → (pairing_id : Option String) (now : ℕ) → Registry c × Result Error (Option Issued)
  issue_for r none fresh pairing_id now = (r, ok none)
  issue_for r (some cnf) fresh pairing_id now =
      let r' = create_principal r fresh.principal_id in
      attempt r' (issue_root r' (root_input r.issuer_url cnf fresh pairing_id now) fresh.jti)
        λ issued. (issued.0, ok (some issued.1))

  unfoldable pub create_pairing_code :
      Registry c
      → Option Jwk
      → (attempts : List String) → Fresh
      → (now : ℕ) → Registry c × Result Error (CodeRow × Option Issued)
  create_pairing_code r cnf attempts fresh now =
      elim (insert_code attempts r fresh.agent_id none now) [
        | none ↦ (r, err plain_error)
        | some (r₁, row) ↦
            let r₂ = add_token r₁ (token_row fresh.token_hash fresh.agent_id none now) in
            let (r₃, issued) = issue_for r₂ cnf fresh none now in
            attempt r₃ issued (λ made. (r₃, ok (row, made)))
      ]

  unfoldable pub create_invite_code :
      Registry c
      → (pairing_id inviter : String) (attempts : List String) (now : ℕ)
      → Registry c × Result Error CodeRow
  create_invite_code r pairing_id inviter attempts now =
      elim (insert_code attempts r inviter (some pairing_id) now) [
        | none ↦ (r, err plain_error)
        | some (r', row) ↦ (r', ok row)
      ]
