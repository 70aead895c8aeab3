-- ===== src/Relay/Store/Codes.antt =====
-- `createPairingCode`, `createInviteCode` and `purgeExpiredCodes` of packages/relay/src/lib/store.ts.
use inzo.Prelude.{
  is_none, ℕ, ◌+◌, ◌*◌, String, Bool, not, ◌&&◌, List, [], ◌∷◌, ◌++◌, Option, none, some, Result,
  ok, err, attempt, filter, find?, any, length, ltb, leb, ◌==◌, if◌then◌else◌,
}
use inzo.Relay.Errors.{Error, conflict, plain_error}
use inzo.Relay.Scopes.{all_scopes}
use inzo.Relay.Credential.Interface.{Jwk, IssuerKey, Crypto}
use inzo.Relay.Credential.Issue.{Issued}
use inzo.Relay.CredentialStore.{create_principal, issue_root}
use inzo.Relay.Store.State.{Store, CodeRow, TokenRow, max_members, member_pairing}

-- Milliseconds.
abbrev pub pairing_code_ttl_ms : ℕ
pairing_code_ttl_ms = 30 * 60 * 1000

unfoldable pub get_code : Store → String → Option CodeRow
get_code s code = find? (λ row. row.code == code) s.codes

-- `INSERT INTO pairing_codes` under up to five generated codes, until one is new: `attempts` are the
-- codes that the generator gives. `none` where every one is taken.
unfoldable pub insert_code :
    List String
    → Store
    → (creator : String) (pairing_id : Option String) (now : ℕ) → Option (Store × CodeRow)
insert_code [] s creator pairing_id now = none
insert_code (code ∷ attempts) s creator pairing_id now =
    let retry = insert_code attempts s creator pairing_id now in
    let row : CodeRow = record {
      code = code;
      creator_agent_id = creator;
      pairing_id = pairing_id;
      created_at = now;
      expires_at = now + pairing_code_ttl_ms;
      used_at = none;
    } in
    if any (λ r. r.code == code) s.codes
    then retry
    else some (record s { codes = s.codes ++ row ∷ [] }, row)

abbrev pub token_row : String → String → Option String → ℕ → TokenRow
token_row token_hash agent_id pairing_id now = record {
  token_hash = token_hash;
  agent_id = agent_id;
  pairing_id = pairing_id;
  scope = all_scopes;
  revoked_at = none;
  created_at = now;
}

abbrev pub add_token : Store → TokenRow → Store
add_token s row = record s { tokens = s.tokens ++ row ∷ [] }

-- What the generators give to one call.
pub record Fresh : Type 0 where
  pub agent_id : String
  pub token_hash : String
  pub pairing_id : String
  pub principal_id : String
  pub jti : String

module _ (c : Crypto) (key : IssuerKey c.PrivateKey) (issuer_url : String) where
  -- The principal and the v3 credential of a caller that sent a `cnf`.
  unfoldable pub issue_for :
      Store
      → Option Jwk
      → Fresh
      → (pairing_id : Option String) (now : ℕ) → Store × Result Error (Option Issued)
  issue_for s none fresh pairing_id now = (s, ok none)
  issue_for s (some cnf) fresh pairing_id now =
      let t = create_principal s.trust fresh.principal_id in
      let s' = record s { trust = t } in
      attempt s'
        (issue_root c key t
          (record {
            issuer = issuer_url;
            agent_id = fresh.agent_id;
            principal_id = fresh.principal_id;
            pairing_id = pairing_id;
            cap = all_scopes;
            cnf = cnf;
            chain = [];
            depth = 0;
            ttl_seconds = none;
            now = now;
          })
          fresh.jti)
        λ made. (record s' { trust = made.0 }, ok (some made.1))

  unfoldable pub create_pairing_code :
      Store
      → Option Jwk
      → (attempts : List String) → Fresh
      → (now : ℕ) → Store × Result Error (CodeRow × Option Issued)
  create_pairing_code s cnf attempts fresh now =
      elim (insert_code attempts s fresh.agent_id none now) [
        | none ↦ (s, err plain_error)
        | some (s₁, row) ↦
            let s₂ = add_token s₁ (token_row fresh.token_hash fresh.agent_id none now) in
            let (s₃, issued) = issue_for s₂ cnf fresh none now in
            attempt s₃ issued (λ made. (s₃, ok (row, made)))
      ]

unfoldable pub create_invite_code :
    Store
    → (pairing_id inviter : String) (attempts : List String) (now : ℕ)
    → Store × Result Error CodeRow
create_invite_code s pairing_id inviter attempts now =
    attempt s (member_pairing s pairing_id inviter) λ pairing.
      if leb max_members (length pairing.members)
      then (s, err conflict)
      else elim (insert_code attempts s inviter (some pairing_id) now) [
        | none ↦ (s, err plain_error)
        | some (s', row) ↦ (s', ok row)
      ]

-- `used_at IS NULL AND expires_at < ?`
abbrev pub abandoned : ℕ → CodeRow → Bool
abandoned now row = is_none row.used_at && ltb row.expires_at now

-- The second part is the number of rows removed.
unfoldable pub purge_expired_codes : Store → (now : ℕ) → Store × ℕ
purge_expired_codes s now = (
  record s { codes = filter (λ row. not (abandoned now row)) s.codes },
  length (filter (abandoned now) s.codes),
)
