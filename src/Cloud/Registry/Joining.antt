-- ===== src/Cloud/Registry/Joining.antt =====
-- `joinPairing` of packages/relay-cf/src/registry.ts. Nothing waits in it, so nothing runs between
-- its reads and its writes.
pub mod Used
pub mod Writes
use inzo.Prelude.{
  ℕ, String, Bool, true, false, List, [], ◌∷◌, ◌++◌, map, Option, none, some, Result, ok, err,
  guard, attempt, ◌>>=◌, ◌>>◌, or_throw, find?, is_none, leb, ◌==◌, if◌then◌else◌,
}
use inzo.Relay.Errors.{Error, not_found, conflict, gone, rate_limited}
use inzo.Relay.RateLimit.{FailureLimiter, is_limited, record_failure, clear}
use inzo.Relay.Credential.Interface.{Jwk, Crypto}
use inzo.Relay.Credential.Issue.{Issued}
use inzo.Relay.Store.State.{CodeRow}
use inzo.Relay.Store.Codes.{Fresh, token_row}
use inzo.Relay.Store.Pairing.{use_row}
use inzo.Cloud.Registry.{Registry, bind_pairing}
use inzo.Cloud.Registry.Codes.{add_token, issue_for}

-- `JoinedPairing`, less what the caller sent itself.
pub record JoinedPairing : Type 0 where
  pub pairing_id : String
  pub agent_a : String
  pub agent_b : String
  pub issued : Option Issued
  pub is_new_pairing : Bool

module _ {c : Crypto} where
  abbrev pub code_of : Registry c → String → Option CodeRow
  code_of r code = find? (λ row. row.code == code) r.codes

  unfoldable pub usable_code : Registry c → String → (now : ℕ) → Result Error CodeRow
  usable_code r code now = do
    row ← or_throw (code_of r code) not_found
    guard (is_none row.used_at) conflict
    guard (leb now row.expires_at) gone
    ok row

  abbrev pub mark_used : Registry c → String → (now : ℕ) → Registry c
  mark_used r code now = record r { codes = map (use_row code now) r.codes }

  -- The writes of a join to an existing pairing (`true` for a new one, whose creator is bound too).
  unfoldable pub join_writes : Registry c → CodeRow → String → Bool → Fresh → (now : ℕ) → Registry c
  join_writes r row pairing_id is_new fresh now =
      let tokened =
        add_token (mark_used r row.code now)
          (token_row fresh.token_hash fresh.agent_id (some pairing_id) now) in
      if is_new then bind_pairing tokened row.creator_agent_id pairing_id else tokened

  unfoldable pub join_as :
      Registry c
      → CodeRow
      → String
      → Bool
      → Option Jwk
      → Fresh
      → (now : ℕ) → Registry c × Result Error JoinedPairing
  join_as r row pairing_id is_new cnf fresh now =
      let (r', issued) =
        issue_for (join_writes r row pairing_id is_new fresh now) cnf fresh (some pairing_id) now in
      attempt r' issued λ made. (
        r',
        ok (record {
          pairing_id = pairing_id;
          agent_a = row.creator_agent_id;
          agent_b = fresh.agent_id;
          issued = made;
          is_new_pairing = is_new;
        }),
      )

  abbrev pub join_row :
      Registry c
      → CodeRow
      → Option String
      → Option Jwk
      → Fresh
      → (now : ℕ) → Registry c × Result Error JoinedPairing
  join_row r row (some pairing_id) cnf fresh now = join_as r row pairing_id false cnf fresh now
  join_row r row none cnf fresh now = join_as r row fresh.pairing_id true cnf fresh now

  -- A failure is counted, and a success clears the count.
  abbrev pub join_usable :
      Registry c
      → Result Error CodeRow
      → (client_key : String) → Option Jwk
      → Fresh
      → (now : ℕ) → Registry c × Result Error JoinedPairing
  join_usable r (err e) client_key cnf fresh now =
      (record r { limiter = record_failure r.limiter client_key now }, err e)
  join_usable r (ok row) client_key cnf fresh now =
      join_row (record r { limiter = clear r.limiter client_key }) row row.pairing_id cnf fresh now

  unfoldable pub join_pairing :
      Registry c
      → (code : String) → Option Jwk
      → (client_key : String) → Fresh
      → (now : ℕ) → Registry c × Result Error JoinedPairing
  join_pairing r code cnf client_key fresh now =
      let (limiter, limited) = is_limited r.limiter client_key now in
      let r' : Registry c = record r { limiter = limiter } in
      if limited
      then (r', err rate_limited)
      else join_usable r' (usable_code r' code now) client_key cnf fresh now
