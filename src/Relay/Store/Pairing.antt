-- ===== src/Relay/Store/Pairing.antt =====
-- `joinPairing` of packages/relay/src/lib/store.ts, with `joinExistingPairing`.
use inzo.Prelude.{
  is_none, ℕ, ◌+◌, String, List, [], ◌∷◌, ◌++◌, map, Option, none, some, Result, ok, err, guard,
  attempt, ◌>>=◌, ◌>>◌, or_throw, length, leb, ◌==◌, if◌then◌else◌,
}
use inzo.Prelude.Int.{pos}
use inzo.Prelude.Json.{Json, int, field, end, text_field}
use inzo.Relay.Errors.{Error, conflict, not_found, gone}
use inzo.Relay.Credential.Interface.{Jwk, IssuerKey, Crypto}
use inzo.Relay.Credential.Issue.{Issued}
use inzo.Relay.Consent.{Assurance, pop, bearer}
use inzo.Relay.Audit.{Hashing}
use inzo.Relay.CredentialStore.{bind_pairing, record_audit}
use inzo.Relay.Store.State.{Store, Pairing, CodeRow, TokenRow, max_members, get_pairing}
use inzo.Relay.Store.Codes.{Fresh, get_code, token_row, add_token, issue_for}

-- The code that a join may use.
unfoldable pub usable_code : Store → String → (now : ℕ) → Result Error CodeRow
usable_code s code now = do
  row ← or_throw (get_code s code) not_found
  guard (is_none row.used_at) conflict
  guard (leb now row.expires_at) gone
  ok row

abbrev pub use_row : String → ℕ → CodeRow → CodeRow
use_row code now row = if row.code == code then record row { used_at = some now } else row

abbrev pub mark_used : Store → String → ℕ → Store
mark_used s code now = record s { codes = map (use_row code now) s.codes }

-- `UPDATE agent_tokens SET pairing_id = ? WHERE agent_id = ?`
abbrev pub bind_token : String → String → TokenRow → TokenRow
bind_token agent_id pairing_id row =
    if row.agent_id == agent_id then record row { pairing_id = some pairing_id } else row

abbrev pub add_member : Store → String → String → ℕ → Store
add_member s pairing_id agent_id now = record s {
  members =
      s.members ++ record { pairing_id = pairing_id; agent_id = agent_id; joined_at = now } ∷ [];
}

pub record Joined : Type 0 where
  pub pairing : Pairing
  pub agent_id : String
  pub peer_agent_id : String
  pub issued : Option Issued

abbrev pub assurance_of : Option Jwk → Assurance
assurance_of none = bearer
assurance_of (some cnf) = pop

abbrev pub principal_of : Option Issued → Option String
principal_of none = none
principal_of (some issued) = some issued.payload.prn

-- The transaction of a first join.
unfoldable pub found_pairing : Store → CodeRow → Fresh → (now : ℕ) → Store
found_pairing s row fresh now =
    let used = mark_used s row.code now in
    let paired : Store = record used {
      pairings =
          s.pairings
          ++ record {
            id = fresh.pairing_id;
            code = row.code;
            agent_a = row.creator_agent_id;
            agent_b = fresh.agent_id;
            created_at = now;
          }
            ∷ [];
      tokens = map (bind_token row.creator_agent_id fresh.pairing_id) s.tokens;
    } in
    let tokened =
      add_token paired (token_row fresh.token_hash fresh.agent_id (some fresh.pairing_id) now) in
    add_member (add_member tokened fresh.pairing_id row.creator_agent_id now) fresh.pairing_id
      fresh.agent_id now

-- The transaction of a further join.
unfoldable pub extend_pairing : Store → String → CodeRow → Fresh → (now : ℕ) → Store
extend_pairing s pairing_id row fresh now =
    add_member
      (add_token (mark_used s row.code now)
        (token_row fresh.token_hash fresh.agent_id (some pairing_id) now))
      pairing_id fresh.agent_id now

abbrev pub bind_creator : Store → String → String → Store
bind_creator s agent_id pairing_id = record s { trust = bind_pairing s.trust agent_id pairing_id }

module _ (c : Crypto) (h : Hashing) (key : IssuerKey c.PrivateKey) (issuer_url : String) where
  abbrev audit_join :
      Store → String → String → Option Jwk → Fresh → Option Issued → Json → ℕ → Store
  audit_join s pairing_id action cnf fresh issued detail now = record s {
    trust =
        record_audit h s.trust
          (record {
            pairing_id = pairing_id;
            action = action;
            actor = record {
              principal = principal_of issued;
              agent = some fresh.agent_id;
              credential = none;
            };
            assurance = assurance_of cnf;
            detail = detail;
          })
          now;
  }

  unfoldable pub join_new :
      Store → CodeRow → Option Jwk → Fresh → (now : ℕ) → Store × Result Error Joined
  join_new s row cnf fresh now =
      let bound =
        bind_creator (found_pairing s row fresh now) row.creator_agent_id fresh.pairing_id in
      let (s₁, issued) = issue_for c key issuer_url bound cnf fresh (some fresh.pairing_id) now in
      attempt s₁ issued λ made.
        let s₂ =
          audit_join s₁ fresh.pairing_id "pairing.created" cnf fresh made
            (text_field "code" row.code end) now in
        let s₃ =
          audit_join s₂ fresh.pairing_id "pairing.joined" cnf fresh made
            (text_field "peerAgentId" row.creator_agent_id end) now in
        (
          s₃,
          ok (record {
            pairing = record {
              id = fresh.pairing_id;
              code = row.code;
              agent_a = row.creator_agent_id;
              agent_b = fresh.agent_id;
              members = row.creator_agent_id ∷ fresh.agent_id ∷ [];
              created_at = now;
            };
            agent_id = fresh.agent_id;
            peer_agent_id = row.creator_agent_id;
            issued = made;
          }),
        )

  -- `members[0]`; a pairing without a member has none, and the text is never read then.
  abbrev first_member : List String → String
  first_member [] = ""
  first_member (a ∷ rest) = a

  unfoldable pub join_existing :
      Store → String → CodeRow → Option Jwk → Fresh → (now : ℕ) → Store × Result Error Joined
  join_existing s pairing_id row cnf fresh now = attempt s (get_pairing s pairing_id) λ existing.
      if leb max_members (length existing.members)
      then (s, err conflict)
      else let extended = extend_pairing s pairing_id row fresh now in
        let (s₁, issued) = issue_for c key issuer_url extended cnf fresh (some pairing_id) now in
        attempt s₁ issued λ made.
          let s₂ =
            audit_join s₁ pairing_id "pairing.joined" cnf fresh made
              (text_field "code" row.code
                (field "memberCount" (int (pos (length existing.members + 1))) end))
              now in
          attempt s₂ (get_pairing s₂ pairing_id) λ pairing. (
            s₂,
            ok (record {
              pairing = pairing;
              agent_id = fresh.agent_id;
              peer_agent_id = first_member pairing.members;
              issued = made;
            }),
          )

  unfoldable pub join_pairing :
      Store → String → Option Jwk → Fresh → (now : ℕ) → Store × Result Error Joined
  join_pairing s code cnf fresh now = attempt s (usable_code s code now) λ row.
      elim row.pairing_id [
        | none ↦ join_new s row cnf fresh now
        | some pairing_id ↦ join_existing s pairing_id row cnf fresh now
      ]
