-- ===== src/Relay/Store/Messages.antt =====
-- The thread of packages/relay/src/lib/store.ts: `addMessage`, `getMessages` and
-- `getRecentMessages`.
pub mod Paging
use inzo.Prelude.{
  ℕ, suc, ◌+◌, max, String, Bool, true, false, not, List, [], ◌∷◌, ◌++◌, Option, none, some, Result,
  ok, err, guard, attempt, ◌>>=◌, ◌>>◌, filter, take, length, eqb, ltb, ◌==◌, if◌then◌else◌,
}
use mathlib.Core.List.{reverse}
use inzo.Relay.Errors.{Error, bad_request}
use inzo.Relay.Store.State.{Store, Pairing, Message, get_pairing, member_pairing, publish}

-- The rowid that SQLite gives to a new row: one more than the largest in use.
abbrev pub max_cursor : List Message → ℕ
max_cursor [] = 0
max_cursor (m ∷ ms) = max m.cursor (max_cursor ms)

-- `trim` is `String.prototype.trim`.
abbrev pub is_blank : (String → String) → String → Bool
is_blank trim text = trim text == ""

unfoldable pub add_message :
    (String → String)
    → Store
    → (pairing_id from_agent_id body id : String) → (now : ℕ) → Store × Result Error Message
add_message trim s pairing_id from_agent_id body id now =
    attempt s (guard (not (is_blank trim body)) bad_request) λ _.
      attempt s (member_pairing s pairing_id from_agent_id) λ pairing.
        let message : Message = record {
          cursor = max_cursor s.messages + 1;
          id = id;
          pairing_id = pairing_id;
          from_agent_id = from_agent_id;
          body = body;
          created_at = now;
        } in
        (
          publish (record s { messages = s.messages ++ message ∷ [] }) "message.created" pairing_id,
          ok message,
        )

-- Rows stand in the order of their rowid.
abbrev pub thread : Store → String → List Message
thread s pairing_id = filter (λ m. m.pairing_id == pairing_id) s.messages

-- `since` is `none` where it is left out; 0 is left out too.
unfoldable pub get_messages : Store → String → Option ℕ → Result Error (List Message)
get_messages s pairing_id since = do
  pairing ← get_pairing s pairing_id
  ok (elim since [
    | none ↦ thread s pairing_id
    | some n ↦
        if eqb n 0 then thread s pairing_id else filter (λ m. ltb n m.cursor) (thread s pairing_id)
  ])

-- `ORDER BY rowid DESC LIMIT ?`, turned round.
unfoldable pub get_recent_messages : Store → String → (limit : ℕ) → List Message
get_recent_messages s pairing_id limit = reverse (take limit (reverse (thread s pairing_id)))
