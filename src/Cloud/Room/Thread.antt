-- ===== src/Cloud/Room/Thread.antt =====
-- The thread of packages/relay-cf/src/pairingRoom.ts: `addMessage`, `getMessages`,
-- `getRecentMessages`.
use inzo.Prelude.{
  ℕ, ◌+◌, String, not, List, [], ◌∷◌, ◌++◌, Option, none, some, Result, ok, guard, attempt, ◌>>=◌,
  filter, take, eqb, ltb, if◌then◌else◌,
}
use mathlib.Core.List.{reverse}
use inzo.Relay.Errors.{Error, bad_request}
use inzo.Relay.Store.State.{Message}
use inzo.Relay.Store.Messages.{max_cursor, is_blank}
use inzo.Cloud.Room.{Room, get_pairing, member_pairing, broadcast}

unfoldable pub add_message :
    (String → String)
    → Room
    → (from_agent_id body id : String) → (now : ℕ) → Room × Result Error Message
add_message trim r from_agent_id body id now =
    attempt r (guard (not (is_blank trim body)) bad_request) λ _.
      attempt r (member_pairing r from_agent_id) λ pairing.
        let message : Message = record {
          cursor = max_cursor r.messages + 1;
          id = id;
          pairing_id = pairing.id;
          from_agent_id = from_agent_id;
          body = body;
          created_at = now;
        } in
        (
          broadcast (record r { messages = r.messages ++ message ∷ [] }) "message.created",
          ok message,
        )

-- `since` is `none` where it is left out; 0 is left out too.
unfoldable pub get_messages : Room → Option ℕ → Result Error (List Message)
get_messages r since = do
  pairing ← get_pairing r
  ok (elim since [
    | none ↦ r.messages
    | some n ↦ if eqb n 0 then r.messages else filter (λ m. ltb n m.cursor) r.messages
  ])

-- `ORDER BY rowid DESC LIMIT ?`, turned round.
unfoldable pub get_recent_messages : Room → (limit : ℕ) → List Message
get_recent_messages r limit = reverse (take limit (reverse r.messages))
