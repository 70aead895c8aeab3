-- ===== src/Cloud/Room.antt =====
-- packages/relay-cf/src/pairingRoom.ts: the object that owns one pairing. Its tables are the lists of
-- their rows in the order of insertion. A method wrapped in `rpcSafe` returns its error as a value.
pub mod Log
pub mod Thread
pub mod Plans
pub mod Approving
pub mod Progress
pub mod Sound
pub mod Usage
use inzo.Prelude.{
  ℕ, String, Bool, true, false, not, List, [], ◌∷◌, ◌++◌, map, Option, none, some, Result, ok, err,
  guard, attempt, ◌>>=◌, ◌>>◌, or_throw, filter, find?, includes, length, leb, ◌==◌, if◌then◌else◌,
}
use inzo.Relay.Errors.{Error, bad_request, not_found, forbidden}
use inzo.Relay.Consent.{ConsentRecord}
use inzo.Relay.Audit.{AuditRecord}
use inzo.Relay.Store.State.{PairingRow, Pairing, Message, PlanItem, max_members}

pub data ItemStatus : Type 0 where
  pending in_progress done : ItemStatus

pub record Member : Type 0 where
  pub agent_id : String
  pub joined_at : ℕ

pub record Plan : Type 0 where
  pub pairing_id : String
  pub goal : String
  pub items : List PlanItem
  pub proposed_by : String
  pub approved_by : List String
  pub locked : Bool
  pub version : ℕ
  pub created_at : ℕ
  pub updated_at : ℕ

pub record StatusRow : Type 0 where
  pub pairing_id : String
  pub plan_version : ℕ
  pub item_index : ℕ
  pub status : ItemStatus
  pub updated_by : String
  pub updated_at : ℕ

-- What the subscribers of a moment were sent.
pub record Broadcast : Type 0 where
  pub event : String
  pub receivers : List String

-- The object. Only the first row of `pairing` is ever read, and later ones are ignored or not read.
-- A subscriber is the agent that it was authenticated as.
pub record Room : Type 0 where
  pub pairing : Option PairingRow
  pub members : List Member
  pub messages : List Message
  pub plans : List Plan
  pub statuses : List StatusRow
  pub consents : List ConsentRecord
  pub audit : List AuditRecord
  pub subscribers : List String
  pub broadcasts : List Broadcast

abbrev pub new_room : Room
new_room = record {
  pairing = none;
  members = [];
  messages = [];
  plans = [];
  statuses = [];
  consents = [];
  audit = [];
  subscribers = [];
  broadcasts = [];
}

abbrev pub broadcast : Room → String → Room
broadcast r event = record r {
  broadcasts = r.broadcasts ++ record { event = event; receivers = r.subscribers } ∷ [];
}

-- `INSERT OR IGNORE`
abbrev pub insert_member : String → ℕ → List Member → List Member
insert_member agent_id joined_at [] = record { agent_id = agent_id; joined_at = joined_at } ∷ []
insert_member agent_id joined_at (m ∷ members) =
    if m.agent_id == agent_id then m ∷ members else m ∷ insert_member agent_id joined_at members

abbrev pub first_pairing : Option PairingRow → PairingRow → PairingRow
first_pairing none row = row
first_pairing (some old) row = old

unfoldable pub initialize : Room → (id code agent_a agent_b : String) → (created_at : ℕ) → Room
initialize r id code agent_a agent_b created_at = record r {
  pairing = some (
      first_pairing r.pairing (record {
        id = id;
        code = code;
        agent_a = agent_a;
        agent_b = agent_b;
        created_at = created_at;
      }));
  members = insert_member agent_b created_at (insert_member agent_a created_at r.members);
}

-- Members are inserted in the order of their `joined_at`.
abbrev pub get_members : Room → List String
get_members r = map (λ (m : Member). m.agent_id) r.members

unfoldable pub get_pairing : Room → Result Error Pairing
get_pairing r = elim r.pairing [
  | none ↦ err not_found
  | some row ↦ ok (record {
    id = row.id;
    code = row.code;
    agent_a = row.agent_a;
    agent_b = row.agent_b;
    members = get_members r;
    created_at = row.created_at;
  })
]

-- `getPairingOrThrow` and `assertMemberOrThrow`, as most methods begin.
unfoldable pub member_pairing : Room → String → Result Error Pairing
member_pairing r agent_id = do
  pairing ← get_pairing r
  guard (includes pairing.members agent_id) forbidden
  ok pairing

unfoldable pub add_member : Room → String → (joined_at : ℕ) → Room × Result Error Pairing
add_member r agent_id joined_at = attempt r (get_pairing r) λ pairing.
    if leb max_members (length pairing.members)
    then (r, err bad_request)
    else let r' = record r { members = insert_member agent_id joined_at r.members } in
      (r', get_pairing r')

unfoldable pub subscribe : Room → String → Room × Result Error Pairing
subscribe r agent_id =
    attempt r (get_pairing r)
      λ pairing. (record r { subscribers = r.subscribers ++ agent_id ∷ [] }, ok pairing)

-- `broadcastRevocation`: everybody hears of it, and the revoked agent's streams are closed.
unfoldable pub broadcast_revocation : Room → String → Room
broadcast_revocation r revoked_agent_id = record (broadcast r "pairing.revoked") {
  subscribers = filter (λ s. not (s == revoked_agent_id)) r.subscribers;
}
