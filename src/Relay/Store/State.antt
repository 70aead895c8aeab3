-- ===== src/Relay/Store/State.antt =====
-- The tables of packages/relay/src/lib/store.ts, and the reads that its operations share.
use inzo.Prelude.{
  ℕ, String, Bool, List, [], ◌∷◌, ◌++◌, map, Option, none, some, Result, ok, err, guard, ◌>>◌,
  ◌>>=◌, filter, find?, includes, ◌==◌, if◌then◌else◌,
}
use inzo.Prelude.Json.{Json}
use inzo.Relay.Errors.{Error, not_found, bad_request, forbidden}
use inzo.Relay.CredentialStore.{CredentialStore}

pub record CodeRow : Type 0 where
  pub code : String
  pub creator_agent_id : String
  pub pairing_id : Option String
  pub created_at : ℕ
  pub expires_at : ℕ
  pub used_at : Option ℕ

pub record TokenRow : Type 0 where
  pub token_hash : String
  pub agent_id : String
  pub pairing_id : Option String
  pub scope : List String
  pub revoked_at : Option ℕ
  pub created_at : ℕ

pub record PairingRow : Type 0 where
  pub id : String
  pub code : String
  pub agent_a : String
  pub agent_b : String
  pub created_at : ℕ

pub record MemberRow : Type 0 where
  pub pairing_id : String
  pub agent_id : String
  pub joined_at : ℕ

-- `cursor` is the rowid.
pub record Message : Type 0 where
  pub cursor : ℕ
  pub id : String
  pub pairing_id : String
  pub from_agent_id : String
  pub body : String
  pub created_at : ℕ

pub record PlanItem : Type 0 where
  pub owner : String
  pub task : String
  -- as it was sent, `none` where it was left out
  pub depends_on : Option Json

pub record Plan : Type 0 where
  pub pairing_id : String
  pub goal : String
  pub items : List PlanItem
  pub proposed_by : String
  pub approved_by : List String
  pub locked : Bool
  pub version : ℕ
  pub created_at : ℕ
  pub updated_at : ℕ
  pub sandbox_id : String
  pub sandbox_state : String

-- agentrun.ts
pub record WaitHandle : Type 0 where
  pub sandbox_id : String
  pub simulated : Bool

pub record Event : Type 0 where
  pub type_name : String
  pub pairing_id : String

-- `disposed` lists the sandboxes on which `dispose` was called.
pub record Store : Type 0 where
  pub codes : List CodeRow
  pub tokens : List TokenRow
  pub pairings : List PairingRow
  pub members : List MemberRow
  pub messages : List Message
  pub plans : List Plan
  pub plan_waits : List (String × WaitHandle)
  pub disposed : List String
  pub trust : CredentialStore
  pub events : List Event

-- `Pairing`; `approvalPolicy` is always "unanimous".
pub record Pairing : Type 0 where
  pub id : String
  pub code : String
  pub agent_a : String
  pub agent_b : String
  pub members : List String
  pub created_at : ℕ

abbrev pub max_members : ℕ
max_members = 8

abbrev pub publish : Store → String → String → Store
publish s type_name pairing_id = record s {
  events = s.events ++ record { type_name = type_name; pairing_id = pairing_id } ∷ [];
}

-- Rows are inserted in the order of their `joined_at`.
unfoldable pub get_members : Store → String → List String
get_members s pairing_id =
    map (λ (row : MemberRow). row.agent_id) (filter (λ row. row.pairing_id == pairing_id) s.members)

unfoldable pub get_pairing : Store → String → Result Error Pairing
get_pairing s pairing_id = elim (find? (λ row. row.id == pairing_id) s.pairings) [
  | none ↦ err not_found
  | some row ↦ ok (record {
    id = row.id;
    code = row.code;
    agent_a = row.agent_a;
    agent_b = row.agent_b;
    members = get_members s row.id;
    created_at = row.created_at;
  })
]

abbrev pub assert_member : Pairing → String → Result Error (Unit {0})
assert_member pairing agent_id = guard (includes pairing.members agent_id) forbidden

-- `getPairing` and `assertMember`, as most operations begin.
abbrev pub member_pairing : Store → String → String → Result Error Pairing
member_pairing s pairing_id agent_id = do
  pairing ← get_pairing s pairing_id
  assert_member pairing agent_id
  ok pairing

-- The other of exactly two members.
abbrev pub other_of : List String → String → Result Error String
other_of (a ∷ b ∷ []) agent_id = ok (if agent_id == a then b else a)
other_of _ agent_id = err bad_request

unfoldable pub other_agent : Pairing → String → Result Error String
other_agent pairing agent_id = other_of pairing.members agent_id

unfoldable pub pairing_for_agent : Store → String → Option String
pairing_for_agent s agent_id = elim (find? (λ row. row.agent_id == agent_id) s.members) [
  | none ↦ none
  | some row ↦ some row.pairing_id
]
