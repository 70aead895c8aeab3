-- ===== src/Cloud/Room/Progress.antt =====
-- `updateItemStatus` of packages/relay-cf/src/pairingRoom.ts: the work on the items of a plan that
-- everybody has approved.
pub mod Checks
pub mod Finishing
use inzo.Prelude.{
  ℕ, String, Bool, true, false, not, ◌&&◌, ◌||◌, List, [], ◌∷◌, Option, none, some, Result, ok, err,
  guard, attempt, ◌>>=◌, ◌>>◌, or_throw, filter, is_empty, get_elem?, eqb, ◌==◌, if◌then◌else◌,
}
use inzo.Prelude.Int.{pos}
use inzo.Prelude.Json.{Json, int, str, arr, obj, field, end, items}
use inzo.Relay.Errors.{Error, bad_request, not_found, forbidden}
use inzo.Relay.Consent.{Assurance}
use inzo.Relay.Audit.{AuditActor, Hashing}
use inzo.Relay.Store.State.{Pairing, PlanItem}
use inzo.Cloud.Room.{
  Room, Plan, StatusRow, ItemStatus, pending, in_progress, done, member_pairing, broadcast,
}
use inzo.Cloud.Room.Log.{Entry, append_entry}
use inzo.Cloud.Room.Plans.{get_plan_row, status_of, status_at}

abbrev pub status_named : String → Option ItemStatus
status_named name =
    if name == "pending"
    then some pending
    else (if name == "in_progress"
        then some in_progress
        else (if name == "done" then some done else none))

abbrev pub is_pending : ItemStatus → Bool
is_pending pending = true
is_pending in_progress = false
is_pending done = false

abbrev pub is_done : ItemStatus → Bool
is_done pending = false
is_done in_progress = false
is_done done = true

-- The entries of a `dependsOn`; `proposePlan` lets only lists through.
abbrev pub listed : Option Json → List Json
listed (some (arr deps)) = items deps
listed _ = []

-- The items that an item depends on and that are not done.
abbrev pub unfinished : List StatusRow → Plan → Option Json → List Json
unfinished rows plan depends_on =
    filter (λ dep. not (is_done (status_at rows plan dep))) (listed depends_on)

unfoldable pub update_checks :
    Room
    → (agent_id : String) → (item_index : ℕ) → (status : String)
    → Result Error (Pairing × Plan × PlanItem × ItemStatus)
update_checks r agent_id item_index status = do
  pairing ← member_pairing r agent_id
  s ← or_throw (status_named status) bad_request
  plan ← or_throw (get_plan_row r) not_found
  guard plan.locked bad_request
  item ← or_throw (get_elem? plan.items item_index) bad_request
  guard (item.owner == agent_id) forbidden
  guard (is_pending s || is_empty (unfinished r.statuses plan item.depends_on)) bad_request
  ok (pairing, plan, item, s)

-- The upsert on the pairing, the version and the index.
abbrev pub upsert_status : StatusRow → List StatusRow → List StatusRow
upsert_status new [] = new ∷ []
upsert_status new (row ∷ rows) =
    if row.pairing_id == new.pairing_id
      && eqb row.plan_version new.plan_version
      && eqb row.item_index new.item_index
    then new ∷ rows
    else row ∷ upsert_status new rows

unfoldable pub update_writes :
    Hashing
    → Room
    → Pairing
    → Plan
    → PlanItem
    → ItemStatus
    → (agent_id : String) → (item_index : ℕ) → (status : String) → AuditActor
    → Assurance
    → (now : ℕ) → Room
update_writes h r pairing plan item s agent_id item_index status actor assurance now =
    let r₁ : Room = record r {
      statuses =
          upsert_status
            (record {
              pairing_id = plan.pairing_id;
              plan_version = plan.version;
              item_index = item_index;
              status = s;
              updated_by = agent_id;
              updated_at = now;
            })
            r.statuses;
    } in
    broadcast
      (append_entry h r₁ pairing.id
        (record {
          action = "plan.item_status_changed";
          actor = actor;
          assurance = assurance;
          detail = obj (
              field "version" (int (pos plan.version)) (
                field "itemIndex" (int (pos item_index))
                  (field "task" (str item.task) (field "status" (str status) end))));
        })
        now)
      "plan.item_status_changed"

-- The answer is the plan; the statuses that go with it are those that `get_plan` reads.
unfoldable pub update_item_status :
    Hashing
    → Room
    → (agent_id : String) → (item_index : ℕ) → (status : String) → AuditActor
    → Assurance
    → (now : ℕ) → Room × Result Error Plan
update_item_status h r agent_id item_index status actor assurance now =
    attempt r (update_checks r agent_id item_index status) λ checked.
      let (pairing, plan, item, s) = checked in
      (
        update_writes h r pairing plan item s agent_id item_index status actor assurance now,
        ok plan,
      )
