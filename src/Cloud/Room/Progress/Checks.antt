-- ===== src/Cloud/Room/Progress/Checks.antt =====
-- What `updateItemStatus` of packages/relay-cf/src/pairingRoom.ts has checked before it writes.
use inzo.Prelude.{
  ℕ, ◌≡◌, refl, subst, String, true, ◌||◌, some, ok, guard-eq-ok, or_throw-eq-ok, >>=-eq-ok,
  ok-injective, is_empty, get_elem?, ==→eq, ==_refl, ◌==◌,
}
use inzo.Relay.Errors.{bad_request, not_found, forbidden}
use inzo.Relay.Store.State.{Pairing, PlanItem}
use inzo.Cloud.Room.{Room, Plan, ItemStatus, member_pairing}
use inzo.Cloud.Room.Plans.{get_plan_row}
use inzo.Cloud.Room.Progress.{status_named, is_pending, unfinished, update_checks}

pub record Accepted (r : Room) (agent_id : String) (item_index : ℕ) (status : String)
    (pairing : Pairing) (plan : Plan) (item : PlanItem) (s : ItemStatus) : Type 0 where
  pub member : member_pairing r agent_id ≡ ok pairing
  pub named : status_named status ≡ some s
  pub planned : get_plan_row r ≡ some plan
  pub locked : plan.locked ≡ true
  pub there : get_elem? plan.items item_index ≡ some item
  pub owned : item.owner ≡ agent_id
  pub ready : (is_pending s || is_empty (unfinished r.statuses plan item.depends_on)) ≡ true

abbrev pub IsAccepted : Room → String → ℕ → String → Pairing × Plan × PlanItem × ItemStatus → Type 0
IsAccepted r agent_id item_index status (pairing, plan, item, s) =
    Accepted r agent_id item_index status pairing plan item s

pub update_checks-IsAccepted :
    (r : Room) (agent_id : String) (item_index : ℕ) (status : String)
    (checked : Pairing × Plan × PlanItem × ItemStatus)
    → update_checks r agent_id item_index status ≡ ok checked
    → IsAccepted r agent_id item_index status checked
unfolding update_checks
update_checks-IsAccepted r agent_id item_index status checked e =
    let (pairing, member, e₁) = >>=-eq-ok (member_pairing r agent_id) _ e in
    let (s, named, e₂) = or_throw-eq-ok (status_named status) bad_request _ e₁ in
    let (plan, planned, e₃) = or_throw-eq-ok (get_plan_row r) not_found _ e₂ in
    let (locked, e₄) = guard-eq-ok plan.locked bad_request _ e₃ in
    let (item, there, e₅) = or_throw-eq-ok (get_elem? plan.items item_index) bad_request _ e₄ in
    let (owned, e₆) = guard-eq-ok (item.owner == agent_id) forbidden _ e₅ in
    let (ready, e₇) =
      guard-eq-ok (is_pending s || is_empty (unfinished r.statuses plan item.depends_on))
        bad_request _ e₆ in
    subst (IsAccepted r agent_id item_index status) (ok-injective e₇) (record {
      member = member;
      named = named;
      planned = planned;
      locked = locked;
      there = there;
      owned = ==→eq item.owner agent_id owned;
      ready = ready;
    })

-- And what has passed the checks is accepted.
pub update_checks-of_Accepted :
    (r : Room) (agent_id : String) (item_index : ℕ) (status : String) (pairing : Pairing)
    (plan : Plan) (item : PlanItem) (s : ItemStatus)
    → Accepted r agent_id item_index status pairing plan item s
    → update_checks r agent_id item_index status ≡ ok (pairing, plan, item, s)
unfolding update_checks
update_checks-of_Accepted r agent_id item_index status pairing plan item s a =
    rw (a.member, a.named, a.planned, a.locked, a.there, a.owned, ==_refl agent_id, a.ready) refl
