-- ===== src/Cloud/Room/Sound/Progress.antt =====
-- `updateItemStatus` of packages/relay-cf/src/pairingRoom.ts keeps the object sound.
use inzo.Prelude.{
  attempt_keeps, ℕ, ◌≡◌, sym, subst, String, true, List, [], ◌∷◌, arith, all, ==_refl,
}
use inzo.Prelude.Int.{pos}
use inzo.Prelude.Json.{int, str, obj, field, end}
use inzo.Relay.Consent.{Assurance}
use inzo.Relay.Audit.{AuditActor, Hashing}
use inzo.Relay.Store.State.{Pairing, PlanItem}
use inzo.Cloud.Room.{Room, Plan, StatusRow, ItemStatus}
use inzo.Cloud.Room.Log.{append_entry}
use inzo.Cloud.Room.Progress.{upsert_status, update_checks, update_writes, update_item_status}
use inzo.Cloud.Room.Progress.Checks.{update_checks-IsAccepted}
use inzo.Cloud.Room.Sound.{of_plan, IsPlanned, IsSound, append_entry-IsSound, with_plans}
use inzo.Cloud.Room.Sound.Plans.{get_plan_row-only, member_pairing-id}

upsert_status-of_plan :
    (plan : Plan) (new : StatusRow) (rows : List StatusRow)
    → of_plan plan new ≡ true
    → all (of_plan plan) rows ≡ true
    → all (of_plan plan) (upsert_status new rows) ≡ true
upsert_status-of_plan plan new [] n a = ground arith
upsert_status-of_plan plan new (row ∷ rows) n a =
    ground (arith, upsert_status-of_plan plan new rows n)

upsert_status-IsPlanned :
    (id : String) (plan : Plan) (new : StatusRow) (plans : List Plan) (rows : List StatusRow)
    → plans ≡ plan ∷ []
    → of_plan plan new ≡ true
    → IsPlanned id plans rows
    → IsPlanned id plans (upsert_status new rows)
upsert_status-IsPlanned id plan new plans rows e n v =
    let (own, in_order, of_it) = subst (λ ps. IsPlanned id ps rows) e v in
    subst (λ ps. IsPlanned id ps (upsert_status new rows)) (sym e)
      (own, in_order, upsert_status-of_plan plan new rows n of_it)

module _ (h : Hashing) (id : String) where
  update_writes-IsSound :
      (r : Room) (pairing : Pairing) (plan : Plan) (item : PlanItem) (s : ItemStatus)
      (agent_id : String) (item_index : ℕ) (status : String) (actor : AuditActor)
      (assurance : Assurance) (now : ℕ)
      → pairing.id ≡ id
      → r.plans ≡ plan ∷ []
      → IsSound h id r
      → IsSound h id
          (update_writes h r pairing plan item s agent_id item_index status actor assurance now)
  unfolding update_writes
  update_writes-IsSound r pairing plan item s agent_id item_index status actor assurance now own
        only v =
      let new : StatusRow = record {
        pairing_id = plan.pairing_id;
        plan_version = plan.version;
        item_index = item_index;
        status = s;
        updated_by = agent_id;
        updated_at = now;
      } in
      let of_it : of_plan plan new ≡ true = rw (==_refl plan.pairing_id) (ground arith) in
      let detail = obj (
        field "version" (int (pos plan.version)) (
          field "itemIndex" (int (pos item_index))
            (field "task" (str item.task) (field "status" (str status) end)))) in
      subst
        (λ i. IsSound h id (
          append_entry h (record r { statuses = upsert_status new r.statuses }) i
            (record {
              action = "plan.item_status_changed";
              actor = actor;
              assurance = assurance;
              detail = detail;
            })
            now))
        (sym own)
        (append_entry-IsSound h id (record r { statuses = upsert_status new r.statuses })
          (record {
            action = "plan.item_status_changed";
            actor = actor;
            assurance = assurance;
            detail = detail;
          })
          now
          (with_plans v
            (upsert_status-IsPlanned id plan new r.plans r.statuses only of_it v.planned) v.owners))

  pub update_item_status-IsSound :
      (r : Room) (agent_id : String) (item_index : ℕ) (status : String) (actor : AuditActor)
      (assurance : Assurance) (now : ℕ)
      → IsSound h id r
      → IsSound h id (update_item_status h r agent_id item_index status actor assurance now).0
  unfolding update_item_status
  update_item_status-IsSound r agent_id item_index status actor assurance now v =
      attempt_keeps (IsSound h id) r (update_checks r agent_id item_index status) _ v
        λ (pairing, plan, item, s) checked.
          let a =
            update_checks-IsAccepted r agent_id item_index status (pairing, plan, item, s)
              checked in
          update_writes-IsSound r pairing plan item s agent_id item_index status actor assurance now
            (member_pairing-id h id r agent_id pairing v a.member)
            (get_plan_row-only id r plan v.planned a.planned) v
