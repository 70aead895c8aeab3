-- ===== src/Cloud/Room/Progress/Finishing.antt =====
-- The work on a locked plan of packages/relay-cf/src/pairingRoom.ts can always be finished.
use inzo.Prelude.{
  ℕ, zero, suc, ◌+◌, ◌<◌, ◌≡◌, refl, sym, ap, ◌∙◌, subst, String, Bool, true, false, not, ◌&&◌,
  ◌||◌, List, [], ◌∷◌, ◌++◌, map, Option, none, some, Result, ok, err, arith, attempt, all, filter,
  find?, is_empty, get_elem?, length, includes, eqb, ltb, ◌==◌, ==_refl, if◌then◌else◌,
  append_assoc, append-nil, guard, ◌>>=◌, ◌>>◌, Bool-cases, inl, inr, length-append,
}
use inzo.Prelude.Int.{pos, negsuc}
use inzo.Prelude.Json.{Json, null, bool, int, fraction, str, arr, obj, items}
use inzo.Relay.Credential.Interface.{Crypto}
use inzo.Relay.Consent.{Assurance}
use inzo.Relay.Audit.{AuditActor, Hashing}
use inzo.Relay.Store.State.{Pairing, PairingRow, PlanItem}
use inzo.Relay.Store.Plans.{PlanHashing}
use inzo.Cloud.Room.{Room, Plan, StatusRow, done, get_members, get_pairing, member_pairing}
use inzo.Cloud.Room.Log.{append_entry}
use inzo.Cloud.Room.Plans.{get_plan_row, status_of, status_at}
use inzo.Cloud.Room.Progress.{
  is_done, status_named, unfinished, upsert_status, update_writes, update_item_status,
}
use inzo.Cloud.Room.Progress.Checks.{Accepted, update_checks-of_Accepted}
use inzo.Cloud.Room.Sound.{is_index_before, before_only, depends_earlier, owned, IsPlanned}
use inzo.Cloud.Room.Sound.Plans.{get_plan_row-only}
use inzo.Cloud.Room.Sound.Reached.{Reached, Reached-IsSound}

get_elem?-middle :
    {A : Type 0} (xs : List A) (y : A) (ys : List A) → get_elem? (xs ++ y ∷ ys) (length xs) ≡ some y
get_elem?-middle [] y ys = refl
get_elem?-middle (x ∷ xs) y ys = get_elem?-middle xs y ys

depends_earlier-middle :
    (index : ℕ) (xs : List PlanItem) (y : PlanItem) (ys : List PlanItem)
    → depends_earlier index (xs ++ y ∷ ys) ≡ true
    → before_only (index + length xs) y.depends_on ≡ true
depends_earlier-middle index [] y ys h =
    let now_first : before_only index y.depends_on ≡ true = ground arith in
    subst (λ n. before_only n y.depends_on ≡ true) (omega arith) now_first
depends_earlier-middle index (x ∷ xs) y ys h =
    subst (λ n. before_only n y.depends_on ≡ true) (omega arith)
      (depends_earlier-middle (suc index) xs y ys (ground arith))

status_of-upsert_status :
    (new : StatusRow) (rows : List StatusRow) (i : ℕ)
    → status_of (upsert_status new rows) new.pairing_id new.plan_version i ≡ (
        if eqb new.item_index i
        then new.status
        else status_of rows new.pairing_id new.plan_version i)
status_of-upsert_status new [] i = ground (arith, ==_refl new.pairing_id)
status_of-upsert_status new (row ∷ rows) i =
    ground (arith, ==_refl new.pairing_id, status_of-upsert_status new rows i)

none_unfinished :
    (rows : List StatusRow) (plan : Plan) (k : ℕ) (deps : List Json)
    → ((i : ℕ) → i < k → status_of rows plan.pairing_id plan.version i ≡ done)
    → all (is_index_before k) deps ≡ true
    → is_empty (filter (λ dep. not (is_done (status_at rows plan dep))) deps) ≡ true
none_unfinished rows plan k [] f h = refl
none_unfinished rows plan k (int (pos n) ∷ deps) f h =
    let e = f n (ground arith) in rw e (none_unfinished rows plan k deps f (ground arith))
none_unfinished rows plan k (int (negsuc n) ∷ deps) f h = cc
none_unfinished rows plan k (null ∷ deps) f h = cc
none_unfinished rows plan k (bool b ∷ deps) f h = cc
none_unfinished rows plan k (fraction ∷ deps) f h = cc
none_unfinished rows plan k (str s ∷ deps) f h = cc
none_unfinished rows plan k (arr vs ∷ deps) f h = cc
none_unfinished rows plan k (obj fs ∷ deps) f h = cc

no_unfinished :
    (rows : List StatusRow) (plan : Plan) (k : ℕ) (depends_on : Option Json)
    → ((i : ℕ) → i < k → status_of rows plan.pairing_id plan.version i ≡ done)
    → before_only k depends_on ≡ true
    → is_empty (unfinished rows plan depends_on) ≡ true
no_unfinished rows plan k none f h = refl
no_unfinished rows plan k (some (arr deps)) f h = none_unfinished rows plan k (items deps) f h
no_unfinished rows plan k (some null) f h = refl
no_unfinished rows plan k (some (bool b)) f h = refl
no_unfinished rows plan k (some (int n)) f h = refl
no_unfinished rows plan k (some fraction) f h = refl
no_unfinished rows plan k (some (str s)) f h = refl
no_unfinished rows plan k (some (obj fs)) f h = refl

-- Accepted updates, one after the other.
pub data Works (h : Hashing) (plan : Plan) (r : Room) : Room → Type 0 where
  idle : Works h plan r r
  works :
      {r₁ r₂ : Room}
      → Works h plan r r₁
      → (agent_id : String) (item_index : ℕ) (status : String) (actor : AuditActor)
        (assurance : Assurance) (now : ℕ)
      → update_item_status h r₁ agent_id item_index status actor assurance now ≡ (r₂, ok plan)
      → Works h plan r r₂

-- A plan that everybody has approved, and of which the first items are done.
record Begun (plan : Plan) (members : List String) (k : ℕ) (r : Room) : Type 0 where
  row : PairingRow
  paired : r.pairing ≡ some row
  present : get_members r ≡ members
  planned : get_plan_row r ≡ some plan
  locked : plan.locked ≡ true
  finished : (i : ℕ) → i < k → status_of r.statuses plan.pairing_id plan.version i ≡ done

done_named : status_named "done" ≡ some done
unfolding inzo.Prelude.string_dec
done_named = refl

module _ (h : Hashing) (plan : Plan) (members : List String) (actor : AuditActor)
    (assurance : Assurance) (now : ℕ) where
  pairing_of : Room → PairingRow → Pairing
  pairing_of r row = record {
    id = row.id;
    code = row.code;
    agent_a = row.agent_a;
    agent_b = row.agent_b;
    members = get_members r;
    created_at = row.created_at;
  }

  Begun-member :
      (k : ℕ) (r : Room) (agent_id : String) (b : Begun plan members k r)
      → includes members agent_id ≡ true
      → member_pairing r agent_id ≡ ok (pairing_of r b.row)
  unfolding member_pairing get_pairing pairing_of
  Begun-member k r agent_id b m = rw (b.paired, b.present, m) refl

  Begun-update_writes :
      (k : ℕ) (r : Room) (pairing : Pairing) (item : PlanItem)
      → Begun plan members k r
      → Begun plan members
          (suc k)
          (update_writes h r pairing plan item done item.owner k "done" actor assurance now)
  unfolding update_writes append_entry
  Begun-update_writes k r pairing item b = record {
    row = b.row;
    paired = b.paired;
    present = b.present;
    planned = b.planned;
    locked = b.locked;
    finished = λ i below.
        let new : StatusRow = record {
          pairing_id = plan.pairing_id;
          plan_version = plan.version;
          item_index = k;
          status = done;
          updated_by = item.owner;
          updated_at = now;
        } in
        status_of-upsert_status new r.statuses i ∙ elim (Bool-cases (eqb k i)) [
          | inl e ↦ rw e refl
          | inr e ↦ rw e (b.finished i (ground arith))
        ];
  }

  finish_item :
      (k : ℕ) (r : Room) (item : PlanItem)
      → Begun plan members k r
      → get_elem? plan.items k ≡ some item
      → includes members item.owner ≡ true
      → before_only k item.depends_on ≡ true
      → (r' : Room) × (update_item_status h r item.owner k "done" actor assurance now
          ≡ (r', ok plan))
        × Begun plan members (suc k) r'
  unfolding update_item_status
  finish_item k r item b there m deps =
      let pairing = pairing_of r b.row in
      let accepted : Accepted r item.owner k "done" pairing plan item done = record {
        member = Begun-member k r item.owner b m;
        named = done_named;
        planned = b.planned;
        locked = b.locked;
        there = there;
        owned = refl;
        ready = no_unfinished r.statuses plan k item.depends_on b.finished deps;
      } in
      let e = update_checks-of_Accepted r item.owner k "done" pairing plan item done accepted in
      (
        update_writes h r pairing plan item done item.owner k "done" actor assurance now,
        rw e refl,
        Begun-update_writes k r pairing item b,
      )

  -- The items that are left, in their order.
  finish_items :
      (first rest : List PlanItem) (r start : Room)
      → plan.items ≡ first ++ rest
      → depends_earlier 0 plan.items ≡ true
      → all (λ (item : PlanItem). includes members item.owner) rest ≡ true
      → Begun plan members (length first) r
      → Works h plan start r
      → (r' : Room) × Works h plan start r' × Begun plan members (length plan.items) r'
  finish_items first [] r start e d m b w =
      (r, w, subst (λ items. Begun plan members (length items) r) (sym (e ∙ append-nil first)) b)
  finish_items first (item ∷ rest) r start e d m b w =
      let there =
        subst (λ items. get_elem? items (length first) ≡ some item) (sym e)
          (get_elem?-middle first item rest) in
      let from_zero : 0 + length first ≡ length first = omega arith in
      let deps =
        subst (λ n. before_only n item.depends_on ≡ true) from_zero
          (depends_earlier-middle 0 first item rest
            (subst (λ items. depends_earlier 0 items ≡ true) e d)) in
      let (r₁, accepted, b₁) = finish_item (length first) r item b there (ground arith) deps in
      finish_items (first ++ item ∷ []) rest r₁ start
        (e ∙ sym (append_assoc first (item ∷ []) rest)) d (ground arith)
        (subst (λ k. Begun plan members k r₁) (longer first item) b₁)
        (works w item.owner (length first) "done" actor assurance now accepted)
    where
      longer : (xs : List PlanItem) (x : PlanItem) → suc (length xs) ≡ length (xs ++ x ∷ [])
      longer xs x = sym (length-append xs (x ∷ []) ∙ omega arith)

-- Whatever was called before, once every member has approved the plan there are updates, each of
-- them accepted, after which every item of the plan is done: no order of dependencies and no lost
-- owner can block the work.
pub Reached-finishes :
    (c : Crypto) (ph : PlanHashing) (trim : String → String) (id : String) {r : Room} (plan : Plan)
    (actor : AuditActor) (assurance : Assurance) (now : ℕ)
    → Reached c ph trim id r
    → get_plan_row r ≡ some plan
    → plan.locked ≡ true
    → (r' : Room) × Works ph.hashing plan r r'
      × ((i : ℕ)
          → i < length plan.items
          → status_of r'.statuses plan.pairing_id plan.version i ≡ done)
Reached-finishes c ph trim id {r} plan actor assurance now reached found locked =
    let v = Reached-IsSound c ph trim id reached in
    let only = get_plan_row-only id r plan v.planned found in
    let (own, in_order, _) = subst (λ plans. IsPlanned id plans r.statuses) only v.planned in
    let mine = subst (λ plans. owned (get_members r) plans ≡ true) only v.owners in
    let begun : Begun plan (get_members r) 0 r = record {
      row = v.row;
      paired = v.paired;
      present = refl;
      planned = found;
      locked = locked;
      finished = λ i below. absurd (omega (arith, below));
    } in
    let (r', w, b) =
      finish_items ph.hashing plan (get_members r) actor assurance now [] plan.items r r refl
        in_order (ground arith) begun idle in
    (r', w, b.finished)
