-- ===== src/Relay/Store/Plans/Versions.antt =====
-- A proposal opens the next version of the plan, with no approval carried over.
use inzo.Prelude.{
  ℕ, ◌≡◌, refl, sym, ap, ◌∙◌, subst, String, Bool, false, List, [], ◌∷◌, map, Option, none, some,
  ok, arith, attempt-eq-ok, find?, ◌==◌, ==_refl, string_dec, ok-injective,
}
use inzo.Relay.Store.State.{Store, Plan, PlanItem, WaitHandle}
use inzo.Relay.Store.Plans.{
  PlanHashing, Proposal, get_plan_row, wait_of, dispose_wait, upsert_plan, update_plan,
  next_version, propose_checks, propose_begin, propose_commit, propose_plan, proposed_plan,
}

pub dispose_wait-plans :
    (s : Store) (p : String) (w : Option WaitHandle) → (dispose_wait s p w).plans ≡ s.plans
dispose_wait-plans s p none = refl
dispose_wait-plans s p (some w) = refl

dispose_wait-trust :
    (s : Store) (p : String) (w : Option WaitHandle) → (dispose_wait s p w).trust ≡ s.trust
dispose_wait-trust s p none = refl
dispose_wait-trust s p (some w) = refl

-- Two plans that differ at most in `created_at`.
pub record SamePlan (x y : Plan) : Type 0 where
  pub pairing_id : x.pairing_id ≡ y.pairing_id
  pub goal : x.goal ≡ y.goal
  pub items : x.items ≡ y.items
  pub proposed_by : x.proposed_by ≡ y.proposed_by
  pub approved_by : x.approved_by ≡ y.approved_by
  pub locked : x.locked ≡ y.locked
  pub version : x.version ≡ y.version

pub find_plan-upsert :
    (plan : Plan) (rows : List Plan)
    → (row : Plan) × (find? (λ r. r.pairing_id == plan.pairing_id) (upsert_plan plan rows)
        ≡ some row)
      × SamePlan row plan
find_plan-upsert plan [] = (plan, rw (==_refl plan.pairing_id), ground arith)
find_plan-upsert plan (r ∷ rows) = elim (string_dec r.pairing_id plan.pairing_id) [
  | yes e ↦ (record plan { created_at = r.created_at }, ground arith, ground arith)
  | no ne ↦ let (row, found, same) = find_plan-upsert plan rows in (row, ground arith, same)
]

pub find_plan-update :
    (p : String) (approved_by : List String) (locked : Bool) (now : ℕ) (sandbox_state : String)
    (rows : List Plan) (row : Plan)
    → find? (λ r. r.pairing_id == p) rows ≡ some row
    → find? (λ r. r.pairing_id == p) (map (update_plan p approved_by locked now sandbox_state) rows)
      ≡ some (update_plan p approved_by locked now sandbox_state row)
find_plan-update p approved_by locked now sandbox_state [] row e = cc
find_plan-update p approved_by locked now sandbox_state (r ∷ rows) row e =
    ground (arith, find_plan-update p approved_by locked now sandbox_state rows row)

-- What the first half of a proposal has read.
pub propose_begin-eq-ok :
    (trim : String → String) (s t : Store) (p proposed_by goal : String) (items : List PlanItem)
    (now : ℕ) (a : Proposal)
    → propose_begin trim s p proposed_by goal items now ≡ (t, ok a)
    → (t.plans ≡ s.plans)
      × (t.trust ≡ s.trust)
      × (a.version ≡ next_version (get_plan_row s p))
      × (a.goal ≡ goal)
      × (a.items ≡ items)
      × (a.proposed_by ≡ proposed_by)
unfolding propose_begin
propose_begin-eq-ok trim s t p proposed_by goal items now a e =
    let (pairing, checked, f) =
      attempt-eq-ok s t (propose_checks trim s p proposed_by goal items) _ a e in
    let same = dispose_wait-plans s p (wait_of s p) in
    let trust = dispose_wait-trust s p (wait_of s p) in
    let store : dispose_wait s p (wait_of s p) ≡ t = ap (λ q. q.0) f in
    (
      sym (ap (λ (q : Store). q.plans) store) ∙ same,
      sym (ap (λ (q : Store). q.trust) store) ∙ trust,
      ground arith,
      ground arith,
      ground arith,
      ground arith,
    )

-- The second half of a proposal stores its plan.
pub propose_commit-row :
    (ph : PlanHashing) (s : Store) (p : String) (a : Proposal) (wait : WaitHandle) (now : ℕ)
    → (row : Plan) × (get_plan_row (propose_commit ph s p a wait now).0 p ≡ some row)
      × SamePlan row (proposed_plan p a wait)
unfolding propose_commit get_plan_row
propose_commit-row ph s p a wait now = find_plan-upsert (proposed_plan p a wait) s.plans

-- A proposal that succeeds gives the caller's goal and items the next version of the pairing's plan
-- (one more than the version that was stored, or 1), unapproved and unlocked, and the store it
-- leaves holds that plan for the pairing, up to the time it was created.
pub propose_plan-opens :
    (trim : String → String) (ph : PlanHashing) (s t : Store) (p proposed_by goal : String)
    (items : List PlanItem) (wait : WaitHandle) (now : ℕ) (plan : Plan)
    → propose_plan trim ph s p proposed_by goal items wait now ≡ (t, ok plan)
    → (plan.version ≡ next_version (get_plan_row s p))
      × (plan.goal ≡ goal)
      × (plan.items ≡ items)
      × (plan.approved_by ≡ [])
      × (plan.locked ≡ false)
      × ((row : Plan) × (get_plan_row t p ≡ some row) × SamePlan row plan)
unfolding propose_plan propose_commit
propose_plan-opens trim ph s t p proposed_by goal items wait now plan e =
    let begun = propose_begin trim s p proposed_by goal items now in
    let (a, there, f) = attempt-eq-ok begun.0 t begun.1 _ plan e in
    let (_, _, version, same_goal, same_items, _) =
      propose_begin-eq-ok trim s begun.0 p proposed_by goal items now a
        (ap (λ r. (begun.0, r)) there) in
    let store : (propose_commit ph begun.0 p a wait now).0 ≡ t = ap (λ q. q.0) f in
    let made : proposed_plan p a wait ≡ plan = ok-injective (ap (λ q. q.1) f) in
    let (row, found, same) = propose_commit-row ph begun.0 p a wait now in
    (
      sym (ap (λ (q : Plan). q.version) made) ∙ version,
      sym (ap (λ (q : Plan). q.goal) made) ∙ same_goal,
      sym (ap (λ (q : Plan). q.items) made) ∙ same_items,
      sym (ap (λ (q : Plan). q.approved_by) made),
      sym (ap (λ (q : Plan). q.locked) made),
      (
        row,
        subst (λ q. get_plan_row q p ≡ some row) store found,
        subst (λ q. SamePlan row q) made same,
      ),
    )
