-- ===== src/Relay/Store/Plans/Races.antt =====
-- Requests that run while `proposePlan` or `approvePlan` waits for a sandbox.
use inzo.Prelude.{
  ℕ, ◌+◌, find?, ◌==◌, ==_refl, ◌≡◌, sym, ap, ◌∙◌, String, Bool, List, none, some, ok,
}
use inzo.Relay.Credential.Interface.{Crypto}
use inzo.Prelude.Json.{Json, int}
use inzo.Prelude.Int.{pos}
use inzo.Relay.Store.Plans.Approval.{approve_begin-eq-ok}
use inzo.Relay.Store.State.{Store, Plan, PlanItem, WaitHandle}
use inzo.Relay.Store.Plans.{
  PlanHashing, Proposal, Approving, get_plan_row, update_plan, next_version, propose_begin,
  propose_commit, approve_begin, approve_commit,
}
use inzo.Relay.Store.Plans.Versions.{propose_begin-eq-ok, propose_commit-row, find_plan-update}

update_plan-own :
    (p : String) (approved_by : List String) (locked : Bool) (now : ℕ) (sandbox_state : String)
    (row : Plan)
    → row.pairing_id ≡ p
    → update_plan p approved_by locked now sandbox_state row ≡ record row {
      approved_by = approved_by;
      locked = locked;
      updated_at = now;
      sandbox_state = sandbox_state;
    }
update_plan-own p approved_by locked now sandbox_state row e = rw (ap (λ q. q == p) e ∙ ==_refl p)

-- The store holds a plan of a pairing with this goal and this number.
abbrev pub HoldsPlan : (p goal : String) (version : ℕ) → Store → Type 0
HoldsPlan p goal version s =
    (row : Plan) × (get_plan_row s p ≡ some row) × (row.goal ≡ goal) × (row.version ≡ version)

-- Two proposals of one pairing, at any two times, of which the second begins where the first has begun
-- and before either is committed, get the same version number. In either order of their commits the
-- store then holds a plan with the goal of the one that commits last, under that number.
pub propose_plan-race :
    (trim : String → String) (ph : PlanHashing) (s t u : Store) (p by_a by_b goal_a goal_b : String)
    (items_a items_b : List PlanItem) (now_a now_b : ℕ) (a b : Proposal)
    (wait_a wait_b : WaitHandle) (end_a end_b : ℕ)
    → propose_begin trim s p by_a goal_a items_a now_a ≡ (t, ok a)
    → propose_begin trim t p by_b goal_b items_b now_b ≡ (u, ok b)
    → (a.version ≡ b.version)
      × HoldsPlan p goal_b a.version
          (propose_commit ph (propose_commit ph u p a wait_a end_a).0 p b wait_b end_b).0
      × HoldsPlan p goal_a a.version
          (propose_commit ph (propose_commit ph u p b wait_b end_b).0 p a wait_a end_a).0
unfolding get_plan_row
propose_plan-race trim ph s t u p by_a by_b goal_a goal_b items_a items_b now_a now_b a b wait_a
      wait_b end_a end_b e f =
    let (plans, _, version_a, goal_of_a, _, _) =
      propose_begin-eq-ok trim s t p by_a goal_a items_a now_a a e in
    let (_, _, version_b, goal_of_b, _, _) =
      propose_begin-eq-ok trim t u p by_b goal_b items_b now_b b f in
    let same : a.version ≡ b.version =
      version_a
      ∙ ap (λ plans. next_version (find? (λ r. r.pairing_id == p) plans)) (sym plans)
      ∙ sym version_b in
    let (row, found, like) =
      propose_commit-row ph (propose_commit ph u p a wait_a end_a).0 p b wait_b end_b in
    let (row', found', like') =
      propose_commit-row ph (propose_commit ph u p b wait_b end_b).0 p a wait_a end_a in
    (
      same,
      (row, found, like.goal ∙ goal_of_b, like.version ∙ sym same),
      (row', found', like'.goal ∙ goal_of_a, like'.version),
    )

-- When a proposal runs while an approval that has passed its version check waits, the approval marks
-- the new plan: the stored plan then has the goal proposed and a version one above the version that
-- the approval named, with the approval's `approved_by` and `locked`.
pub approve_plan-race :
    (c : Crypto) (ph : PlanHashing) (trim : String → String) (s t u : Store)
    (p agent_id proposed_by goal : String) (items : List PlanItem) (now : ℕ) (version : Json)
    (a : Approving) (q : Proposal) (wait : WaitHandle) (end_q end_a : ℕ)
    → approve_begin s p agent_id version ≡ (t, ok a)
    → propose_begin trim t p proposed_by goal items now ≡ (u, ok q)
    → (version ≡ int (pos a.row.version))
      × ((row : Plan) × (get_plan_row
              (approve_commit c ph (propose_commit ph u p q wait end_q).0 p a none end_a).0
              p
            ≡ some row)
          × (row.goal ≡ goal)
          × (row.version ≡ a.row.version + 1)
          × (row.approved_by ≡ a.approved_by)
          × (row.locked ≡ a.locked))
unfolding get_plan_row approve_commit
approve_plan-race c ph trim s t u p agent_id proposed_by goal items now version a q wait end_q end_a
      e f =
    let (named, before, plans, _, _) = approve_begin-eq-ok s t p agent_id version a e in
    let (_, _, next, same_goal, _, _) =
      propose_begin-eq-ok trim t u p proposed_by goal items now q f in
    let (row, found, like) = propose_commit-row ph u p q wait end_q in
    let there =
      find_plan-update p a.approved_by a.locked end_a a.sandbox_state
        (propose_commit ph u p q wait end_q).0.plans row found in
    let its =
      update_plan-own p a.approved_by a.locked end_a a.sandbox_state row (like.pairing_id) in
    let number : q.version ≡ a.row.version + 1 =
      next
      ∙ ap (λ plans. next_version (find? (λ r. r.pairing_id == p) plans)) plans
      ∙ ap next_version before in
    (
      named,
      (
        update_plan p a.approved_by a.locked end_a a.sandbox_state row,
        there,
        ap (λ (r : Plan). r.goal) its ∙ like.goal ∙ same_goal,
        ap (λ (r : Plan). r.version) its ∙ like.version ∙ number,
        ap (λ (r : Plan). r.approved_by) its,
        ap (λ (r : Plan). r.locked) its,
      ),
    )
