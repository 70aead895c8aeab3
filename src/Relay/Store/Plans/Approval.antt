-- ===== src/Relay/Store/Plans/Approval.antt =====
-- The checks of `approvePlan` of packages/relay/src/lib/store.ts before it waits.
use inzo.Prelude.{
  ℕ, ◌≡◌, sym, ap, ◌∙◌, subst, String, true, List, some, Option, ok, arith, attempt-eq-ok,
  ok-injective, none, if◌then◌else◌, ==_refl, or_throw, includes, all, add_to_set,
  includes-add_to_set,
}
use inzo.Prelude.Int.{pos, negsuc}
use inzo.Prelude.Json.{Json, null, bool, int, fraction, str, arr, obj}
use inzo.Relay.Errors.{not_found}
use inzo.Relay.Store.State.{Store, Plan, Pairing, member_pairing}
use inzo.Relay.Store.Plans.{Approving, get_plan_row, wait_of, check_version, approve_begin}
use inzo.Relay.Store.Plans.Versions.{dispose_wait-plans}

check_version-eq-ok :
    (version : Json) (n : ℕ) (a : Unit {0}) → check_version version n ≡ ok a → version ≡ int (pos n)
check_version-eq-ok (int (pos m)) n a h = ground arith
check_version-eq-ok (int (negsuc m)) n a h = cc
check_version-eq-ok null n a h = cc
check_version-eq-ok (bool b) n a h = cc
check_version-eq-ok fraction n a h = cc
check_version-eq-ok (str b) n a h = cc
check_version-eq-ok (arr b) n a h = cc
check_version-eq-ok (obj b) n a h = cc

added : (xs : List String) (a : String) → includes (add_to_set xs a) a ≡ true
added xs a = ground (arith, includes-add_to_set xs a a, ==_refl a)

found_row : (o : Option Plan) (row : Plan) → or_throw o not_found ≡ ok row → o ≡ some row
found_row none row h = cc
found_row (some r) row h = ap some (ok-injective h)

-- An approval that gets past its checks names, as an integer, the version of the pairing's stored
-- plan, and comes from a member; it counts the agent among the approvals, locks the plan exactly when
-- every member is among them, and has changed no plan.
pub approve_begin-eq-ok :
    (s t : Store) (p agent_id : String) (version : Json) (a : Approving)
    → approve_begin s p agent_id version ≡ (t, ok a)
    → (version ≡ int (pos a.row.version))
      × (get_plan_row s p ≡ some a.row)
      × (t.plans ≡ s.plans)
      × (includes a.approved_by agent_id ≡ true)
      × ((pairing : Pairing) × (member_pairing s p agent_id ≡ ok pairing)
          × (a.locked ≡ all (includes a.approved_by) pairing.members))
unfolding approve_begin
approve_begin-eq-ok s t p agent_id version a e =
    let (pairing, member, e₁) = attempt-eq-ok s t (member_pairing s p agent_id) _ a e in
    let (row, there, e₂) = attempt-eq-ok s t (or_throw (get_plan_row s p) not_found) _ a e₁ in
    let (u, checked, e₃) = attempt-eq-ok s t (check_version version row.version) _ a e₂ in
    let found = found_row (get_plan_row s p) row there in
    let named = check_version-eq-ok version row.version u checked in
    let made = ok-injective (ap (λ q. q.1) e₃) in
    let approved_by : add_to_set row.approved_by agent_id ≡ a.approved_by =
      ap (λ (q : Approving). q.approved_by) made in
    let same_row : row ≡ a.row = ap (λ (q : Approving). q.row) made in
    (
      named ∙ ap (λ (q : Plan). int (pos q.version)) same_row,
      found ∙ ap some same_row,
      sym (ap (λ q. q.0.plans) e₃)
          ∙ dispose_wait-plans s p (
              if all (includes (add_to_set row.approved_by agent_id)) pairing.members
              then wait_of s p
              else none),
      subst (λ xs. includes xs agent_id ≡ true) approved_by (added row.approved_by agent_id),
      (
        pairing,
        member,
        sym (ap (λ (q : Approving). q.locked) made)
            ∙ ap (λ xs. all (includes xs) pairing.members) approved_by,
      ),
    )
