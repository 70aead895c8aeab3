-- ===== src/Cloud/Room/Sound/Plans.antt =====
-- `proposePlan` and `updateItemStatus` keep the object sound.
use inzo.Prelude.{
  attempt_keeps, ℕ, suc, ◌≡◌, refl, sym, ap, ◌∙◌, subst, String, true, not, List, [], ◌∷◌, map,
  Option, none, some, ok, arith, all, is_empty, includes, eqb, length, ◌==◌, ==_refl, if◌then◌else◌,
  guard-eq-ok, >>=-eq-ok, ok-injective, Bool-cases, inl, inr, some_eq,
}
use inzo.Prelude.Int.{pos, negsuc}
use inzo.Prelude.Json.{Json, null, bool, int, fraction, str, arr, obj, items}
use inzo.Relay.Errors.{bad_request, forbidden}
use inzo.Relay.Consent.{Assurance, open_consent}
use inzo.Relay.Consent.Invariant.{open_consent-IsConsistent}
use inzo.Relay.Audit.{AuditActor, Hashing}
use inzo.Relay.Store.State.{Pairing, PlanItem}
use inzo.Relay.Store.Plans.{PlanHashing, version_detail}
use inzo.Relay.CredentialStore.{write_rows}
use inzo.Relay.Store.Messages.{is_blank}
use inzo.Cloud.Room.{Room, Plan, StatusRow, get_members, get_pairing, member_pairing}
use inzo.Cloud.Room.Log.{append_entry}
use inzo.Cloud.Room.Plans.{
  SentItem, Proposed, is_earlier, check_depends_on, check_items, stored_item, get_plan_row,
  upsert_plan, subject_hash, keep_version, proposed_plan, propose_checks, propose_writes,
  propose_plan, unique_principals,
}
use inzo.Cloud.Room.Progress.{upsert_status}
use inzo.Cloud.Room.Sound.{
  is_index_before, before_only, depends_earlier, of_plan, owned, IsPlanned, AllConsistent, IsSound,
  with_plans, with_consents, append_entry-IsSound, write_rows-AllConsistent,
}

entries_earlier :
    (index : ℕ) (deps : List Json)
    → all (is_earlier index) deps ≡ true
    → all (is_index_before index) deps ≡ true
entries_earlier index [] h = refl
entries_earlier index (int (pos n) ∷ deps) h = ground (arith, entries_earlier index deps)
entries_earlier index (int (negsuc n) ∷ deps) h = cc
entries_earlier index (null ∷ deps) h = cc
entries_earlier index (bool b ∷ deps) h = cc
entries_earlier index (fraction ∷ deps) h = cc
entries_earlier index (str s ∷ deps) h = cc
entries_earlier index (arr vs ∷ deps) h = cc
entries_earlier index (obj fs ∷ deps) h = cc

depends_on_earlier :
    (index : ℕ) (depends_on : Option Json)
    → check_depends_on index depends_on ≡ true
    → before_only index depends_on ≡ true
depends_on_earlier index none h = refl
depends_on_earlier index (some (arr deps)) h = entries_earlier index (items deps) h
depends_on_earlier index (some null) h = cc
depends_on_earlier index (some (bool b)) h = cc
depends_on_earlier index (some (int n)) h = cc
depends_on_earlier index (some fraction) h = cc
depends_on_earlier index (some (str s)) h = cc
depends_on_earlier index (some (obj fs)) h = cc

-- Items that pass the loop of `proposePlan` depend on earlier items only.
pub check_items-depends_earlier :
    (trim : String → String) (members : List String) (index : ℕ) (sent : List SentItem)
    → check_items trim members index sent ≡ true
    → depends_earlier index (map stored_item sent) ≡ true
check_items-depends_earlier trim members index [] h = refl
check_items-depends_earlier trim members index (item ∷ sent) h = ground (
  arith,
  depends_on_earlier index item.depends_on,
  check_items-depends_earlier trim members (suc index) sent,
)

kept-of_plan :
    (id : String) (plan : Plan) (rows : List StatusRow)
    → plan.pairing_id ≡ id
    → all (λ row. row.pairing_id == id) rows ≡ true
    → all (of_plan plan) (keep_version id plan.version rows) ≡ true
kept-of_plan id plan [] e h = refl
kept-of_plan id plan (row ∷ rows) e h = ground (arith, kept-of_plan id plan rows e)

of_plan-id :
    (id : String) (plan : Plan) (rows : List StatusRow)
    → plan.pairing_id ≡ id
    → all (of_plan plan) rows ≡ true
    → all (λ row. row.pairing_id == id) rows ≡ true
of_plan-id id plan [] e h = refl
of_plan-id id plan (row ∷ rows) e h = ground (arith, of_plan-id id plan rows e)

upserted :
    (id : String) (plan : Plan) (plans : List Plan) (statuses : List StatusRow)
    → plan.pairing_id ≡ id
    → depends_earlier 0 plan.items ≡ true
    → IsPlanned id plans statuses
    → IsPlanned id (upsert_plan plan plans) (keep_version id plan.version statuses)
upserted id plan [] statuses e d v = (e, d, rw v refl)
upserted id plan (row ∷ []) statuses e d (own, _, all_of) =
    let same : (row.pairing_id == plan.pairing_id) ≡ true = rw (own, e, ==_refl id) refl in
    rw same (e, d, kept-of_plan id plan statuses e (of_plan-id id row statuses own all_of))
upserted id plan (row ∷ row' ∷ rows) statuses e d v = absurd v

check_items-owned :
    (trim : String → String) (members : List String) (index : ℕ) (sent : List SentItem)
    → check_items trim members index sent ≡ true
    → all (λ (item : PlanItem). includes members item.owner) (map stored_item sent) ≡ true
check_items-owned trim members index [] h = refl
check_items-owned trim members index (item ∷ sent) h =
    ground (arith, check_items-owned trim members (suc index) sent)

upserted-owned :
    (agents : List String) (plan : Plan) (plans : List Plan)
    → all (λ (item : PlanItem). includes agents item.owner) plan.items ≡ true
    → owned agents plans ≡ true
    → owned agents (upsert_plan plan plans) ≡ true
upserted-owned agents plan [] o os = ground arith
upserted-owned agents plan (row ∷ rows) o os = ground (arith, upserted-owned agents plan rows)

module _ (h : Hashing) (id : String) where
  pub get_pairing-members :
      (r : Room) (pairing : Pairing)
      → IsSound h id r
      → get_pairing r ≡ ok pairing
      → pairing.members ≡ get_members r
  unfolding get_pairing
  get_pairing-members r pairing v made =
      ap (λ (p : Pairing). p.members) (sym (ok-injective (rw v.paired at made)))

  member_pairing-members :
      (r : Room) (agent_id : String) (pairing : Pairing)
      → IsSound h id r
      → member_pairing r agent_id ≡ ok pairing
      → pairing.members ≡ get_members r
  unfolding member_pairing
  member_pairing-members r agent_id pairing v e =
      let (found, there, e₁) = >>=-eq-ok (get_pairing r) _ e in
      let (_, e₂) = guard-eq-ok (includes found.members agent_id) forbidden _ e₁ in
      get_pairing-members r pairing v (there ∙ e₂)

  -- The pairing that a method reads is the object's.
  pub get_pairing-id :
      (r : Room) (pairing : Pairing) → IsSound h id r → get_pairing r ≡ ok pairing → pairing.id ≡ id
  unfolding get_pairing
  get_pairing-id r pairing v e =
      let made = ok-injective (rw v.paired at e) in sym (ap (λ (p : Pairing). p.id) made) ∙ v.named

  pub member_pairing-id :
      (r : Room) (agent_id : String) (pairing : Pairing)
      → IsSound h id r
      → member_pairing r agent_id ≡ ok pairing
      → pairing.id ≡ id
  unfolding member_pairing
  member_pairing-id r agent_id pairing v e =
      let (found, there, e₁) = >>=-eq-ok (get_pairing r) _ e in
      let (_, e₂) = guard-eq-ok (includes found.members agent_id) forbidden _ e₁ in
      get_pairing-id r pairing v (there ∙ e₂)

propose_checks-eq-ok :
    (trim : String → String) (r : Room) (p : Proposed) (pairing : Pairing)
    → propose_checks trim r p ≡ ok pairing
    → (member_pairing r p.proposed_by ≡ ok pairing)
      × (check_items trim pairing.members 0 p.sent ≡ true)
unfolding propose_checks
propose_checks-eq-ok trim r p pairing e =
    let (_, e₁) = guard-eq-ok (not (is_blank trim p.goal)) bad_request _ e in
    let (_, e₂) = guard-eq-ok (not (is_empty p.sent)) bad_request _ e₁ in
    let (found, there, e₃) = >>=-eq-ok (member_pairing r p.proposed_by) _ e₂ in
    let (checked, e₄) = guard-eq-ok (check_items trim found.members 0 p.sent) bad_request _ e₃ in
    let same = ok-injective e₄ in
    (there ∙ e₄, subst (λ (q : Pairing). check_items trim q.members 0 p.sent ≡ true) same checked)

module _ (ph : PlanHashing) (id : String) where
  propose_writes-IsSound :
      (trim : String → String) (r : Room) (pairing : Pairing) (p : Proposed) (actor : AuditActor)
      (assurance : Assurance) (now : ℕ)
      → p.pairing_id ≡ id
      → pairing.id ≡ id
      → pairing.members ≡ get_members r
      → check_items trim pairing.members 0 p.sent ≡ true
      → IsSound ph.hashing id r
      → IsSound ph.hashing id (propose_writes ph r pairing p actor assurance now)
  unfolding propose_writes
  propose_writes-IsSound trim r pairing p actor assurance now e own known checked v =
      let plan = proposed_plan r p now in
      let hash = subject_hash ph plan in
      let opened =
        open_consent p.pairing_id (record { version = plan.version; hash = hash })
          (unique_principals p.principals) now in
      let open_consistent =
        open_consent-IsConsistent p.pairing_id (record { version = plan.version; hash = hash })
          (unique_principals p.principals) now in
      let test = eqb (length (unique_principals p.principals)) (length pairing.members) in
      let consents = if test then write_rows opened r.consents else r.consents in
      let kept : AllConsistent consents = elim (Bool-cases test) [
        | inl t ↦ rw t (write_rows-AllConsistent opened r.consents open_consistent v.consistent)
        | inr t ↦ rw t v.consistent
      ] in
      let statuses = keep_version p.pairing_id plan.version r.statuses in
      let in_order = check_items-depends_earlier trim pairing.members 0 p.sent checked in
      let kept_plan : IsPlanned id (upsert_plan plan r.plans) statuses =
        subst
          (λ i. IsPlanned id (upsert_plan plan r.plans) (keep_version i plan.version r.statuses))
          (sym e) (upserted id plan r.plans r.statuses e in_order v.planned) in
      let kept_owned =
        upserted-owned (get_members r) plan r.plans
          (subst (λ agents. all (λ (item : PlanItem). includes agents item.owner) plan.items ≡ true)
            known (check_items-owned trim pairing.members 0 p.sent checked))
          v.owners in
      let r₁ : Room = record r {
        plans = upsert_plan plan r.plans;
        statuses = statuses;
        consents = consents;
      } in
      subst
        (λ i. IsSound ph.hashing id (
          append_entry ph.hashing r₁ i
            (record {
              action = "plan.proposed";
              actor = actor;
              assurance = assurance;
              detail = version_detail plan.version hash;
            })
            now))
        (sym own)
        (append_entry-IsSound ph.hashing id r₁
          (record {
            action = "plan.proposed";
            actor = actor;
            assurance = assurance;
            detail = version_detail plan.version hash;
          })
          now (with_plans (with_consents v kept) kept_plan kept_owned))

  pub propose_plan-IsSound :
      (trim : String → String) (r : Room) (p : Proposed) (actor : AuditActor)
      (assurance : Assurance) (now : ℕ)
      → p.pairing_id ≡ id
      → IsSound ph.hashing id r
      → IsSound ph.hashing id (propose_plan ph trim r p actor assurance now).0
  unfolding propose_plan
  propose_plan-IsSound trim r p actor assurance now e v =
      attempt_keeps (IsSound ph.hashing id) r (propose_checks trim r p) _ v λ pairing ok_checks.
        let (member, checked) = propose_checks-eq-ok trim r p pairing ok_checks in
        propose_writes-IsSound trim r pairing p actor assurance now e
          (member_pairing-id ph.hashing id r p.proposed_by pairing v member)
          (member_pairing-members ph.hashing id r p.proposed_by pairing v member) checked v

upsert_status-of_plan :
    (plan : Plan) (new : StatusRow) (rows : List StatusRow)
    → of_plan plan new ≡ true
    → all (of_plan plan) rows ≡ true
    → all (of_plan plan) (upsert_status new rows) ≡ true
upsert_status-of_plan plan new [] n a = ground arith
upsert_status-of_plan plan new (row ∷ rows) n a =
    ground (arith, upsert_status-of_plan plan new rows n)

-- The plan that is read is the one that is there.
pub get_plan_row-only :
    (id : String) (r : Room) (plan : Plan)
    → IsPlanned id r.plans r.statuses
    → get_plan_row r ≡ some plan
    → r.plans ≡ plan ∷ []
get_plan_row-only id r plan v e = only r.plans v e
  where
    only :
        (plans : List Plan)
        → IsPlanned id plans r.statuses
        → (elim plans [ [] ↦ none | row ∷ rows ↦ some row ]) ≡ some plan
        → plans ≡ plan ∷ []
    only [] v e = cc
    only (row ∷ []) v e = ap (λ p. p ∷ []) (some_eq e)
    only (row ∷ row' ∷ rows) v e = absurd v
