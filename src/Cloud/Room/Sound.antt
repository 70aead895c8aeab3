-- ===== src/Cloud/Room/Sound.antt =====
-- What holds of the object of packages/relay-cf/src/pairingRoom.ts between two calls.
pub mod Plans
pub mod Progress
pub mod Consents
pub mod Reached
pub mod Audit
use inzo.Prelude.{
  ℕ, suc, ◌+◌, ◌≤◌, ◌<◌, ◌≡◌, refl, sym, ap, ◌∙◌, subst, String, Bool, true, false, not, ◌&&◌, List,
  [], ◌∷◌, ◌++◌, map, Option, none, some, Result, ok, err, arith, attempt, filter, filter-append,
  find?, Bool-cases, some_eq, inl, inr, all, length, eqb, ltb, leb, ◌==◌, ==_refl, includes,
  if◌then◌else◌,
}
use inzo.Prelude.Int.{pos}
use inzo.Prelude.Json.{Json, int, arr, items}
use inzo.Relay.Errors.{Error}
use inzo.Relay.Consent.{ConsentRecord}
use inzo.Relay.Consent.Invariant.{IsConsistent}
use inzo.Relay.Audit.{
  AuditRecord, Hashing, last, sort_by_seq, of_pairing, append, record_after, head,
}
use inzo.Relay.Audit.Chain.{Logged, appended}
use inzo.Relay.CredentialStore.{write_rows}
use inzo.Relay.Store.State.{PairingRow, PlanItem, max_members}
use inzo.Cloud.Room.{Room, Member, Plan, StatusRow}
use inzo.Cloud.Room.Log.{Entry, append_input, append_entry, audit_head}

-- A number of an item before this one.
abbrev pub is_index_before : ℕ → Json → Bool
is_index_before index (int (pos n)) = ltb n index
is_index_before index _ = false

-- Nothing, or a list of numbers of items before this one.
abbrev pub before_only : ℕ → Option Json → Bool
before_only index none = true
before_only index (some (arr deps)) = all (is_index_before index) (items deps)
before_only index _ = false

-- Every item depends on earlier items only.
abbrev pub depends_earlier : ℕ → List PlanItem → Bool
depends_earlier index [] = true
depends_earlier index (item ∷ items) =
    before_only index item.depends_on && depends_earlier (suc index) items

-- The row speaks of the plan as it stands.
abbrev pub of_plan : Plan → StatusRow → Bool
of_plan plan row = row.pairing_id == plan.pairing_id && eqb row.plan_version plan.version

-- At most one plan, of this pairing, with its dependencies in order, and no status of another
-- version.
abbrev pub IsPlanned : String → List Plan → List StatusRow → Type 0
IsPlanned id [] statuses = statuses ≡ []
IsPlanned id (plan ∷ []) statuses =
    (plan.pairing_id ≡ id)
    × (depends_earlier 0 plan.items ≡ true)
    × (all (of_plan plan) statuses ≡ true)
IsPlanned id (plan ∷ row ∷ rows) statuses = ⊥

-- Every item of every plan belongs to one of the agents.
abbrev pub owned : List String → List Plan → Bool
owned agents = all (λ plan. all (λ item. includes agents item.owner) plan.items)

abbrev pub AllConsistent : List ConsentRecord → Type 0
AllConsistent [] = Unit {0}
AllConsistent (r ∷ rows) = IsConsistent r × AllConsistent rows

-- The tables of an object that was made for a pairing.
pub record Tables (h : Hashing) (id : String) (pairing : Option PairingRow) (members : List Member)
    (audit : List AuditRecord) (plans : List Plan) (statuses : List StatusRow)
    (consents : List ConsentRecord) : Type 0 where
  pub row : PairingRow
  pub paired : pairing ≡ some row
  pub named : row.id ≡ id
  pub bounded : length members ≤ max_members
  pub logged : Logged h audit
  pub own : of_pairing id audit ≡ audit
  pub planned : IsPlanned id plans statuses
  pub owners : owned (map (λ (m : Member). m.agent_id) members) plans ≡ true
  pub consistent : AllConsistent consents

abbrev pub IsSound : Hashing → String → Room → Type 0
IsSound h id r = Tables h id r.pairing r.members r.audit r.plans r.statuses r.consents

pub either_keeps :
    (P : Room → Type 0) (test : Bool) (a b : Room) → P a → P b → P (if test then a else b)
either_keeps P true a b p q = p
either_keeps P false a b p q = q

pub pair_keeps :
    {B : Type 0} (P : Room → Type 0) (test : Bool) (a b : Room × B)
    → (test ≡ true → P a.0)
    → (test ≡ false → P b.0)
    → P (if test then a else b).0
pair_keeps P true a b p q = p refl
pair_keeps P false a b p q = q refl

module _ {h : Hashing} {id : String} {pairing : Option PairingRow} {members : List Member}
    {audit : List AuditRecord} {plans : List Plan} {statuses : List StatusRow}
    {consents : List ConsentRecord}
    (v : Tables h id pairing members audit plans statuses consents) where
  -- A method that writes some of the tables leaves the others as they were.
  pub with_members :
      {members' : List Member}
      → length members' ≤ max_members
      → owned (map (λ (m : Member). m.agent_id) members') plans ≡ true
      → Tables h id pairing members' audit plans statuses consents
  with_members bounded owners = record {
    row = v.row;
    paired = v.paired;
    named = v.named;
    bounded = bounded;
    logged = v.logged;
    own = v.own;
    planned = v.planned;
    owners = owners;
    consistent = v.consistent;
  }

  pub with_plans :
      {plans' : List Plan} {statuses' : List StatusRow}
      → IsPlanned id plans' statuses'
      → owned (map (λ (m : Member). m.agent_id) members) plans' ≡ true
      → Tables h id pairing members audit plans' statuses' consents
  with_plans planned owners = record {
    row = v.row;
    paired = v.paired;
    named = v.named;
    bounded = v.bounded;
    logged = v.logged;
    own = v.own;
    planned = planned;
    owners = owners;
    consistent = v.consistent;
  }

  pub with_consents :
      {consents' : List ConsentRecord}
      → AllConsistent consents'
      → Tables h id pairing members audit plans statuses consents'
  with_consents consistent = record {
    row = v.row;
    paired = v.paired;
    named = v.named;
    bounded = v.bounded;
    logged = v.logged;
    own = v.own;
    planned = v.planned;
    owners = v.owners;
    consistent = consistent;
  }

pub append_entry-IsSound :
    (h : Hashing) (id : String) (r : Room) (e : Entry) (now : ℕ)
    → IsSound h id r
    → IsSound h id (append_entry h r id e now)
unfolding append_entry append inzo.Relay.Audit.head
append_entry-IsSound h id r e now v =
    let input = append_input id e in
    let same : head r.audit id ≡ audit_head r = ap (λ rows. last (sort_by_seq rows)) v.own in
    record {
      row = v.row;
      paired = v.paired;
      named = v.named;
      bounded = v.bounded;
      logged =
          subst (λ top. Logged h (r.audit ++ record_after h top input now ∷ [])) same
            (appended v.logged input now);
      own =
          filter-append (λ row. row.pairing_id == id) r.audit
            (record_after h (audit_head r) input now ∷ [])
          ∙ rw (v.own, ==_refl id) refl;
      planned = v.planned;
      owners = v.owners;
      consistent = v.consistent;
    }

pub write_rows-AllConsistent :
    (r : ConsentRecord) (rows : List ConsentRecord)
    → IsConsistent r
    → AllConsistent rows
    → AllConsistent (write_rows r rows)
write_rows-AllConsistent r [] v vs = (v, tt)
write_rows-AllConsistent r (row ∷ rows) v (w, vs) =
    elim (Bool-cases (row.pairing_id == r.pairing_id)) [
      | inl e ↦ rw e (record { flag = v.flag; parties = v.parties; once = v.once }, vs)
      | inr e ↦ rw e (w, write_rows-AllConsistent r rows v vs)
    ]

pub find-AllConsistent :
    (test : ConsentRecord → Bool) (rows : List ConsentRecord) (r : ConsentRecord)
    → find? test rows ≡ some r
    → AllConsistent rows
    → IsConsistent r
find-AllConsistent test [] r e vs = cc
find-AllConsistent test (row ∷ rows) r e (w, vs) = elim (Bool-cases (test row)) [
  | inl t ↦ subst IsConsistent (some_eq (rw t at e)) w
  | inr t ↦ find-AllConsistent test rows r (rw t at e) vs
]
