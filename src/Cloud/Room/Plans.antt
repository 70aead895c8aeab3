-- ===== src/Cloud/Room/Plans.antt =====
-- `proposePlan` and `getPlan` of packages/relay-cf/src/pairingRoom.ts.
use inzo.Prelude.{
  ℕ, suc, ◌+◌, String, Bool, true, false, not, ◌&&◌, ◌||◌, List, [], ◌∷◌, map, Option, none, some,
  Result, ok, guard, attempt, ◌>>=◌, ◌>>◌, filter, find?, all, includes, dedup, is_empty, length,
  eqb, ltb, ◌==◌, if◌then◌else◌,
}
use Prim.Native.String
use inzo.Prelude.Int.{pos, negsuc}
use inzo.Prelude.Json.{Json, null, bool, int, fraction, str, arr, obj, items}
use inzo.Relay.Errors.{Error, bad_request}
use inzo.Relay.Consent.{ConsentSubject, Assurance, open_consent}
use inzo.Relay.Audit.{AuditActor}
use inzo.Relay.CredentialStore.{write_rows}
use inzo.Relay.Store.State.{Pairing, PlanItem}
use inzo.Relay.Store.Messages.{is_blank}
use inzo.Relay.Store.Plans.{PlanHashing, version_detail}
use inzo.Cloud.Room.{Room, Plan, StatusRow, ItemStatus, pending, member_pairing, broadcast}
use inzo.Cloud.Room.Log.{append_entry}

-- An item as it is sent; `depends_on` is `none` where it is left out.
pub record SentItem : Type 0 where
  pub owner : String
  pub task : String
  pub depends_on : Option Json

-- `Number.isInteger(dep)`, `dep >= 0` and `dep < index`
abbrev pub is_earlier : ℕ → Json → Bool
is_earlier index (int (pos n)) = ltb n index
is_earlier index (int (negsuc n)) = false
is_earlier index null = false
is_earlier index (bool b) = false
is_earlier index fraction = false
is_earlier index (str s) = false
is_earlier index (arr vs) = false
is_earlier index (obj fs) = false

abbrev pub check_depends_on : ℕ → Option Json → Bool
check_depends_on index none = true
check_depends_on index (some (arr deps)) = all (is_earlier index) (items deps)
check_depends_on index (some v) = false

abbrev pub stored_item : SentItem → PlanItem
stored_item item = record { owner = item.owner; task = item.task; depends_on = item.depends_on }

abbrev pub check_item : (String → String) → List String → ℕ → SentItem → Bool
check_item trim members index item =
    not (is_blank trim item.owner || is_blank trim item.task)
    && includes members item.owner
    && check_depends_on index item.depends_on

-- The loop over the items, from an index on.
abbrev pub check_items : (String → String) → List String → ℕ → List SentItem → Bool
check_items trim members index [] = true
check_items trim members index (item ∷ sent) =
    check_item trim members index item && check_items trim members (suc index) sent

abbrev pub get_plan_row : Room → Option Plan
get_plan_row r = elim r.plans [ [] ↦ none | row ∷ rows ↦ some row ]

abbrev pub status_of : List StatusRow → String → (plan_version item_index : ℕ) → ItemStatus
status_of rows pairing_id plan_version item_index =
    elim (find?
      (λ row.
        row.pairing_id == pairing_id
        && eqb row.plan_version plan_version
        && eqb row.item_index item_index)
      rows) [ none ↦ pending | some row ↦ row.status ]

-- `statuses.get(dep) ?? "pending"`
abbrev pub status_at : List StatusRow → Plan → Json → ItemStatus
status_at rows plan (int (pos n)) = status_of rows plan.pairing_id plan.version n
status_at rows plan _ = pending

abbrev pub with_status_from :
    List StatusRow → Plan → ℕ → List PlanItem → List (PlanItem × ItemStatus)
with_status_from rows plan index [] = []
with_status_from rows plan index (item ∷ rest) =
    (item, status_of rows plan.pairing_id plan.version index)
    ∷ with_status_from rows plan (suc index) rest

-- `getPlan`: the plan, and its items with their status.
unfoldable pub get_plan : Room → Option (Plan × List (PlanItem × ItemStatus))
get_plan r = elim (get_plan_row r) [
  | none ↦ none
  | some plan ↦ some (plan, with_status_from r.statuses plan 0 plan.items)
]

-- The upsert keeps the `created_at` of the row that is there.
abbrev pub upsert_plan : Plan → List Plan → List Plan
upsert_plan plan [] = plan ∷ []
upsert_plan plan (row ∷ rows) =
    if row.pairing_id == plan.pairing_id
    then record plan { created_at = row.created_at } ∷ rows
    else row ∷ upsert_plan plan rows

abbrev pub next_version : Option Plan → ℕ
next_version none = 1
next_version (some row) = row.version + 1

abbrev pub created_or : Option Plan → ℕ → ℕ
created_or none now = now
created_or (some row) now = row.created_at

unfoldable pub subject_hash : PlanHashing → Plan → String
subject_hash ph plan = String.◌++◌ "sha256:" (
    ph.hashing.sha256_hex (
      ph.canonicalize_subject plan.pairing_id plan.goal
        (map (λ (item : PlanItem). (item.owner, item.task)) plan.items) plan.version))

pub record Proposed : Type 0 where
  pub pairing_id : String
  pub proposed_by : String
  pub goal : String
  pub sent : List SentItem
  pub principals : List String

unfoldable pub propose_checks : (String → String) → Room → Proposed → Result Error Pairing
propose_checks trim r p = do
  guard (not (is_blank trim p.goal)) bad_request
  guard (not (is_empty p.sent)) bad_request
  pairing ← member_pairing r p.proposed_by
  guard (check_items trim pairing.members 0 p.sent) bad_request
  ok pairing

abbrev pub proposed_plan : Room → Proposed → (now : ℕ) → Plan
proposed_plan r p now = record {
  pairing_id = p.pairing_id;
  goal = p.goal;
  items = map stored_item p.sent;
  proposed_by = p.proposed_by;
  approved_by = [];
  locked = false;
  version = next_version (get_plan_row r);
  created_at = created_or (get_plan_row r) now;
  updated_at = now;
}

-- `DELETE … WHERE pairing_id = ? AND plan_version != ?`
abbrev pub keep_version : String → ℕ → List StatusRow → List StatusRow
keep_version pairing_id version =
    filter (λ row. not (row.pairing_id == pairing_id && not (eqb row.plan_version version)))

-- The principals are those that the Worker has found, without repeats and without the empty text.
abbrev pub unique_principals : List String → List String
unique_principals principals = dedup (filter (λ p. not (p == "")) principals)

module _ (ph : PlanHashing) where
  -- What `proposePlan` writes, once its checks have passed.
  unfoldable pub propose_writes :
      Room → Pairing → Proposed → AuditActor → Assurance → (now : ℕ) → Room
  propose_writes r pairing p actor assurance now =
      let plan = proposed_plan r p now in
      let subject : ConsentSubject = record {
        version = plan.version;
        hash = subject_hash ph plan;
      } in
      let required = unique_principals p.principals in
      let r₁ : Room = record r {
        plans = upsert_plan plan r.plans;
        statuses = keep_version p.pairing_id plan.version r.statuses;
        consents =
            if eqb (length required) (length pairing.members)
            then write_rows (open_consent p.pairing_id subject required now) r.consents
            else r.consents;
      } in
      broadcast
        (append_entry ph.hashing r₁ pairing.id
          (record {
            action = "plan.proposed";
            actor = actor;
            assurance = assurance;
            detail = version_detail plan.version (subject_hash ph plan);
          })
          now)
        "plan.updated"

  unfoldable pub propose_plan :
      (String → String)
      → Room
      → Proposed
      → AuditActor
      → Assurance
      → (now : ℕ) → Room × Result Error Plan
  propose_plan trim r p actor assurance now =
      attempt r (propose_checks trim r p)
        λ pairing. (propose_writes r pairing p actor assurance now, ok (proposed_plan r p now))
