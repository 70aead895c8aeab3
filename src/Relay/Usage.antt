-- ===== src/Relay/Usage.antt =====
-- Budgets and usage of packages/relay/src/lib/store.ts: `setBudget`, `reportUsage`, `getUsage` and
-- `getUsageSnapshot`, over the numbers of Runway.
pub mod Reporting
use inzo.Prelude.{
  ℕ, String, Bool, true, false, not, ◌&&◌, ◌||◌, List, [], ◌∷◌, ◌++◌, map, Option, none, some,
  Result, ok, err, guard, attempt, ◌>>=◌, ◌>>◌, filter, find?, all, leb, ◌==◌, if◌then◌else◌,
}
use inzo.Relay.Errors.{Error, bad_request}
use inzo.Relay.Store.State.{Store, Pairing, get_pairing, member_pairing, publish}
use inzo.Relay.Runway.{
  Numbers, UsageReport, Budget, CombinedUsage, Runway, Verdict, fold_usage, compute_runway,
}

-- A value of a request: left out, `null`, a number, a text, or something else.
pub data Given (Number : Type 0) : Type 0 where
  left_out null other : Given Number
  number : Number → Given Number
  text : String → Given Number

module _ (n : Numbers) where
  open n use {Number, literal, lt, is_nan}

  -- The store, with its two tables for these.
  pub record Ledger : Type 0 where
    pub store : Store
    pub budgets : List (Budget n)
    pub reports : List (UsageReport n)

  pub record BudgetInput : Type 0 where
    pub deadline : Given Number
    pub token_budget : Given Number
    pub cost_budget_usd : Given Number

  pub record UsageInput : Type 0 where
    pub tokens_used : Given Number
    pub cost_usd : Given Number
    pub wall_clock_ms : Given Number
    pub progress_pct : Given Number

  -- `parse_date` is the moment of `new Date(s)`, `none` where it is not valid.
  abbrev pub normalize_deadline :
      (String → Option Number) → Given Number → Result Error (Option Number)
  normalize_deadline parse_date left_out = ok none
  normalize_deadline parse_date null = ok none
  normalize_deadline parse_date other = err bad_request
  normalize_deadline parse_date (number v) = err bad_request
  normalize_deadline parse_date (text s) = elim (parse_date s) [
    | none ↦ err bad_request
    | some at ↦ ok (some at)
  ]

  abbrev pub is_amount : Number → Bool
  is_amount v = not (is_nan v || lt v (literal 0))

  abbrev pub normalize_number : Given Number → Result Error (Option Number)
  normalize_number left_out = ok none
  normalize_number null = ok none
  normalize_number other = err bad_request
  normalize_number (number v) = if is_amount v then ok (some v) else err bad_request
  normalize_number (text s) = err bad_request

  -- What is left out keeps the value that is there.
  abbrev pub or_existing :
      Given Number
      → Option Number
      → (Given Number → Result Error (Option Number))
      → Result Error (Option Number)
  or_existing left_out existing normalize = ok existing
  or_existing given existing normalize = normalize given

  abbrev pub budget_of : Ledger → String → Option (Budget n)
  budget_of l pairing_id = find? (λ row. row.pairing_id == pairing_id) l.budgets

  abbrev pub field_of : (Budget n → Option Number) → Option (Budget n) → Option Number
  field_of field none = none
  field_of field (some b) = field b

  abbrev pub upsert_budget : Budget n → List (Budget n) → List (Budget n)
  upsert_budget b [] = b ∷ []
  upsert_budget b (row ∷ rows) =
      if row.pairing_id == b.pairing_id then b ∷ rows else row ∷ upsert_budget b rows

  unfoldable pub next_budget :
      (String → Option Number)
      → Option (Budget n)
      → String
      → BudgetInput
      → (now : ℕ) → Result Error (Budget n)
  next_budget parse_date existing pairing_id input now = do
    deadline ←
        or_existing input.deadline (field_of (λ b. b.deadline) existing)
          (normalize_deadline parse_date)
    token_budget ←
        or_existing input.token_budget (field_of (λ b. b.token_budget) existing) normalize_number
    cost_budget_usd ←
        or_existing input.cost_budget_usd (field_of (λ b. b.cost_budget_usd) existing)
          normalize_number
    ok (record {
      pairing_id = pairing_id;
      deadline = deadline;
      token_budget = token_budget;
      cost_budget_usd = cost_budget_usd;
      updated_at = now;
    })

  unfoldable pub set_budget :
      (String → Option Number)
      → Ledger
      → (pairing_id agent_id : String) → BudgetInput
      → (now : ℕ) → Ledger × Result Error (Budget n)
  set_budget parse_date l pairing_id agent_id input now =
      attempt l (member_pairing l.store pairing_id agent_id) λ pairing.
        attempt l (next_budget parse_date (budget_of l pairing_id) pairing_id input now) λ next. (
          record l {
            store = publish l.store "budget.updated" pairing_id;
            budgets = upsert_budget next l.budgets;
          },
          ok next,
        )

  abbrev pub amount : Given Number → Result Error Number
  amount (number v) = if is_amount v then ok v else err bad_request
  amount left_out = err bad_request
  amount null = err bad_request
  amount other = err bad_request
  amount (text s) = err bad_request

  unfoldable pub checked_report :
      (pairing_id agent_id : String)
      → UsageInput
      → (id : String) → (now : ℕ) → Result Error (UsageReport n)
  checked_report pairing_id agent_id input id now = do
    tokens_used ← amount input.tokens_used
    cost_usd ← amount input.cost_usd
    wall_clock_ms ← amount input.wall_clock_ms
    progress_pct ← amount input.progress_pct
    guard (not (lt (literal 100) progress_pct)) bad_request
    ok (record {
      id = id;
      pairing_id = pairing_id;
      agent_id = agent_id;
      tokens_used = tokens_used;
      cost_usd = cost_usd;
      wall_clock_ms = wall_clock_ms;
      progress_pct = progress_pct;
      created_at = now;
    })

  unfoldable pub report_usage :
      Ledger
      → (pairing_id agent_id : String) → UsageInput
      → (id : String) → (now : ℕ) → Ledger × Result Error (UsageReport n)
  report_usage l pairing_id agent_id input id now =
      attempt l (member_pairing l.store pairing_id agent_id) λ pairing.
        attempt l (checked_report pairing_id agent_id input id now) λ usage. (
          record l {
            store = publish l.store "usage.reported" pairing_id;
            reports = l.reports ++ usage ∷ [];
          },
          ok usage,
        )

  -- `ORDER BY created_at ASC, rowid ASC`
  abbrev pub insert_by_time : UsageReport n → List (UsageReport n) → List (UsageReport n)
  insert_by_time r [] = r ∷ []
  insert_by_time r (s ∷ reports) =
      if leb r.created_at s.created_at then r ∷ s ∷ reports else s ∷ insert_by_time r reports

  abbrev pub sort_by_time : List (UsageReport n) → List (UsageReport n)
  sort_by_time [] = []
  sort_by_time (r ∷ reports) = insert_by_time r (sort_by_time reports)

  abbrev pub get_usage_reports : Ledger → String → List (UsageReport n)
  get_usage_reports l pairing_id = sort_by_time (filter (λ r. r.pairing_id == pairing_id) l.reports)

  unfoldable pub get_usage : Ledger → String → Result Error (CombinedUsage n)
  get_usage l pairing_id = do
    pairing ← get_pairing l.store pairing_id
    ok (fold_usage n pairing_id pairing.members (get_usage_reports l pairing_id))

  unfoldable pub get_usage_snapshot :
      Ledger → String → (now : Number) → Result Error (CombinedUsage n × Runway n × Verdict)
  get_usage_snapshot l pairing_id now = do
    usage ← get_usage l pairing_id
    (runway, verdict) ←
        compute_runway n (budget_of l pairing_id) usage (get_usage_reports l pairing_id) now
    ok (usage, runway, verdict)
