-- ===== src/Cloud/Room/Usage.antt =====
-- Budgets and usage of packages/relay-cf/src/pairingRoom.ts: `setBudget`, `reportUsage`, `getUsage`,
-- `getUsageSnapshot`. The parts that packages/relay has word for word are taken from there.
pub mod Agreement
use inzo.Prelude.{
  ℕ, String, List, [], ◌∷◌, ◌++◌, map, Option, Result, ok, attempt, ◌>>=◌, find?, ◌==◌,
}
use inzo.Relay.Errors.{Error}
use inzo.Relay.Runway.{
  Numbers, UsageReport, Budget, CombinedUsage, Runway, Verdict, fold_usage, compute_runway,
}
use inzo.Relay.Usage.{
  BudgetInput, UsageInput, next_budget, upsert_budget, checked_report, sort_by_time,
}
use inzo.Cloud.Room.{Room, get_pairing, member_pairing, broadcast}

module _ (n : Numbers) where
  open n use {Number}

  -- The room, with its two tables for these. A row of `usage_reports` has no pairing; it is given
  -- that of the object when it is read.
  pub record Ledger : Type 0 where
    pub room : Room
    pub budgets : List (Budget n)
    pub reports : List (UsageReport n)

  unfoldable pub get_budget : Ledger → Result Error (Option (Budget n))
  get_budget l = do
    pairing ← get_pairing l.room
    ok (find? (λ row. row.pairing_id == pairing.id) l.budgets)

  unfoldable pub set_budget :
      (String → Option Number)
      → Ledger
      → (agent_id : String) → BudgetInput n
      → (now : ℕ) → Ledger × Result Error (Budget n)
  set_budget parse_date l agent_id input now = attempt l (member_pairing l.room agent_id) λ pairing.
      attempt l (get_budget l) λ existing.
        attempt l (next_budget n parse_date existing pairing.id input now) λ next. (
          record l {
            room = broadcast l.room "budget.updated";
            budgets = upsert_budget n next l.budgets;
          },
          ok next,
        )

  abbrev pub in_pairing : String → UsageReport n → UsageReport n
  in_pairing pairing_id row = record row { pairing_id = pairing_id }

  abbrev pub get_usage_reports : Ledger → String → List (UsageReport n)
  get_usage_reports l pairing_id = map (in_pairing pairing_id) (sort_by_time n l.reports)

  unfoldable pub get_usage : Ledger → Result Error (CombinedUsage n)
  get_usage l = do
    pairing ← get_pairing l.room
    ok (fold_usage n pairing.id pairing.members (get_usage_reports l pairing.id))

  unfoldable pub get_usage_snapshot :
      Ledger → (now : Number) → Result Error (CombinedUsage n × Runway n × Verdict)
  get_usage_snapshot l now = do
    pairing ← get_pairing l.room
    let reports = get_usage_reports l pairing.id
    let usage = fold_usage n pairing.id pairing.members reports
    budget ← get_budget l
    (runway, verdict) ← compute_runway n budget usage reports now
    ok (usage, runway, verdict)

  -- The snapshot that is broadcast is taken after the row is written, at the time `emitted`.
  unfoldable pub report_usage :
      Ledger
      → (agent_id : String) → UsageInput n
      → (id : String) → (now : ℕ) → (emitted : Number) → Ledger × Result Error (UsageReport n)
  report_usage l agent_id input id now emitted =
      attempt l (member_pairing l.room agent_id) λ pairing.
        attempt l (checked_report n pairing.id agent_id input id now) λ usage.
          let written = record l { reports = l.reports ++ usage ∷ [] } in
          attempt written (get_usage_snapshot written emitted)
            λ snapshot. (record written { room = broadcast l.room "usage.reported" }, ok usage)
