-- ===== src/Relay/Runway.antt =====
-- packages/relay/src/lib/runway.ts. JavaScript's numbers are a parameter; a moment is the number of
-- its milliseconds.
pub mod Latest
use inzo.Prelude.{
  ℕ, suc, ◌+◌, ◌^◌, String, Bool, true, false, not, ◌&&◌, ◌||◌, List, [], ◌∷◌, ◌++◌, map, Option,
  none, some, any, find?, includes, length, leb, is_none, ◌==◌, if◌then◌else◌, Result, ok, err,
  or_throw, ◌>>=◌,
}
use inzo.Relay.Errors.{Error, plain_error}

-- `+`, `-`, `*`, `/`, `<`, `<=`, `Math.round`, `Math.max(0, x)`, a number from a literal, and what
-- `new Date(x).toISOString()` keeps of a moment, `none` where it throws a `RangeError`.
pub record Numbers : Type 1 where
  pub Number : Type 0
  pub literal : ℕ → Number
  pub add : Number → Number → Number
  pub sub : Number → Number → Number
  pub mul : Number → Number → Number
  pub div : Number → Number → Number
  pub lt : Number → Number → Bool
  pub le : Number → Number → Bool
  pub math_round : Number → Number
  pub clamp : Number → Number
  pub is_nan : Number → Bool
  pub as_date : Number → Option Number

abbrev pub ms_per_min : ℕ
ms_per_min = 60000

-- What `buildVerdict` says.
pub data Verdict : Type 0 where
  no_budget tokens_spent cost_spent deadline_passed not_enough_reports runs_out outlasts
        no_deadline :
      Verdict

module _ (n : Numbers) where
  open n use {Number, literal, add, sub, mul, div, lt, le, math_round, clamp, as_date}

  pub record UsageReport : Type 0 where
    pub id : String
    pub pairing_id : String
    pub agent_id : String
    pub tokens_used : Number
    pub cost_usd : Number
    pub wall_clock_ms : Number
    pub progress_pct : Number
    pub created_at : ℕ

  pub record AgentUsage : Type 0 where
    pub tokens_used : Number
    pub cost_usd : Number
    pub wall_clock_ms : Number
    pub progress_pct : Number
    pub report_count : ℕ
    pub last_reported_at : Option ℕ

  pub record Totals : Type 0 where
    pub tokens_used : Number
    pub cost_usd : Number
    pub wall_clock_ms : Number

  pub record CombinedUsage : Type 0 where
    pub pairing_id : String
    pub by_agent : List (String × AgentUsage)
    pub totals : Totals

  pub record Budget : Type 0 where
    pub pairing_id : String
    pub deadline : Option Number
    pub token_budget : Option Number
    pub cost_budget_usd : Option Number
    pub updated_at : ℕ

  pub record Burn : Type 0 where
    pub tokens_per_min : Number
    pub cost_usd_per_min : Number

  abbrev pub round : Number → (places : ℕ) → Number
  round value places =
      let factor = literal (10 ^ places) in div (math_round (mul value factor)) factor

  abbrev pub empty_agent_usage : AgentUsage
  empty_agent_usage = record {
    tokens_used = literal 0;
    cost_usd = literal 0;
    wall_clock_ms = literal 0;
    progress_pct = literal 0;
    report_count = 0;
    last_reported_at = none;
  }

  -- `byAgent`, in the order of its keys.
  abbrev pub add_agent : List (String × AgentUsage) → String → List (String × AgentUsage)
  add_agent [] agent_id = (agent_id, empty_agent_usage) ∷ []
  add_agent ((a, u) ∷ buckets) agent_id =
      if a == agent_id
      then (a, empty_agent_usage) ∷ buckets
      else (a, u) ∷ add_agent buckets agent_id

  abbrev pub start_buckets : List String → List (String × AgentUsage) → List (String × AgentUsage)
  start_buckets [] buckets = buckets
  start_buckets (a ∷ agents) buckets = start_buckets agents (add_agent buckets a)

  -- What a report makes of the bucket of its agent.
  abbrev pub reported : UsageReport → AgentUsage → AgentUsage
  reported r u = record {
    tokens_used = r.tokens_used;
    cost_usd = r.cost_usd;
    wall_clock_ms = r.wall_clock_ms;
    progress_pct = r.progress_pct;
    report_count = u.report_count + 1;
    last_reported_at = some r.created_at;
  }

  abbrev pub add_report : List (String × AgentUsage) → UsageReport → List (String × AgentUsage)
  add_report [] r = (r.agent_id, reported r empty_agent_usage) ∷ []
  add_report ((a, u) ∷ buckets) r =
      if a == r.agent_id then (a, reported r u) ∷ buckets else (a, u) ∷ add_report buckets r

  abbrev pub add_reports :
      List (UsageReport) → List (String × AgentUsage) → List (String × AgentUsage)
  add_reports [] buckets = buckets
  add_reports (r ∷ reports) buckets = add_reports reports (add_report buckets r)

  abbrev pub total : List (String × AgentUsage) → Totals → Totals
  total [] acc = acc
  total ((a, u) ∷ buckets) acc = total buckets (record {
    tokens_used = add acc.tokens_used u.tokens_used;
    cost_usd = round (add acc.cost_usd u.cost_usd) 6;
    wall_clock_ms = add acc.wall_clock_ms u.wall_clock_ms;
  })

  abbrev pub no_totals : Totals
  no_totals = record { tokens_used = literal 0; cost_usd = literal 0; wall_clock_ms = literal 0 }

  unfoldable pub fold_usage : String → List String → List (UsageReport) → CombinedUsage
  fold_usage pairing_id agent_ids reports =
      let by_agent = add_reports reports (start_buckets agent_ids []) in
      record { pairing_id = pairing_id; by_agent = by_agent; totals = total by_agent no_totals }

  -- The series of an agent is its first and its last report, where there are two.
  abbrev pub first_last : List (UsageReport) → Option (UsageReport × UsageReport)
  first_last [] = none
  first_last (r ∷ []) = none
  first_last (r ∷ s ∷ []) = some (r, s)
  first_last (r ∷ s ∷ t ∷ reports) = first_last (r ∷ t ∷ reports)

  abbrev pub add_series :
      List (String × List (UsageReport)) → UsageReport → List (String × List (UsageReport))
  add_series [] r = (r.agent_id, r ∷ []) ∷ []
  add_series ((a, reports) ∷ series) r =
      if a == r.agent_id
      then (a, reports ++ r ∷ []) ∷ series
      else (a, reports) ∷ add_series series r

  abbrev pub series_of :
      List (UsageReport) → List (String × List (UsageReport)) → List (String × List (UsageReport))
  series_of [] series = series
  series_of (r ∷ reports) series = series_of reports (add_series series r)

  abbrev pub add_delta : Option (UsageReport × UsageReport) → Totals → Totals
  add_delta none acc = acc
  add_delta (some (first, last)) acc = record {
    tokens_used = add acc.tokens_used (clamp (sub last.tokens_used first.tokens_used));
    cost_usd = add acc.cost_usd (clamp (sub last.cost_usd first.cost_usd));
    wall_clock_ms = add acc.wall_clock_ms (clamp (sub last.wall_clock_ms first.wall_clock_ms));
  }

  abbrev pub deltas : List (String × List (UsageReport)) → Totals → Totals
  deltas [] acc = acc
  deltas ((a, reports) ∷ series) acc = deltas series (add_delta (first_last reports) acc)

  unfoldable pub compute_burn : List (UsageReport) → Option (Burn)
  compute_burn reports =
      let d = deltas (series_of reports []) no_totals in
      let minutes = div d.wall_clock_ms (literal ms_per_min) in
      if le d.wall_clock_ms (literal 0)
      then none
      else some (record {
        tokens_per_min = round (div d.tokens_used minutes) 2;
        cost_usd_per_min = round (div d.cost_usd minutes) 6;
      })

  -- A `RangeError` is a plain error.
  abbrev pub dated : Number → Result Error (Option Number)
  dated at = do kept ← or_throw (as_date at) plain_error; ok (some kept)

  unfoldable pub project_exhaustion :
      Option Number → Option Number → (now : Number) → Result Error (Option Number)
  project_exhaustion none per_min now = ok none
  project_exhaustion (some remaining) none now = ok none
  project_exhaustion (some remaining) (some per_min) now =
      if le per_min (literal 0)
      then ok none
      else (if le remaining (literal 0)
          then dated now
          else dated (add now (mul (div remaining per_min) (literal ms_per_min))))

  pub record Runway : Type 0 where
    pub deadline : Option Number
    pub ms_remaining : Option Number
    pub tokens_remaining : Option Number
    pub cost_remaining_usd : Option Number
    pub burn : Option (Burn)
    pub projected_token_exhaustion : Option Number
    pub projected_cost_exhaustion : Option Number
    pub on_track : Option Bool

  abbrev pub is_spent : Option Number → Bool
  is_spent none = false
  is_spent (some left) = le left (literal 0)

  abbrev pub track_verdict : Option Bool → Verdict
  track_verdict none = no_deadline
  track_verdict (some true) = outlasts
  track_verdict (some false) = runs_out

  unfoldable pub build_verdict : Runway → (has_budget : Bool) → Verdict
  build_verdict r has_budget =
      if not has_budget
      then no_budget
      else (if is_spent r.tokens_remaining
          then tokens_spent
          else (if is_spent r.cost_remaining_usd
              then cost_spent
              else (if is_spent r.ms_remaining
                  then deadline_passed
                  else (if is_none r.burn then not_enough_reports else track_verdict r.on_track))))

  abbrev pub or_null : {A : Type 0} → (Budget → Option A) → Option (Budget) → Option A
  or_null field none = none
  or_null field (some b) = field b

  abbrev pub less : Number → Option Number → Option Number
  less used none = none
  less used (some budget) = some (sub budget used)

  abbrev pub rounded : Option Number → Option Number
  rounded none = none
  rounded (some x) = some (round x 6)

  abbrev pub burn_field : (Burn → Number) → Option (Burn) → Option Number
  burn_field field none = none
  burn_field field (some b) = some (field b)

  abbrev pub before : Number → Option Number → Bool
  before deadline none = false
  before deadline (some at) = lt at deadline

  abbrev pub on_track_for :
      Option Number → (tokens cost : Option Number) → (now : Number) → Option Bool
  on_track_for none tokens cost now = none
  on_track_for (some deadline) tokens cost now =
      some (lt now deadline && not (before deadline tokens || before deadline cost))

  abbrev pub has_budget : Option (Budget) → Bool
  has_budget none = false
  has_budget (some b) =
      not (is_none b.deadline) || not (is_none b.token_budget) || not (is_none b.cost_budget_usd)

  unfoldable pub compute_runway :
      Option (Budget)
      → CombinedUsage
      → List (UsageReport)
      → (now : Number) → Result Error (Runway × Verdict)
  compute_runway budget usage reports now = do
    let deadline = or_null (λ b. b.deadline) budget
    let tokens = less usage.totals.tokens_used (or_null (λ b. b.token_budget) budget)
    let cost = rounded (less usage.totals.cost_usd (or_null (λ b. b.cost_budget_usd) budget))
    let burn = compute_burn reports
    token_end ← project_exhaustion tokens (burn_field (λ b. b.tokens_per_min) burn) now
    cost_end ← project_exhaustion cost (burn_field (λ b. b.cost_usd_per_min) burn) now
    let runway : Runway = record {
      deadline = deadline;
      ms_remaining = less now deadline;
      tokens_remaining = tokens;
      cost_remaining_usd = cost;
      burn = burn;
      projected_token_exhaustion = token_end;
      projected_cost_exhaustion = cost_end;
      on_track = on_track_for deadline token_end cost_end now;
    }
    ok (runway, build_verdict runway (has_budget budget))
