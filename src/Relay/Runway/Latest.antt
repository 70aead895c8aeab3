-- ===== src/Relay/Runway/Latest.antt =====
-- `foldUsage` of packages/relay/src/lib/runway.ts against a description of what it gives.
use inzo.Prelude.{
  ℕ, zero, suc, ◌+◌, ◌≡◌, refl, ap, ◌∙◌, String, Bool, true, false, not, ◌||◌, List, [], ◌∷◌,
  Option, none, some, arith, filter, includes, length, is_empty, Bool-cases, inl, inr, ◌==◌,
  if◌then◌else◌,
}
use inzo.Relay.Runway.{
  Numbers, UsageReport, AgentUsage, empty_agent_usage, add_agent, start_buckets, reported,
  add_report, add_reports, fold_usage,
}

module _ (n : Numbers) where
  abbrev pub usage_of : List (String × AgentUsage n) → String → Option (AgentUsage n)
  usage_of [] agent_id = none
  usage_of ((a, u) ∷ buckets) agent_id = if a == agent_id then some u else usage_of buckets agent_id

  -- The last of some reports, of which there is at least one.
  abbrev pub latest : UsageReport n → List (UsageReport n) → UsageReport n
  latest r [] = r
  latest r (s ∷ reports) = latest s reports

  -- What is known of an agent from its own reports.
  abbrev pub standing : List (UsageReport n) → AgentUsage n
  standing [] = empty_agent_usage n
  standing (r ∷ reports) =
      let last = latest r reports in
      record {
        tokens_used = last.tokens_used;
        cost_usd = last.cost_usd;
        wall_clock_ms = last.wall_clock_ms;
        progress_pct = last.progress_pct;
        report_count = length (r ∷ reports);
        last_reported_at = some last.created_at;
      }

  abbrev pub own : String → List (UsageReport n) → List (UsageReport n)
  own agent_id = filter (λ r. r.agent_id == agent_id)

  abbrev or_empty : Option (AgentUsage n) → AgentUsage n
  or_empty none = empty_agent_usage n
  or_empty (some u) = u

  abbrev fold_own : List (UsageReport n) → Option (AgentUsage n) → Option (AgentUsage n)
  fold_own [] found = found
  fold_own (r ∷ reports) found = fold_own reports (some (reported n r (or_empty found)))

  usage_of-add_agent :
      (buckets : List (String × AgentUsage n)) (x a : String)
      → usage_of (add_agent n buckets x) a
        ≡ (if x == a then some (empty_agent_usage n) else usage_of buckets a)
  usage_of-add_agent [] x a = refl
  usage_of-add_agent ((b, u) ∷ buckets) x a = ground (arith, usage_of-add_agent buckets x a)

  usage_of-start_buckets :
      (agents : List String) (buckets : List (String × AgentUsage n)) (a : String)
      → usage_of (start_buckets n agents buckets) a
        ≡ (if includes agents a then some (empty_agent_usage n) else usage_of buckets a)
  usage_of-start_buckets [] buckets a = refl
  usage_of-start_buckets (x ∷ agents) buckets a = ground (
    arith,
    usage_of-start_buckets agents (add_agent n buckets x) a,
    usage_of-add_agent buckets x a,
  )

  usage_of-add_report :
      (buckets : List (String × AgentUsage n)) (r : UsageReport n) (a : String)
      → usage_of (add_report n buckets r) a ≡ (
          if r.agent_id == a
          then some (reported n r (or_empty (usage_of buckets a)))
          else usage_of buckets a)
  usage_of-add_report [] r a = refl
  usage_of-add_report ((b, u) ∷ buckets) r a = ground (arith, usage_of-add_report buckets r a)

  usage_of-add_reports :
      (reports : List (UsageReport n)) (buckets : List (String × AgentUsage n)) (a : String)
      → usage_of (add_reports n reports buckets) a ≡ fold_own (own a reports) (usage_of buckets a)
  usage_of-add_reports [] buckets a = refl
  usage_of-add_reports (r ∷ reports) buckets a =
      usage_of-add_reports reports (add_report n buckets r) a
      ∙ elim (Bool-cases (r.agent_id == a)) [
        | inl e ↦ rw (usage_of-add_report buckets r a, e) refl
        | inr e ↦ rw (usage_of-add_report buckets r a, e) refl
      ]

  abbrev with_count : AgentUsage n → ℕ → AgentUsage n
  with_count u k = record u { report_count = k }

  fold_own-latest :
      (r : UsageReport n) (reports : List (UsageReport n)) (found : Option (AgentUsage n))
      → fold_own (r ∷ reports) found
        ≡ some (
            with_count
              (standing (r ∷ reports))
              ((or_empty found).report_count + length (r ∷ reports)))
  fold_own-latest r [] found =
      let before = (or_empty found).report_count in
      let same : before + 1 ≡ before + suc zero = omega arith in
      ap (λ k. some (with_count (standing (r ∷ [])) k)) same
  fold_own-latest r (s ∷ reports) found =
      let before = (or_empty found).report_count in
      let same : before + 1 + length (s ∷ reports) ≡ before + length (r ∷ s ∷ reports) =
        omega arith in
      fold_own-latest s reports (some (reported n r (or_empty found)))
      ∙ ap (λ k. some (with_count (standing (s ∷ reports)) k)) same

  fold_own-standing :
      (reports : List (UsageReport n)) (known : Bool)
      → fold_own reports (if known then some (empty_agent_usage n) else none)
        ≡ (if known || not (is_empty reports) then some (standing reports) else none)
  fold_own-standing [] true = refl
  fold_own-standing [] false = refl
  fold_own-standing (r ∷ reports) true =
      let same : 0 + length (r ∷ reports) ≡ length (r ∷ reports) = omega arith in
      fold_own-latest r reports (some (empty_agent_usage n))
      ∙ ap (λ k. some (with_count (standing (r ∷ reports)) k)) same
  fold_own-standing (r ∷ reports) false =
      let same : 0 + length (r ∷ reports) ≡ length (r ∷ reports) = omega arith in
      fold_own-latest r reports none ∙ ap (λ k. some (with_count (standing (r ∷ reports)) k)) same

  -- The usage of an agent is its latest report alone, with the number of its reports, whatever the
  -- others report in between: nothing is summed, so an agent's earlier reports leave no trace but
  -- that number. A member without a report is there with nothing, anybody else is not there.
  pub fold_usage-latest :
      (pairing_id : String) (agent_ids : List String) (reports : List (UsageReport n)) (a : String)
      → usage_of (fold_usage n pairing_id agent_ids reports).by_agent a ≡ (
          if includes agent_ids a || not (is_empty (own a reports))
          then some (standing (own a reports))
          else none)
  unfolding fold_usage
  fold_usage-latest pairing_id agent_ids reports a =
      usage_of-add_reports reports (start_buckets n agent_ids []) a
      ∙ ap (fold_own (own a reports)) (usage_of-start_buckets agent_ids [] a)
      ∙ fold_own-standing (own a reports) (includes agent_ids a)
