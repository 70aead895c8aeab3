-- ===== src/Relay/Usage/Reporting.antt =====
-- What a report changes: `reportUsage` and `getUsage` of packages/relay/src/lib/store.ts.
use inzo.Prelude.{
  ℕ, suc, ◌+◌, ◌≡◌, refl, sym, ap, ◌∙◌, subst, String, true, false, not, ◌||◌, List, [], ◌∷◌, ◌++◌,
  some, ok, arith, attempt-eq-ok, all, filter, filter-append, all-filter, includes, is_empty,
  length, leb, ◌==◌, ==_refl, >>=-eq-ok, guard-eq-ok, ok-injective,
}
use inzo.Relay.Errors.{bad_request}
use inzo.Relay.Store.State.{Pairing, get_pairing, get_members, member_pairing, publish}
use inzo.Relay.Runway.{Numbers, UsageReport, AgentUsage, CombinedUsage, fold_usage}
use inzo.Relay.Runway.Latest.{usage_of, latest, standing, own, fold_usage-latest}
use inzo.Relay.Usage.{
  Ledger, UsageInput, amount, checked_report, report_usage, insert_by_time, sort_by_time,
  get_usage_reports, get_usage,
}

module _ (n : Numbers) where
  insert_by_time-append :
      (x : UsageReport n) (reports : List (UsageReport n)) (r : UsageReport n)
      → leb x.created_at r.created_at ≡ true
      → insert_by_time n x (reports ++ r ∷ []) ≡ insert_by_time n x reports ++ r ∷ []
  insert_by_time-append x [] r h = rw h refl
  insert_by_time-append x (s ∷ reports) r h = ground (arith, insert_by_time-append x reports r)

  sort_by_time-append :
      (reports : List (UsageReport n)) (r : UsageReport n)
      → all (λ s. leb s.created_at r.created_at) reports ≡ true
      → sort_by_time n (reports ++ r ∷ []) ≡ sort_by_time n reports ++ r ∷ []
  sort_by_time-append [] r h = refl
  sort_by_time-append (x ∷ reports) r h =
      ap (insert_by_time n x) (sort_by_time-append reports r (ground arith))
      ∙ insert_by_time-append x (sort_by_time n reports) r (ground arith)

  latest-append :
      (x : UsageReport n) (reports : List (UsageReport n)) (r : UsageReport n)
      → latest n x (reports ++ r ∷ []) ≡ r
  latest-append x [] r = refl
  latest-append x (s ∷ reports) r = latest-append s reports r

  -- The usage of an agent whose latest report is given.
  abbrev pub showing : UsageReport n → ℕ → AgentUsage n
  showing r count = record {
    tokens_used = r.tokens_used;
    cost_usd = r.cost_usd;
    wall_clock_ms = r.wall_clock_ms;
    progress_pct = r.progress_pct;
    report_count = count;
    last_reported_at = some r.created_at;
  }

  length-append_one :
      (reports : List (UsageReport n)) (r : UsageReport n)
      → length (reports ++ r ∷ []) ≡ length reports + 1
  length-append_one [] r = omega arith
  length-append_one (x ∷ reports) r = omega (arith, length-append_one reports r)

  standing-append :
      (reports : List (UsageReport n)) (r : UsageReport n)
      → standing n (reports ++ r ∷ []) ≡ showing r (length reports + 1)
  standing-append [] r = let same : suc 0 ≡ 0 + 1 = omega arith in ap (showing r) same
  standing-append (x ∷ reports) r =
      ap (λ l. showing l (length (x ∷ reports ++ r ∷ []))) (latest-append x reports r)
      ∙ ap (showing r) (length-append_one (x ∷ reports) r)

  -- What a report that is taken makes of the ledger.
  abbrev pub with_report : Ledger n → String → UsageReport n → Ledger n
  with_report l pairing_id r = record l {
    store = publish l.store "usage.reported" pairing_id;
    reports = l.reports ++ r ∷ [];
  }

  pub checked_report-eq-ok :
      (pairing_id agent_id : String) (input : UsageInput n) (id : String) (now : ℕ)
      (r : UsageReport n)
      → checked_report n pairing_id agent_id input id now ≡ ok r
      → (r.pairing_id ≡ pairing_id) × (r.agent_id ≡ agent_id) × (r.created_at ≡ now)
  unfolding checked_report
  checked_report-eq-ok pairing_id agent_id input id now r h =
      let (tokens, _, h₁) = >>=-eq-ok (amount n input.tokens_used) _ h in
      let (cost, _, h₂) = >>=-eq-ok (amount n input.cost_usd) _ h₁ in
      let (clock, _, h₃) = >>=-eq-ok (amount n input.wall_clock_ms) _ h₂ in
      let (progress, _, h₄) = >>=-eq-ok (amount n input.progress_pct) _ h₃ in
      let (_, h₅) = guard-eq-ok (not (n.lt (n.literal 100) progress)) bad_request _ h₄ in
      let same = ok-injective h₅ in
      (
        sym (ap (λ (q : UsageReport n). q.pairing_id) same),
        sym (ap (λ (q : UsageReport n). q.agent_id) same),
        sym (ap (λ (q : UsageReport n). q.created_at) same),
      )

  report_usage-eq-ok :
      (l l' : Ledger n) (pairing_id agent_id : String) (input : UsageInput n) (id : String)
      (now : ℕ) (r : UsageReport n)
      → report_usage n l pairing_id agent_id input id now ≡ (l', ok r)
      → (pairing : Pairing) × (get_pairing l.store pairing_id ≡ ok pairing)
        × (checked_report n pairing_id agent_id input id now ≡ ok r)
        × (with_report l pairing_id r ≡ l')
  unfolding report_usage
  report_usage-eq-ok l l' pairing_id agent_id input id now r h =
      let (pairing, member, h₁) =
        attempt-eq-ok l l' (member_pairing l.store pairing_id agent_id) _ r h in
      let (found, there, _) = >>=-eq-ok (get_pairing l.store pairing_id) _ member in
      let (made, checked, h₂) =
        attempt-eq-ok l l' (checked_report n pairing_id agent_id input id now) _ r h₁ in
      let same : made ≡ r = ok-injective (ap (λ q. q.1) h₂) in
      (
        found,
        there,
        checked ∙ ap ok same,
        subst (λ (q : UsageReport n). with_report l pairing_id q ≡ l') same (ap (λ q. q.0) h₂),
      )

  -- Nothing that is published changes what a pairing is.
  pub get_pairing-with_report :
      (l : Ledger n) (r : UsageReport n) (pairing_id : String)
      → get_pairing (with_report l pairing_id r).store pairing_id ≡ get_pairing l.store pairing_id
  unfolding get_pairing get_members
  get_pairing-with_report l r pairing_id = refl

  is_empty-append_one :
      (reports : List (UsageReport n)) (r : UsageReport n) → is_empty (reports ++ r ∷ []) ≡ false
  is_empty-append_one [] r = refl
  is_empty-append_one (x ∷ reports) r = refl

  -- The reports of a pairing with one more, no earlier than the others.
  get_usage_reports-append :
      (l : Ledger n) (pairing_id : String) (r : UsageReport n)
      → all (λ s. leb s.created_at r.created_at) l.reports ≡ true
      → get_usage_reports n (with_report l pairing_id r) r.pairing_id
        ≡ get_usage_reports n l r.pairing_id ++ r ∷ []
  get_usage_reports-append l pairing_id r h =
      let same : filter (λ s. s.pairing_id == r.pairing_id) (l.reports ++ r ∷ [])
          ≡ filter (λ s. s.pairing_id == r.pairing_id) l.reports ++ r ∷ [] =
        filter-append (λ s. s.pairing_id == r.pairing_id) l.reports (r ∷ [])
        ∙ rw (==_refl r.pairing_id) refl in
      ap (sort_by_time n) same
      ∙ sort_by_time-append (filter (λ s. s.pairing_id == r.pairing_id) l.reports) r (
          all-filter (λ s. s.pairing_id == r.pairing_id) (λ s. leb s.created_at r.created_at)
            l.reports h)

  own-append :
      (reports : List (UsageReport n)) (r : UsageReport n)
      → own n r.agent_id (reports ++ r ∷ []) ≡ own n r.agent_id reports ++ r ∷ []
  own-append reports r =
      filter-append (λ s. s.agent_id == r.agent_id) reports (r ∷ []) ∙ rw (==_refl r.agent_id) refl

  fold_usage-append :
      (pairing_id : String) (agents : List String) (reports : List (UsageReport n))
      (r : UsageReport n)
      → usage_of n (fold_usage n pairing_id agents (reports ++ r ∷ [])).by_agent r.agent_id
        ≡ some (showing r (length (own n r.agent_id reports) + 1))
  fold_usage-append pairing_id agents reports r =
      let mine = own n r.agent_id reports in
      let known : (includes agents r.agent_id || not (is_empty (mine ++ r ∷ []))) ≡ true =
        ground (arith, is_empty-append_one mine r) in
      fold_usage-latest n pairing_id agents (reports ++ r ∷ []) r.agent_id
      ∙ rw (own-append reports r, known) (ap some (standing-append mine r))

  -- After a report is taken, no earlier than the others, the pairing's usage can be read and shows
  -- this report as the usage of the agent that made it, with one report more than before.
  pub report_usage-shows :
      (l l' : Ledger n) (pairing_id agent_id : String) (input : UsageInput n) (id : String)
      (now : ℕ) (r : UsageReport n)
      → all (λ s. leb s.created_at now) l.reports ≡ true
      → report_usage n l pairing_id agent_id input id now ≡ (l', ok r)
      → (usage : CombinedUsage n) × (get_usage n l' pairing_id ≡ ok usage)
        × (usage_of n usage.by_agent agent_id
            ≡ some (showing r (length (own n agent_id (get_usage_reports n l pairing_id)) + 1)))
  unfolding get_usage
  report_usage-shows l l' pairing_id agent_id input id now r later h =
      let (pairing, there, checked, left) =
        report_usage-eq-ok l l' pairing_id agent_id input id now r h in
      let (of_pairing, by, at) = checked_report-eq-ok pairing_id agent_id input id now r checked in
      let usage = fold_usage n pairing_id pairing.members (get_usage_reports n l' pairing_id) in
      let last : all (λ s. leb s.created_at r.created_at) l.reports ≡ true =
        subst (λ t. all (λ s. leb s.created_at t) l.reports ≡ true) (sym at) later in
      let known : get_pairing l'.store pairing_id ≡ ok pairing =
        subst (λ (q : Ledger n). get_pairing q.store pairing_id ≡ ok pairing) left
          (get_pairing-with_report l r pairing_id ∙ there) in
      let reports : get_usage_reports n l' pairing_id ≡ get_usage_reports n l pairing_id ++ r ∷ [] =
        subst (λ p. get_usage_reports n l' p ≡ get_usage_reports n l p ++ r ∷ []) of_pairing
          (subst
            (λ q. get_usage_reports n q r.pairing_id ≡ get_usage_reports n l r.pairing_id ++ r ∷ [])
            left (get_usage_reports-append l pairing_id r last)) in
      (
        usage,
        rw known refl,
        rw reports (
            subst
              (λ a.
                usage_of n
                  (fold_usage n pairing_id pairing.members
                    (get_usage_reports n l pairing_id ++ r ∷ [])).by_agent
                  a
                ≡ some (showing r (length (own n a (get_usage_reports n l pairing_id)) + 1)))
              by
              (fold_usage-append pairing_id pairing.members (get_usage_reports n l pairing_id) r)),
      )
