-- ===== src/Relay/Tests/Usages.antt =====
-- Examples for usage reports, with whole numbers in place of JavaScript's.
use inzo.Prelude.{
  ◌≡◌, string_dec, ℕ, ◌+◌, ◌-◌, ◌*◌, ◌/◌, refl, false, [], ◌∷◌, some, ok, ltb, leb, List, ◌++◌,
  String,
}
use inzo.Relay.Store.State.{Store, get_pairing, get_members, publish}
use inzo.Relay.Runway.{Numbers, UsageReport, CombinedUsage, fold_usage}
use inzo.Relay.Runway.Latest.{usage_of, own, standing, fold_usage-latest}
use inzo.Relay.Usage.{number, UsageInput, Ledger, checked_report, report_usage, get_usage}
use inzo.Relay.Usage.Reporting.{showing, report_usage-shows}

abbrev pub whole : Numbers
whole = record {
  Number = ℕ;
  literal = λ k. k;
  add = λ a b. a + b;
  sub = λ a b. a - b;
  mul = λ a b. a * b;
  div = λ a b. a / b;
  lt = ltb;
  le = leb;
  math_round = λ a. a;
  clamp = λ a. a;
  is_nan = λ a. false;
  as_date = λ a. some a;
}

abbrev pub paired : Store
paired = record {
  codes = [];
  tokens = [];
  pairings = record { id = "p"; code = "C"; agent_a = "ada"; agent_b = "bob"; created_at = 1 } ∷ [];
  members =
      record { pairing_id = "p"; agent_id = "ada"; joined_at = 1 }
      ∷ record { pairing_id = "p"; agent_id = "bob"; joined_at = 2 }
      ∷ [];
  messages = [];
  plans = [];
  plan_waits = [];
  disposed = [];
  trust = record {
    principals = [];
    credentials = [];
    revoked_jtis = [];
    consents = [];
    audit = [];
  };
  events = [];
}

abbrev pub report : (agent_id : String) → (tokens_used created_at : ℕ) → UsageReport whole
report agent_id tokens_used created_at = record {
  id = "u";
  pairing_id = "p";
  agent_id = agent_id;
  tokens_used = tokens_used;
  cost_usd = 2;
  wall_clock_ms = 60000;
  progress_pct = 10;
  created_at = created_at;
}

abbrev pub earlier : List (UsageReport whole)
earlier = report "ada" 100 5 ∷ report "bob" 30 6 ∷ []

abbrev pub ledger : Ledger whole
ledger = record { store = paired; budgets = []; reports = earlier }

abbrev pub input : UsageInput whole
input = record {
  tokens_used = number 250;
  cost_usd = number 2;
  wall_clock_ms = number 60000;
  progress_pct = number 10;
}

fold_usage-latest_example :
    usage_of whole (fold_usage whole "p" ("ada" ∷ "bob" ∷ []) (earlier ++ earlier)).by_agent "ada"
    ≡ some (standing whole (own whole "ada" (earlier ++ earlier)))
unfolding string_dec
fold_usage-latest_example =
    fold_usage-latest whole "p" ("ada" ∷ "bob" ∷ []) (earlier ++ earlier) "ada"

abbrev told : Ledger whole
told = record {
  store = publish paired "usage.reported" "p";
  budgets = [];
  reports = earlier ++ report "ada" 250 9 ∷ [];
}

report_usage-shows_example :
    (usage : CombinedUsage whole) × (get_usage whole told "p" ≡ ok usage)
    × (usage_of whole usage.by_agent "ada" ≡ some (showing whole (report "ada" 250 9) 2))
unfolding report_usage checked_report get_pairing get_members string_dec
report_usage-shows_example =
    report_usage-shows whole ledger told "p" "ada" input "u" 9 (report "ada" 250 9) refl refl
