-- ===== src/Relay/RateLimit.antt =====
-- packages/relay/src/lib/rateLimit.ts: the sliding window of failed joins. The clock is an argument
-- of each call, read once in it.
pub mod Window
use inzo.Prelude.{
  ℕ, ◌+◌, String, Bool, true, false, not, List, [], ◌∷◌, ◌++◌, filter, length, is_empty, leb, ltb,
  ◌==◌, if◌then◌else◌,
}

pub record FailureLimiter : Type 0 where
  pub max_failures : ℕ
  pub window_ms : ℕ
  pub failures : List (String × List ℕ)

abbrev pub fresh_limiter : ℕ → ℕ → FailureLimiter
fresh_limiter max_failures window_ms = record {
  max_failures = max_failures;
  window_ms = window_ms;
  failures = [];
}

-- `failures.get(key) ?? []`
abbrev pub failures_of : String → List (String × List ℕ) → List ℕ
failures_of key [] = []
failures_of key ((k, times) ∷ failures) = if k == key then times else failures_of key failures

abbrev pub set_failures : String → List ℕ → List (String × List ℕ) → List (String × List ℕ)
set_failures key times [] = (key, times) ∷ []
set_failures key times ((k, old) ∷ failures) =
    if k == key then (k, times) ∷ failures else (k, old) ∷ set_failures key times failures

abbrev pub delete_failures : String → List (String × List ℕ) → List (String × List ℕ)
delete_failures key = filter (λ e. not (e.0 == key))

-- `at > now - windowMs`
abbrev pub in_window : ℕ → ℕ → ℕ → Bool
in_window window now at = ltb now (at + window)

unfoldable pub recent : FailureLimiter → String → (now : ℕ) → FailureLimiter × List ℕ
recent l key now =
    let times = filter (in_window l.window_ms now) (failures_of key l.failures) in
    (
      record l {
        failures =
            if is_empty times
            then delete_failures key l.failures
            else set_failures key times l.failures;
      },
      times,
    )

unfoldable pub is_limited : FailureLimiter → String → (now : ℕ) → FailureLimiter × Bool
is_limited l key now = let (l', times) = recent l key now in (l', leb l.max_failures (length times))

unfoldable pub record_failure : FailureLimiter → String → (now : ℕ) → FailureLimiter
record_failure l key now =
    let (l', times) = recent l key now in
    record l' { failures = set_failures key (times ++ now ∷ []) l'.failures }

unfoldable pub clear : FailureLimiter → String → FailureLimiter
clear l key = record l { failures = delete_failures key l.failures }
