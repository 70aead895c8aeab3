-- ===== src/Relay/RateLimit/Window.antt =====
-- What the limiter of packages/relay/src/lib/rateLimit.ts answers, against the history of its calls.
use inzo.Prelude.{
  ℕ, ◌≤◌, ◌≡◌, refl, sym, ap, ◌∙◌, subst, String, Bool, true, false, List, [], ◌∷◌, ◌++◌, filter,
  filter-append, length, is_empty, leb, ◌==◌, ==_refl, string_dec, if◌then◌else◌, arith,
}
use inzo.Relay.RateLimit.{
  FailureLimiter, fresh_limiter, failures_of, set_failures, delete_failures, in_window, recent,
  is_limited, record_failure, clear,
}

failures_of-set_failures :
    (key k : String) (times : List ℕ) (failures : List (String × List ℕ))
    → failures_of key (set_failures k times failures)
      ≡ (if k == key then times else failures_of key failures)
failures_of-set_failures key k times [] = refl
failures_of-set_failures key k times ((j, old) ∷ failures) =
    ground (arith, failures_of-set_failures key k times failures)

failures_of-delete_failures :
    (key k : String) (failures : List (String × List ℕ))
    → failures_of key (delete_failures k failures)
      ≡ (if k == key then [] else failures_of key failures)
failures_of-delete_failures key k [] = ground arith
failures_of-delete_failures key k ((j, old) ∷ failures) =
    ground (arith, failures_of-delete_failures key k failures)

-- The calls that the relay makes.
pub data Call : Type 0 where
  failed : (key : String) (at : ℕ) → Call
  asked : (key : String) (at : ℕ) → Call
  cleared : (key : String) → Call

abbrev pub after_call : FailureLimiter → Call → FailureLimiter
after_call l (failed key at) = record_failure l key at
after_call l (asked key at) = (is_limited l key at).0
after_call l (cleared key) = clear l key

abbrev pub after_calls : FailureLimiter → List Call → FailureLimiter
after_calls l [] = l
after_calls l (call ∷ calls) = after_calls (after_call l call) calls

-- The failures of a key that its history counts: all since it was cleared.
abbrev pub counted : String → List ℕ → List Call → List ℕ
counted key times [] = times
counted key times (failed k at ∷ calls) =
    counted key (if k == key then times ++ at ∷ [] else times) calls
counted key times (asked k at ∷ calls) = counted key times calls
counted key times (cleared k ∷ calls) = counted key (if k == key then [] else times) calls

-- No call is made after a time.
abbrev pub MadeBy : ℕ → List Call → Type 0
MadeBy now [] = Unit {0}
MadeBy now (failed key at ∷ calls) = (at ≤ now) × MadeBy now calls
MadeBy now (asked key at ∷ calls) = (at ≤ now) × MadeBy now calls
MadeBy now (cleared key ∷ calls) = MadeBy now calls

filter_later :
    (window at now : ℕ) (times : List ℕ)
    → at ≤ now
    → filter (in_window window now) (filter (in_window window at) times)
      ≡ filter (in_window window now) times
filter_later window at now [] h = refl
filter_later window at now (t ∷ times) h = ground (arith, filter_later window at now times)

failures_of-stored :
    (key k : String) (times : List ℕ) (failures : List (String × List ℕ))
    → failures_of key
        (if is_empty times then delete_failures k failures else set_failures k times failures)
      ≡ (if k == key then times else failures_of key failures)
failures_of-stored key k [] failures = failures_of-delete_failures key k failures
failures_of-stored key k (t ∷ times) failures = failures_of-set_failures key k (t ∷ times) failures

failures_of-recent :
    (l : FailureLimiter) (key k : String) (at : ℕ)
    → failures_of key (recent l k at).0.failures ≡ (
        if k == key
        then filter (in_window l.window_ms at) (failures_of key l.failures)
        else failures_of key l.failures)
unfolding recent
failures_of-recent l key k at =
    failures_of-stored key k (filter (in_window l.window_ms at) (failures_of k l.failures))
      l.failures
    ∙ elim (string_dec k key) [ yes e ↦ rw e refl | no ne ↦ ground arith ]

module _ (key : String) (now : ℕ) where
  abbrev alive : FailureLimiter → List ℕ → List ℕ
  alive l = filter (in_window l.window_ms now)

  recent-alive :
      (l : FailureLimiter) (k : String) (at : ℕ)
      → at ≤ now
      → alive l (failures_of key (recent l k at).0.failures) ≡ alive l (failures_of key l.failures)
  recent-alive l k at h = ap (alive l) (failures_of-recent l key k at) ∙ elim (string_dec k key) [
    | yes e ↦ ground (arith, filter_later l.window_ms at now (failures_of key l.failures) h)
    | no ne ↦ ground arith
  ]

  record_failure-alive :
      (l : FailureLimiter) (k : String) (at : ℕ)
      → at ≤ now
      → alive l (failures_of key (record_failure l k at).failures)
        ≡ alive l
            (if k == key then failures_of key l.failures ++ at ∷ [] else failures_of key l.failures)
  unfolding record_failure recent
  record_failure-alive l k at h =
      let was = failures_of k l.failures in
      let seen = filter (in_window l.window_ms at) was in
      ap (alive l) (failures_of-set_failures key k (seen ++ at ∷ []) (recent l k at).0.failures)
      ∙ elim (string_dec k key) [
        | yes e ↦
            let here = filter_later l.window_ms at now was h in
            let left = filter-append (in_window l.window_ms now) seen (at ∷ []) in
            let right = filter-append (in_window l.window_ms now) was (at ∷ []) in
            subst
              (λ j.
                alive l
                  (if k == j then seen ++ at ∷ [] else failures_of j (recent l k at).0.failures)
                ≡ alive l (
                    if k == j
                    then failures_of j l.failures ++ at ∷ []
                    else failures_of j l.failures))
              e (rw (==_refl k) (left ∙ ap (λ ts. ts ++ alive l (at ∷ [])) here ∙ sym right))
        | no ne ↦ ground (arith, recent-alive l k at h)
      ]

  both_counted :
      (l : FailureLimiter) (same : Bool) (at : ℕ) (xs ys : List ℕ)
      → alive l xs ≡ alive l ys
      → alive l (if same then xs ++ at ∷ [] else xs) ≡ alive l (if same then ys ++ at ∷ [] else ys)
  both_counted l true at xs ys e =
      filter-append (in_window l.window_ms now) xs (at ∷ [])
      ∙ ap (λ ts. ts ++ alive l (at ∷ [])) e
      ∙ sym (filter-append (in_window l.window_ms now) ys (at ∷ []))
  both_counted l false at xs ys e = e

  clear-failures :
      (l : FailureLimiter) (k : String)
      → failures_of key (clear l k).failures ≡ (if k == key then [] else failures_of key l.failures)
  unfolding clear
  clear-failures l k = failures_of-delete_failures key k l.failures

  after_calls-alive :
      (l : FailureLimiter) (times : List ℕ) (calls : List Call)
      → MadeBy now calls
      → alive l (failures_of key l.failures) ≡ alive l times
      → alive l (failures_of key (after_calls l calls).failures) ≡ alive l (counted key times calls)
  unfolding recent is_limited record_failure clear
  after_calls-alive l times [] m e = e
  after_calls-alive l times (failed k at ∷ calls) (h, m) e =
      after_calls-alive (record_failure l k at) (if k == key then times ++ at ∷ [] else times) calls
        m
        (record_failure-alive l k at h
          ∙ both_counted l (k == key) at (failures_of key l.failures) times e)
  after_calls-alive l times (asked k at ∷ calls) (h, m) e =
      after_calls-alive (is_limited l k at).0 times calls m (recent-alive l k at h ∙ e)
  after_calls-alive l times (cleared k ∷ calls) m e =
      after_calls-alive (clear l k) (if k == key then [] else times) calls m
        (ap (alive l) (clear-failures l k) ∙ ground arith)

after_calls-settings :
    (l : FailureLimiter) (calls : List Call)
    → ((after_calls l calls).max_failures ≡ l.max_failures)
      × ((after_calls l calls).window_ms ≡ l.window_ms)
unfolding recent is_limited record_failure clear
after_calls-settings l [] = (refl, refl)
after_calls-settings l (failed k at ∷ calls) = after_calls-settings (record_failure l k at) calls
after_calls-settings l (asked k at ∷ calls) = after_calls-settings (is_limited l k at).0 calls
after_calls-settings l (cleared k ∷ calls) = after_calls-settings (clear l k) calls

-- The limiter forgets nothing that counts: whatever calls were made before, at whatever times and
-- for whatever keys, it limits a key exactly when the failures of that key since it was last
-- cleared, among those within the window, are as many as the maximum.
pub is_limited-counts :
    (max_failures window_ms now : ℕ) (key : String) (calls : List Call)
    → MadeBy now calls
    → (is_limited (after_calls (fresh_limiter max_failures window_ms) calls) key now).1
      ≡ leb max_failures (length (filter (in_window window_ms now) (counted key [] calls)))
unfolding is_limited recent
is_limited-counts max_failures window_ms now key calls m =
    let l = fresh_limiter max_failures window_ms in
    let (most, window) = after_calls-settings l calls in
    let same = after_calls-alive key now l [] calls m refl in
    ap
      (λ w.
        leb (after_calls l calls).max_failures
          (length (filter (in_window w now) (failures_of key (after_calls l calls).failures))))
      window
    ∙ ap (λ ts. leb (after_calls l calls).max_failures (length ts)) same
    ∙ ap (λ most. leb most (length (filter (in_window window_ms now) (counted key [] calls)))) most
