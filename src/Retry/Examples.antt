-- ===== src/Retry/Examples.antt =====
-- Runs of the retry policy.
use fastcoder.Base.{ℕ, Bool, String, ◌≤◌, ◌≡◌, refl, true, false, List, [], ◌∷◌, arith, leb}
use fastcoder.Story.{testing, coding}
use fastcoder.Retry.{
  Key, new, get_retry_count, should_retry, is_circuit_broken, get_circuit_breaker_state,
  record_attempt,
}
use fastcoder.Retry.Attempts.{Event, attempt, run, try, try_all, get_retry_count-try_all-le}
use fastcoder.Retry.Breaker.{
  Outcome, record_all, failures_since, is_circuit_broken-record_all, should_retry_unlike_errors,
}

abbrev key : Key
key = ("s1", testing)

abbrev other : Key
other = ("s1", coding)

abbrev events : List Event
events = attempt 1 key false "e1" ∷ attempt 2 other true "" ∷ attempt 3 key false "e2" ∷ []

events_count : get_retry_count (run (new 5) events) key ≡ 2
unfolding run new get_retry_count
events_count = refl

abbrev uses : List (ℕ × Key × Bool × String)
uses = (1, key, true, "") ∷ (2, key, false, "a") ∷ (3, other, false, "a") ∷ (4, key, true, "") ∷ []

-- With a bound of 2, the third use for the key is not recorded.
uses_bounded : get_retry_count (try_all (new 2) uses) key ≡ 2
unfolding try_all try should_retry record_attempt new get_retry_count
uses_bounded = refl

get_retry_count-try_all-le_example : get_retry_count (try_all (new 2) uses) key ≤ 2
get_retry_count-try_all-le_example = get_retry_count-try_all-le 2 uses key

abbrev outcomes : List Outcome
outcomes =
    (1, false, "a") ∷ (2, true, "") ∷ (3, false, "a") ∷ (4, false, "a") ∷ (5, false, "a") ∷ []

is_circuit_broken-record_all_example :
    is_circuit_broken (record_all (new 5) key outcomes) key ≡ leb 3 (failures_since 0 outcomes)
unfolding new get_circuit_breaker_state
is_circuit_broken-record_all_example =
    is_circuit_broken-record_all key 3 (omega arith) (new 5) outcomes refl refl

-- The last three of the outcomes open the breaker.
outcomes_open : is_circuit_broken (record_all (new 5) key outcomes) key ≡ true
unfolding record_all new is_circuit_broken
outcomes_open = refl

should_retry_unlike_errors_example :
    should_retry
      (record_all (new 5) key ((1, false, "a") ∷ (2, false, "b") ∷ (3, false, "c") ∷ []))
      key
    ≡ false
should_retry_unlike_errors_example = should_retry_unlike_errors 5 key 1 2 3 "a" "b" "c"
