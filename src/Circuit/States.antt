-- ===== src/Circuit/States.antt =====
-- The states that a breaker of circuit_breaker.py can be in.
use fastcoder.Base.{ℕ, ◌<◌, ◌≡◌, ◌≢◌, ◌↔◌, false, List, [], ◌∷◌, arith}
use fastcoder.Circuit.{
  opened, half_open, CircuitBreakerConfig, CircuitBreaker, new, get_state, can_execute,
  record_success, record_failure,
}

-- A call of a method, with the clock's reading.
pub data Call : Type 0 where
  query : ℕ → Call
  success : ℕ → Call
  failure : ℕ → Call

unfoldable pub apply : CircuitBreaker → Call → CircuitBreaker
unfolding can_execute record_success record_failure
apply b (query now) = (can_execute now b).0
apply b (success now) = record_success now b
apply b (failure now) = record_failure now b

unfoldable pub run : CircuitBreaker → List Call → CircuitBreaker
unfolding apply
run b [] = b
run b (c ∷ cs) = run (apply b c) cs

-- A breaker that is not open has counted fewer failures than open it, and one that is half open
-- fewer successes than close it.
pub record IsValid (config : CircuitBreakerConfig) (b : CircuitBreaker) : Type 0 where
  pub configured : b.config ≡ config
  pub failures : b.state ≢ opened → b.failure_count < config.failure_threshold
  pub successes : b.state ≡ half_open → b.success_count < config.half_open_max_calls

module _ (config : CircuitBreakerConfig) (some_failures : 0 < config.failure_threshold)
    (some_calls : 0 < config.half_open_max_calls) where
  get_state-IsValid :
      (now : ℕ) (b : CircuitBreaker) → IsValid config b → IsValid config (get_state now b)
  unfolding get_state
  get_state-IsValid now b h = ground arith

  record_success-IsValid :
      (now : ℕ) (b : CircuitBreaker) → IsValid config b → IsValid config (record_success now b)
  unfolding record_success
  record_success-IsValid now b h = ground arith

  record_failure-IsValid :
      (now : ℕ) (b : CircuitBreaker) → IsValid config b → IsValid config (record_failure now b)
  unfolding record_failure
  record_failure-IsValid now b h = ground arith

  apply-IsValid : (b : CircuitBreaker) (c : Call) → IsValid config b → IsValid config (apply b c)
  unfolding apply
  apply-IsValid b (query now) h = get_state-IsValid now b h
  apply-IsValid b (success now) h = record_success-IsValid now b h
  apply-IsValid b (failure now) h = record_failure-IsValid now b h

  run-IsValid : (cs : List Call) (b : CircuitBreaker) → IsValid config b → IsValid config (run b cs)
  unfolding run
  run-IsValid [] b h = h
  run-IsValid (c ∷ cs) b h = run-IsValid cs (apply b c) (apply-IsValid b c h)

  new-IsValid : IsValid config (new config)
  unfolding new
  new-IsValid = ground arith

  -- With a positive threshold and a positive `half_open_max_calls`, whatever is called, in any order
  -- and at any times, a breaker that is not open has counted fewer
  -- failures than open it, and a half-open one fewer successes than close it.
  pub run-new-IsValid : (cs : List Call) → IsValid config (run (new config) cs)
  run-new-IsValid cs = run-IsValid cs (new config) new-IsValid

  can_execute_unless_opened :
      (now : ℕ) (b : CircuitBreaker)
      → IsValid config b
      → (can_execute now b).1 ≡ false
      → (can_execute now b).0.state ≡ opened
  unfolding can_execute
  can_execute_unless_opened now b h e = ground (arith, get_state-IsValid now b h)

  opened_refuses :
      (now : ℕ) (b : CircuitBreaker)
      → (can_execute now b).0.state ≡ opened
      → (can_execute now b).1 ≡ false
  unfolding can_execute
  opened_refuses now b e = ground arith

  -- With a positive threshold and a positive `half_open_max_calls`, after any calls a request is refused exactly when the breaker is open: the test of
  -- `half_open_max_calls` in `can_execute` never fails, so a half-open breaker lets every request
  -- through, however many are under way.
  pub can_execute-eq-false_iff :
      (cs : List Call) (now : ℕ)
      → let b = run (new config) cs in
        ((can_execute now b).1 ≡ false) ↔ ((can_execute now b).0.state ≡ opened)
  can_execute-eq-false_iff cs now =
      let b = run (new config) cs in
      (can_execute_unless_opened now b (run-new-IsValid cs), opened_refuses now b)
