-- ===== src/Circuit.antt =====
-- llm/circuit_breaker.py: the circuit breaker of a provider, and the registry of breakers. Times and
-- the timeout are whole microseconds; each reading of the clock is an argument.
pub mod States
pub mod Recovery
pub mod Registry
mod Examples
use fastcoder.Base.{
  ℕ, ◌+◌, ◌-◌, ◌*◌, String, Bool, true, false, List, [], ◌∷◌, Option, none, some, leb, ltb,
  if◌then◌else◌,
}

pub data CircuitState : Type 0 where
  closed opened half_open : CircuitState

pub record CircuitBreakerConfig : Type 0 where
  pub failure_threshold : ℕ
  pub recovery_timeout_seconds : ℕ
  pub half_open_max_calls : ℕ

abbrev pub default_config : CircuitBreakerConfig
default_config = record {
  failure_threshold = 5;
  recovery_timeout_seconds = 60;
  half_open_max_calls = 2;
}

pub record CircuitBreaker : Type 0 where
  pub config : CircuitBreakerConfig
  pub failure_count : ℕ
  pub success_count : ℕ
  pub last_failure_time : Option ℕ
  pub state : CircuitState

unfoldable pub new : CircuitBreakerConfig → CircuitBreaker
new config = record {
  config = config;
  failure_count = 0;
  success_count = 0;
  last_failure_time = none;
  state = closed;
}

-- `timedelta(seconds=...)`
abbrev pub timeout : CircuitBreakerConfig → ℕ
timeout config = config.recovery_timeout_seconds * 1000000

-- The `if` of `get_state`, on the state and the time of the last failure. The elapsed time is
-- `now - last`, which is at least the timeout exactly if `last + timeout` is at most `now`.
refresh : ℕ → CircuitState → Option ℕ → CircuitBreaker → CircuitBreaker
refresh now opened (some last) b =
    if leb (last + timeout b.config) now
    then record b { state = half_open; failure_count = 0; success_count = 0 }
    else b
refresh now _ _ b = b

-- `get_state` changes the breaker: its result is the new breaker's `state`.
unfoldable pub get_state : ℕ → CircuitBreaker → CircuitBreaker
unfolding refresh
get_state now b = refresh now b.state b.last_failure_time b

allows : CircuitState → CircuitBreaker → Bool
allows closed b = true
allows opened b = false
allows half_open b = ltb b.success_count b.config.half_open_max_calls

unfoldable pub can_execute : ℕ → CircuitBreaker → CircuitBreaker × Bool
unfolding get_state allows
can_execute now b = let b' = get_state now b in (b', allows b'.state b')

close_if : CircuitState → CircuitBreaker → CircuitBreaker
close_if half_open b =
    if leb b.config.half_open_max_calls b.success_count
    then record b { state = closed; success_count = 0 }
    else b
close_if _ b = b

unfoldable pub record_success : ℕ → CircuitBreaker → CircuitBreaker
unfolding get_state close_if
record_success now b =
    let b' = get_state now (record b {
      failure_count = 0;
      success_count = b.success_count + 1;
      last_failure_time = none;
    }) in
    close_if b'.state b'

unfoldable pub record_failure : ℕ → CircuitBreaker → CircuitBreaker
record_failure now b =
    let b' : CircuitBreaker = record b {
      failure_count = b.failure_count + 1;
      last_failure_time = some now;
      success_count = 0;
    } in
    if leb b'.config.failure_threshold b'.failure_count then record b' { state = opened } else b'

-- The dictionary of `get_status`, less the provider's name, which the breaker is filed under.
pub record Status : Type 0 where
  pub state : CircuitState
  pub failure_count : ℕ
  pub success_count : ℕ
  pub last_failure_time : Option ℕ
  pub failure_threshold : ℕ

unfoldable pub get_status : ℕ → CircuitBreaker → CircuitBreaker × Status
unfolding get_state
get_status now b =
    let b' = get_state now b in
    (
      b',
      record {
        state = b'.state;
        failure_count = b'.failure_count;
        success_count = b'.success_count;
        last_failure_time = b'.last_failure_time;
        failure_threshold = b'.config.failure_threshold;
      },
    )
