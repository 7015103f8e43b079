-- ===== src/Retry.antt =====
-- orchestrator/retry_policy.py: attempts and circuit breakers, by story and stage. A key
-- `(story_id, stage.value)` is the pair of the two. Backoffs are whole numbers of one unit of time,
-- and the factor is a whole number, as in the defaults; Python's floats are not modelled.
pub mod Attempts
pub mod Breaker
pub mod Backoff
mod Examples
use fastcoder.Base.{
  ℕ, ◌+◌, ◌*◌, ◌^◌, min, String, ◌≡◌, refl, Bool, true, false, ◌&&◌, List, [], ◌∷◌, ◌++◌, Option,
  none, some, leb, length, if◌then◌else◌, string_discrete, ite, not,
}
use fastcoder.Base.Dict
use fastcoder.Base.Dict.{Dict}
use fastcoder.Story.{StoryState, StoryState-discrete}
use mathlib.Core.Option
use mathlib.Core.Option.{get_or}

abbrev pub Key : Type 0
Key = String × StoryState

dec_pair : (j k : Key) → Dec (j.0 ≡ k.0) → Dec (j.1 ≡ k.1) → Dec (j ≡ k)
dec_pair j k (yes p) (yes q) = yes (λ i. (p i, q i))
dec_pair j k (no p) _ = no (λ e. p (λ i. (e i).0))
dec_pair j k (yes p) (no q) = no (λ e. q (λ i. (e i).1))

unfoldable pub Key-discrete : Discrete Key
unfolding dec_pair string_discrete StoryState-discrete
Key-discrete j k = dec_pair j k (string_discrete j.0 k.0) (StoryState-discrete j.1 k.1)

pub record RetryAttempt : Type 0 where
  pub story_id : String
  pub stage : StoryState
  pub attempt_number : ℕ
  pub success : Bool
  pub error_fingerprint : String
  pub timestamp : ℕ
  pub backoff_seconds : ℕ

pub record CircuitBreakerState : Type 0 where
  pub story_id : String
  pub stage : StoryState
  pub consecutive_failures : ℕ
  pub last_error_fingerprint : String
  pub last_failure_time : Option ℕ
  pub is_broken : Bool

pub record RetryPolicy : Type 0 where
  pub max_retries_per_stage : ℕ
  pub base_backoff_seconds : ℕ
  pub backoff_factor : ℕ
  pub max_backoff_seconds : ℕ
  pub circuit_breaker_threshold : ℕ
  pub attempts : Dict Key (List RetryAttempt)
  pub circuit_breakers : Dict Key CircuitBreakerState

-- `RetryPolicy(max_retries_per_stage=...)`, with the other arguments at their defaults.
unfoldable pub new : ℕ → RetryPolicy
new max_retries = record {
  max_retries_per_stage = max_retries;
  base_backoff_seconds = 1;
  backoff_factor = 2;
  max_backoff_seconds = 30;
  circuit_breaker_threshold = 3;
  attempts = [];
  circuit_breakers = [];
}

unfoldable pub get_attempts : RetryPolicy → Key → List RetryAttempt
unfolding Dict.get Key-discrete
get_attempts p key = get_or (Dict.get Key-discrete key p.attempts) []

unfoldable pub get_retry_count : RetryPolicy → Key → ℕ
unfolding get_attempts
get_retry_count p key = length (get_attempts p key)

unfoldable pub get_circuit_breaker_state : RetryPolicy → Key → Option CircuitBreakerState
unfolding Dict.get Key-discrete
get_circuit_breaker_state p key = Dict.get Key-discrete key p.circuit_breakers

abbrev broken : Option CircuitBreakerState → Bool
broken none = false
broken (some breaker) = breaker.is_broken

unfoldable pub is_circuit_broken : RetryPolicy → Key → Bool
unfolding get_circuit_breaker_state
is_circuit_broken p key = broken (get_circuit_breaker_state p key)

-- `error_context` is not read.
unfoldable pub should_retry : RetryPolicy → Key → Bool
unfolding is_circuit_broken get_retry_count
should_retry p key =
    if is_circuit_broken p key
    then false
    else (if leb p.max_retries_per_stage (get_retry_count p key) then false else true)

unfoldable pub get_backoff_seconds : RetryPolicy → ℕ → ℕ
get_backoff_seconds p attempt =
    min (p.base_backoff_seconds * p.backoff_factor ^ attempt) p.max_backoff_seconds

-- The breaker that `_update_circuit_breaker` finds, or makes if there is none.
abbrev pub fresh_breaker : Key → CircuitBreakerState
fresh_breaker key = record {
  story_id = key.0;
  stage = key.1;
  consecutive_failures = 0;
  last_error_fingerprint = "";
  last_failure_time = none;
  is_broken = false;
}

-- The two branches. On a failure the last fingerprint is written before it is compared.
unfoldable pub update_breaker : ℕ → ℕ → Bool → String → CircuitBreakerState → CircuitBreakerState
update_breaker threshold now true fp b = record b { consecutive_failures = 0; is_broken = false }
update_breaker threshold now false fp b =
    let b' : CircuitBreakerState = record b {
      consecutive_failures = b.consecutive_failures + 1;
      last_error_fingerprint = fp;
      last_failure_time = some now;
    } in
    if leb threshold b'.consecutive_failures
    then ite (string_discrete fp b'.last_error_fingerprint) (record b' { is_broken = true }) b'
    else b'

unfoldable pub update_circuit_breaker : ℕ → RetryPolicy → Key → Bool → String → RetryPolicy
unfolding get_circuit_breaker_state update_breaker Dict.put string_discrete
update_circuit_breaker now p key success fp = record p {
  circuit_breakers =
      Dict.put Key-discrete key
        (update_breaker p.circuit_breaker_threshold now success fp
          (get_or (get_circuit_breaker_state p key) (fresh_breaker key)))
        p.circuit_breakers;
}

unfoldable pub make_attempt : ℕ → RetryPolicy → Key → Bool → String → RetryAttempt
unfolding get_attempts get_backoff_seconds
make_attempt now p key success fp =
    let attempt_number = get_retry_count p key in
    record {
      story_id = key.0;
      stage = key.1;
      attempt_number = attempt_number;
      success = success;
      error_fingerprint = fp;
      timestamp = now;
      backoff_seconds = if not success then get_backoff_seconds p attempt_number else 0;
    }

unfoldable pub record_attempt : ℕ → RetryPolicy → Key → Bool → String → RetryPolicy × RetryAttempt
unfolding make_attempt update_circuit_breaker
record_attempt now p key success fp =
    let attempt = make_attempt now p key success fp in
    let p' : RetryPolicy = record p {
      attempts = Dict.put Key-discrete key (get_attempts p key ++ attempt ∷ []) p.attempts;
    } in
    (update_circuit_breaker now p' key success fp, attempt)

unfoldable pub reset : RetryPolicy → Key → RetryPolicy
unfolding Dict.remove Key-discrete
reset p key = record p {
  attempts = Dict.remove Key-discrete key p.attempts;
  circuit_breakers = Dict.remove Key-discrete key p.circuit_breakers;
}

unfoldable pub clear_all : RetryPolicy → RetryPolicy
clear_all p = record p { attempts = []; circuit_breakers = [] }
