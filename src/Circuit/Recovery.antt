-- ===== src/Circuit/Recovery.antt =====
-- How a breaker of circuit_breaker.py opens, recovers, and fails to.
use fastcoder.Base.{
  ℕ, suc, ◌+◌, ◌≤◌, ◌<◌, ◌≡◌, refl, ◌⊎◌, inl, inr, true, false, List, [], ◌∷◌, none, some, arith,
  leb, length, map, All, Bool-cases, leb→le, ap,
}
use fastcoder.Circuit.{
  closed, opened, half_open, CircuitBreakerConfig, CircuitBreaker, new, can_execute, record_success,
  record_failure, timeout,
}
use fastcoder.Circuit.States.{Call, query, success, failure, apply, run}

-- A closed breaker that has counted `n` failures, and one more than enough of them.
record Counted (threshold n : ℕ) (b : CircuitBreaker) : Type 0 where
  limit : b.config.failure_threshold ≡ threshold
  count : b.failure_count ≡ n
  still : n < threshold → b.state ≡ closed
  trip : threshold ≤ n → b.state ≡ opened

record_failure-Counted :
    (threshold n now : ℕ) (b : CircuitBreaker)
    → Counted threshold n b
    → Counted threshold (suc n) (record_failure now b)
unfolding record_failure
record_failure-Counted threshold n now b h = ground arith

failures-Counted :
    (times : List ℕ) (threshold n : ℕ) (b : CircuitBreaker)
    → Counted threshold n b
    → Counted threshold (n + length times) (run b (map failure times))
unfolding run apply
failures-Counted [] threshold n b h = ground arith
failures-Counted (t ∷ ts) threshold n b h = ground (
  arith,
  failures-Counted ts threshold (suc n) (record_failure t b),
  record_failure-Counted threshold n t b h,
)

-- A new breaker, with a threshold of at least 1, stays closed under fewer failures in a row than the
-- threshold, and is open from then on.
pub opens_at_threshold :
    (config : CircuitBreakerConfig) (times : List ℕ)
    → 0 < config.failure_threshold
    → let b = run (new config) (map failure times) in
      (length times < config.failure_threshold → b.state ≡ closed)
      × (config.failure_threshold ≤ length times → b.state ≡ opened)
opens_at_threshold config times h =
    let c = failures-Counted times config.failure_threshold 0 (new config) start in
    (λ below. c.still (omega arith), λ reached. c.trip (omega arith))
  where
    start : Counted config.failure_threshold 0 (new config)
    start = unfold new in ground arith

-- An open breaker refuses, and does not change, until the timeout since its last failure has
-- passed; from then on it is half open, with its counts at 0.
pub can_execute_opened :
    (now last : ℕ) (b : CircuitBreaker)
    → b.state ≡ opened
    → b.last_failure_time ≡ some last
    → (now < last + timeout b.config → can_execute now b ≡ (b, false))
      × (last + timeout b.config ≤ now
          → (can_execute now b).0
            ≡ record b { state = half_open; failure_count = 0; success_count = 0 })
unfolding can_execute
can_execute_opened now last b o l = (λ early. ground arith, λ late. ground arith)

half_open-success :
    (now n : ℕ) (b : CircuitBreaker)
    → b.state ≡ half_open
    → b.success_count ≡ n
    → ((suc n < b.config.half_open_max_calls)
        × ((record_success now b).state ≡ half_open)
        × ((record_success now b).success_count ≡ suc n)
        × ((record_success now b).config ≡ b.config))
      ⊎ ((b.config.half_open_max_calls ≤ suc n) × ((record_success now b).state ≡ closed))
unfolding record_success
half_open-success now n b o e = elim (Bool-cases (leb b.config.half_open_max_calls (suc n))) [
  | inl enough ↦ inr (omega (arith, leb→le _ _ enough), ground arith)
  | inr more ↦ inl (ground arith, ground arith, ground arith, ground arith)
]

successes_heal :
    (calls n : ℕ) (times : List ℕ) (b : CircuitBreaker)
    → b.config.half_open_max_calls ≡ calls
    → b.state ≡ half_open
    → b.success_count ≡ n
    → n < calls
    → let b' = run b (map success times) in
      (n + length times < calls → b'.state ≡ half_open)
      × (n + length times ≡ calls → b'.state ≡ closed)
unfolding run apply
successes_heal calls n [] b c o e below = (λ _. o, λ full. absurd (omega arith))
successes_heal calls n (t ∷ ts) b c o e below = elim (half_open-success t n b o e) [
  | inl (more, o', e', c') ↦
      let (h, k) =
        successes_heal calls (suc n) ts (record_success t b) (ground arith) o' e' (ground arith) in
      (λ few. h (omega arith), λ full. k (omega arith))
  | inr (enough, cl) ↦
      (λ few. absurd (omega (arith, ap (λ x. x) c)), λ full. closed_by ts (ground arith) cl)
]
  where
    closed_by :
        (ts : List ℕ)
        → length ts ≡ 0
        → (record_success t b).state ≡ closed
        → (run (record_success t b) (map success ts)).state ≡ closed
    closed_by [] z cl = cl
    closed_by (u ∷ us) z cl = absurd (omega arith)

-- A half-open breaker that has just left the open state is half open still after fewer successes in
-- a row than `half_open_max_calls`, which is at least 1, and closed after exactly as many.
pub half_open_heals :
    (times : List ℕ) (b : CircuitBreaker)
    → b.state ≡ half_open
    → b.success_count ≡ 0
    → 0 < b.config.half_open_max_calls
    → let b' = run b (map success times) in
      (length times < b.config.half_open_max_calls → b'.state ≡ half_open)
      × (length times ≡ b.config.half_open_max_calls → b'.state ≡ closed)
half_open_heals times b o e pos =
    let (h, k) = successes_heal b.config.half_open_max_calls 0 times b refl o e pos in
    (λ few. h (omega arith), λ full. k (omega arith))

-- A failed probe does not reopen the circuit: with a threshold above 1, and a positive
-- `half_open_max_calls`, a breaker that has just
-- become half open is half open after a failure, and lets the next request through.
pub half_open-failure_stays :
    (now later : ℕ) (b : CircuitBreaker)
    → b.state ≡ half_open
    → b.failure_count ≡ 0
    → 1 < b.config.failure_threshold
    → 0 < b.config.half_open_max_calls
    → let b' = record_failure now b in (b'.state ≡ half_open) × ((can_execute later b').1 ≡ true)
unfolding record_failure can_execute
half_open-failure_stays now later b o e two calls = ground arith

-- The calls that report no failure.
abbrev pub NoFailure : Call → Type 0
NoFailure (query now) = Unit
NoFailure (success now) = Unit
NoFailure (failure now) = ⊥

record IsStuck (b : CircuitBreaker) : Type 0 where
  shut : b.state ≡ opened
  timeless : b.last_failure_time ≡ none

apply-IsStuck : (b : CircuitBreaker) (c : Call) → NoFailure c → IsStuck b → IsStuck (apply b c)
unfolding apply
apply-IsStuck b (query now) n h = ground arith
apply-IsStuck b (success now) n h = ground arith
apply-IsStuck b (failure now) n h = absurd n

run-IsStuck :
    (cs : List Call) (b : CircuitBreaker) → All NoFailure cs → IsStuck b → IsStuck (run b cs)
unfolding run
run-IsStuck [] b n h = h
run-IsStuck (c ∷ cs) b (n, ns) h = run-IsStuck cs (apply b c) ns (apply-IsStuck b c n h)

success-IsStuck : (now : ℕ) (b : CircuitBreaker) → b.state ≡ opened → IsStuck (record_success now b)
unfolding record_success
success-IsStuck now b o = ground arith

-- A success that is reported to an open breaker, as the fallback of the router does, erases the time
-- that recovery counts from: the breaker then refuses at every later time, until a failure is
-- reported.
pub opened-success_refuses :
    (now : ℕ) (b : CircuitBreaker) (cs : List Call) (later : ℕ)
    → b.state ≡ opened
    → All NoFailure cs
    → (can_execute later (run (record_success now b) cs)).1 ≡ false
opened-success_refuses now b cs later o n =
    refuse (run (record_success now b) cs)
      (run-IsStuck cs (record_success now b) n (success-IsStuck now b o))
  where
    refuse : (b' : CircuitBreaker) → IsStuck b' → (can_execute later b').1 ≡ false
    refuse b' h = unfold can_execute in ground arith
