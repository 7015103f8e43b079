-- ===== src/Circuit/Examples.antt =====
-- Runs of the circuit breaker.
use fastcoder.Base.{
  ℕ, ◌≤◌, ◌<◌, ◌≡◌, refl, ◌↔◌, true, false, List, [], ◌∷◌, some, arith, length, map,
}
use fastcoder.Circuit.{
  closed, opened, half_open, CircuitBreaker, default_config, new, can_execute, record_success,
  record_failure,
}
use fastcoder.Circuit.States.{Call, query, success, failure, run, can_execute-eq-false_iff}
use fastcoder.Circuit.Recovery.{
  opens_at_threshold, half_open_heals, half_open-failure_stays, opened-success_refuses,
}
use fastcoder.Circuit.Registry.{Registry}

abbrev calls : List Call
calls = failure 1 ∷ failure 2 ∷ success 3 ∷ query 4 ∷ []

can_execute-eq-false_iff_example :
    ((can_execute 9 (run (new default_config) calls)).1 ≡ false)
    ↔ ((can_execute 9 (run (new default_config) calls)).0.state ≡ opened)
can_execute-eq-false_iff_example =
    can_execute-eq-false_iff default_config (omega arith) (omega arith) calls 9

abbrev times : List ℕ
times = 1 ∷ 2 ∷ 3 ∷ 4 ∷ 5 ∷ []

opens_at_threshold_example :
    (length times < 5 → (run (new default_config) (map failure times)).state ≡ closed)
    × (5 ≤ length times → (run (new default_config) (map failure times)).state ≡ opened)
opens_at_threshold_example = opens_at_threshold default_config times (omega arith)

-- Open since the time 7.
abbrev shut : CircuitBreaker
shut = record {
  config = default_config;
  failure_count = 5;
  success_count = 0;
  last_failure_time = some 7;
  state = opened;
}

abbrev probing : CircuitBreaker
probing = record shut { state = half_open; failure_count = 0 }

half_open_heals_example :
    (2 < 2 → (run probing (map success (8 ∷ 9 ∷ []))).state ≡ half_open)
    × (◌≡◌ {A = ℕ} 2 2 → (run probing (map success (8 ∷ 9 ∷ []))).state ≡ closed)
half_open_heals_example = half_open_heals (8 ∷ 9 ∷ []) probing refl refl (omega arith)

half_open-failure_stays_example :
    ((record_failure 8 probing).state ≡ half_open)
    × ((can_execute 9 (record_failure 8 probing)).1 ≡ true)
half_open-failure_stays_example =
    half_open-failure_stays 8 9 probing refl refl (omega arith) (omega arith)

-- An hour later the breaker still refuses.
opened-success_refuses_example :
    (can_execute 3600000000 (run (record_success 8 shut) (query 9 ∷ success 10 ∷ []))).1 ≡ false
opened-success_refuses_example =
    opened-success_refuses 8 shut (query 9 ∷ success 10 ∷ []) 3600000000 refl (tt, (tt, tt))

-- Without the success it would have let the request through.
shut_recovers : (can_execute 3600000000 shut).1 ≡ true
unfolding can_execute
shut_recovers = refl

abbrev registry : Registry
registry = record { config = default_config; breakers = ("openai", shut) ∷ [] }
