-- ===== src/RateLimiter/Examples.antt =====
-- Runs of the rate limiter.
use fastcoder.Base.{◌+◌, ◌-◌, ◌*◌, ◌≤◌, ◌≡◌, refl, List, [], ◌∷◌, some, string_discrete, arith}
use fastcoder.Base.Dict
use fastcoder.RateLimiter.{
  RateLimitConfig, make_config, token, new, is_allowed, get_retry_after, get_or_create_bucket,
  cleanup_stale_buckets, try_consume, bucket_of, bucket_retry_after, stale_ips, remove_all, refill,
}
use fastcoder.RateLimiter.Bound.{Call, request, wait, run, run-bound}

-- Sixty requests in a minute, two of them at once.
abbrev config : RateLimitConfig
config = make_config 60 (some 2)

abbrev span : List Call
span =
    request 5 "a"
    ∷ request 5 "a"
    ∷ request 6 "b"
    ∷ request 7 "a"
    ∷ wait 8 "a"
    ∷ request 1000009 "a"
    ∷ []

-- The third request of the client is refused, the fourth comes a second later.
three_allowed : (run "a" (new config) span).1 ≡ 3
unfolding run is_allowed get_retry_after get_or_create_bucket cleanup_stale_buckets try_consume
    bucket_of bucket_retry_after stale_ips remove_all refill new Dict.get Dict.put string_discrete
three_allowed = refl

run-bound_example :
    (run "a" (run "a" (new config) (request 1 "b" ∷ [])).0 span).1 * token
    ≤ 2 * token + (2000000 - 1) * 60
run-bound_example =
    run-bound config (omega arith) "a" (request 1 "b" ∷ []) span 1 2000000
      (omega arith, omega arith)
      (
        omega arith,
        (omega arith, (omega arith, (omega arith, (omega arith, (omega arith, omega arith))))),
      )

-- A bucket that takes longer than ten minutes to fill is full once it has been dropped: here one that
-- earns nothing.
abbrev idle : RateLimitConfig
idle = make_config 0 (some 1)

dropped_and_full : (run "a" (new idle) (request 0 "a" ∷ request 600000001 "a" ∷ [])).1 ≡ 2
unfolding run is_allowed get_retry_after get_or_create_bucket cleanup_stale_buckets try_consume
    bucket_of bucket_retry_after stale_ips remove_all refill new Dict.get Dict.put Dict.remove
    string_discrete
dropped_and_full = refl
