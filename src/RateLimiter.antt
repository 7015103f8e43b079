-- ===== src/RateLimiter.antt =====
-- api/rate_limiter.py: a bucket of tokens for each client. Times are whole microseconds, and a token
-- is 60 000 000 parts, so that a bucket gains `requests_per_minute` parts in a microsecond. The clock
-- does not run backwards, and one call of the limiter reads it once.
pub mod Buckets
pub mod Cleanup
pub mod Soundness
pub mod Storing
pub mod Steps
pub mod Bound
mod Examples
use fastcoder.Base.{
  ℕ, ◌+◌, ◌-◌, ◌*◌, min, String, Bool, true, false, List, [], ◌∷◌, Option, none, some,
  if◌then◌else◌, leb, ltb, string_discrete,
}
use fastcoder.Base.Dict
use fastcoder.Base.Dict.{Dict}
use mathlib.Core.Option.{get_or}

-- `burst_size` after `__post_init__`.
pub record RateLimitConfig : Type 0 where
  pub requests_per_minute : ℕ
  pub burst_size : ℕ

-- `RateLimitConfig(requests_per_minute, burst_size)`
abbrev pub make_config : ℕ → Option ℕ → RateLimitConfig
make_config rpm burst = record { requests_per_minute = rpm; burst_size = get_or burst rpm }

abbrev pub token : ℕ
token = 60000000

pub record TokenBucket : Type 0 where
  pub capacity : ℕ
  pub refill_rate : ℕ
  pub tokens : ℕ
  pub last_refill : ℕ

unfoldable pub refill : ℕ → TokenBucket → TokenBucket
refill now b = record b {
  tokens = min b.capacity (b.tokens + (now - b.last_refill) * b.refill_rate);
  last_refill = now;
}

unfoldable pub take_from : ℕ → TokenBucket → TokenBucket × Bool
take_from amount b =
    if leb amount b.tokens then (record b { tokens = b.tokens - amount }, true) else (b, false)

unfoldable pub try_consume : ℕ → ℕ → TokenBucket → TokenBucket × Bool
unfolding refill take_from
try_consume now amount b = take_from amount (refill now b)

-- The seconds to wait are a fraction: the parts that lack, over the parts that come in a microsecond
-- (so in microseconds). A rate of 0, for which the division raises, is a fraction over 0.
unfoldable pub bucket_retry_after : ℕ → TokenBucket → TokenBucket × (ℕ × ℕ)
unfolding refill
bucket_retry_after now b =
    let b' = refill now b in
    (b', if leb token b'.tokens then (0, 1) else (token - b'.tokens, b'.refill_rate))

pub record RateLimiter : Type 0 where
  pub config : RateLimitConfig
  pub buckets : Dict String TokenBucket
  pub bucket_access_times : Dict String ℕ

unfoldable pub new : RateLimitConfig → RateLimiter
new config = record { config = config; buckets = []; bucket_access_times = [] }

-- `stale_bucket_ttl`
abbrev pub stale_bucket_ttl : ℕ
stale_bucket_ttl = 600000000

abbrev pub full_bucket : ℕ → RateLimitConfig → TokenBucket
full_bucket now config = record {
  capacity = config.burst_size * token;
  refill_rate = config.requests_per_minute;
  tokens = config.burst_size * token;
  last_refill = now;
}

unfoldable pub bucket_of : RateLimiter → String → Option TokenBucket
bucket_of r client = Dict.get string_discrete client r.buckets

found_or_made : ℕ → RateLimiter → String → Option TokenBucket → RateLimiter × TokenBucket
found_or_made now r client (some b) = (r, b)
found_or_made now r client none =
    let b = full_bucket now r.config in
    (
      record r {
        buckets = Dict.put string_discrete client b r.buckets;
        bucket_access_times = Dict.put string_discrete client now r.bucket_access_times;
      },
      b,
    )

unfoldable pub get_or_create_bucket : ℕ → RateLimiter → String → RateLimiter × TokenBucket
unfolding found_or_made
get_or_create_bucket now r client = found_or_made now r client (bucket_of r client)

unfoldable pub stale_ips : ℕ → Dict String ℕ → List String
stale_ips now [] = []
stale_ips now ((ip, last_access) ∷ d) =
    let rest = stale_ips now d in
    if ltb stale_bucket_ttl (now - last_access) then ip ∷ rest else rest

unfoldable pub remove_all : List String → RateLimiter → RateLimiter
remove_all [] r = r
remove_all (ip ∷ ips) r = remove_all ips (record r {
  buckets = Dict.remove string_discrete ip r.buckets;
  bucket_access_times = Dict.remove string_discrete ip r.bucket_access_times;
})

unfoldable pub cleanup_stale_buckets : ℕ → RateLimiter → RateLimiter
cleanup_stale_buckets now r = remove_all (stale_ips now r.bucket_access_times) r

-- The bucket is one object with the one in the dictionary: it is stored back.
unfoldable pub is_allowed : ℕ → RateLimiter → String → RateLimiter × Bool
is_allowed now r client =
    let (r', b) = get_or_create_bucket now (cleanup_stale_buckets now r) client in
    let (b', allowed) = try_consume now token b in
    (
      record r' {
        buckets = Dict.put string_discrete client b' r'.buckets;
        bucket_access_times = Dict.put string_discrete client now r'.bucket_access_times;
      },
      allowed,
    )

unfoldable pub get_retry_after : ℕ → RateLimiter → String → RateLimiter × (ℕ × ℕ)
get_retry_after now r client =
    let (r', b) = get_or_create_bucket now r client in
    let (b', wait) = bucket_retry_after now b in
    (record r' { buckets = Dict.put string_discrete client b' r'.buckets }, wait)
