-- ===== src/RateLimiter/Bound.antt =====
-- How many requests api/rate_limiter.py lets through in a span of time.
use fastcoder.Base.{
  ℕ, ◌+◌, ◌-◌, ◌*◌, ◌≤◌, String, ◌≡◌, refl, Bool, true, false, List, [], ◌∷◌, string_discrete,
  arith,
}
use fastcoder.Base.Dict
use fastcoder.RateLimiter.{
  RateLimitConfig, RateLimiter, token, new, stale_bucket_ttl, bucket_of, is_allowed,
  get_retry_after,
}
use fastcoder.RateLimiter.Buckets.{level_le_full, earned_twice}
use fastcoder.RateLimiter.Soundness.{full, rate, IsSound, absent, credit, IsSound-later}
use fastcoder.RateLimiter.Steps.{charge, is_allowed_lem, get_retry_after_lem}

-- A call of `is_allowed` or of `get_retry_after`, at a time, by a client.
pub data Call : Type 0 where
  request wait : ℕ → String → Call

abbrev pub time_of : Call → ℕ
time_of (request now client) = now
time_of (wait now client) = now

-- The calls are made one after the other, from a time on and up to a time.
abbrev pub Ordered : ℕ → List Call → ℕ → Type 0
Ordered start [] end = start ≤ end
Ordered start (c ∷ cs) end = (start ≤ time_of c) × Ordered (time_of c) cs end

abbrev pub counts : {A : Type 0} → Bool → Dec A → ℕ
counts true (yes p) = 1
counts _ _ = 0

-- The limiter after the calls, and how many requests of the client were allowed.
unfoldable pub run : String → RateLimiter → List Call → RateLimiter × ℕ
run client r [] = (r, 0)
run client r (request now c ∷ cs) =
    let (r', allowed) = is_allowed now r c in
    let (r'', n) = run client r' cs in (r'', n + counts allowed (string_discrete c client))
run client r (wait now c ∷ cs) = run client (get_retry_after now r c).0 cs

module _ (config : RateLimitConfig) (patient : full config ≤ stale_bucket_ttl * rate config) where
  Ordered-le : (start : ℕ) (cs : List Call) (end : ℕ) → Ordered start cs end → start ≤ end
  Ordered-le start [] end h = h
  Ordered-le start (c ∷ cs) end h = omega (arith, h.0, Ordered-le (time_of c) cs end h.1)

  charge-counts : {A : Type 0} (b : Bool) (d : Dec A) → charge config b d ≡ counts b d * token
  charge-counts true (yes p) = refl
  charge-counts true (no n) = refl
  charge-counts false d = refl

  run_lem :
      (client : String) (start : ℕ) (cs : List Call) (end : ℕ) (r : RateLimiter)
      → Ordered start cs end
      → IsSound config start r
      → let (r', n) = run client r cs in
        IsSound config end r'
        × (n * token ≤ credit config start r client + (end - start) * rate config)
  unfolding run
  run_lem client start [] end r h s = (IsSound-later config start end r h s, omega arith)
  run_lem client start (request now c ∷ cs) end r h s =
      let (s', paid) = is_allowed_lem config patient start now r c h.0 s in
      let (s'', bound) = run_lem client now cs end (is_allowed now r c).0 h.1 s' in
      (
        s'',
        omega (
          arith,
          bound,
          paid client,
          charge-counts (is_allowed now r c).1 (string_discrete c client),
          earned_twice start now end (rate config) h.0 (Ordered-le now cs end h.1),
        ),
      )
  run_lem client start (wait now c ∷ cs) end r h s =
      let (s', kept) = get_retry_after_lem config start now r c h.0 s in
      let (s'', bound) = run_lem client now cs end (get_retry_after now r c).0 h.1 s' in
      (
        s'',
        omega (
          arith,
          bound,
          kept client,
          earned_twice start now end (rate config) h.0 (Ordered-le now cs end h.1),
        ),
      )

  new-IsSound : IsSound config 0 (new config)
  new-IsSound = record {
    config_kept = unfold new in refl;
    unique = unfold new in tt;
    held = λ client. unfold new bucket_of Dict.get in absent;
  }

-- If a bucket can be filled within the time after which unused ones are dropped (10 minutes), then in
-- any span of time, whatever was asked before and by whom, the requests of a client that are allowed
-- are no more than the size of the bucket and what the rate earns in the span.
pub run-bound :
    (config : RateLimitConfig)
    → full config ≤ stale_bucket_ttl * rate config
    → (client : String) (before span : List Call) (start end : ℕ) → Ordered 0 before start
    → Ordered start span end
    → (run client (run client (new config) before).0 span).1 * token
      ≤ config.burst_size * token + (end - start) * config.requests_per_minute
run-bound config patient client before span start end h k =
    let (s, n) =
      run_lem config patient client 0 before start (new config) h (new-IsSound config patient) in
    let (s', m) =
      run_lem config patient client start span end (run client (new config) before).0 k s in
    omega (
      arith,
      m,
      level_le_full (full config) (rate config) start
          (bucket_of (run client (new config) before).0 client),
    )
