-- ===== src/RateLimiter/Storing.antt =====
-- Finding, making and storing the bucket of a client in api/rate_limiter.py.
use fastcoder.Base.{
  ℕ, ◌*◌, String, ◌≡◌, refl, sym, ap, subst, ◌∙◌, Option, none, some, ite, string_discrete, arith,
}
use fastcoder.Base.Dict
use fastcoder.Base.Dict.{Dict, get-put, get-put_same, IsUnique, put-IsUnique}
use fastcoder.RateLimiter.{
  RateLimitConfig, RateLimiter, TokenBucket, token, full_bucket, bucket_of, found_or_made,
  get_or_create_bucket,
}
use fastcoder.RateLimiter.Buckets.{level, level-none, level-full, Fits}
use fastcoder.RateLimiter.Cleanup.{access_of}
use fastcoder.RateLimiter.Soundness.{full, rate, Held, absent, present, IsSound, credit}

module _ (config : RateLimitConfig) where
  full_bucket-Fits :
      (now : ℕ) (c : RateLimitConfig)
      → c ≡ config
      → Fits (full config) (rate config) now now (full_bucket now c)
  full_bucket-Fits now c e = record {
    capacity = ap (λ (x : RateLimitConfig). x.burst_size * token) e;
    refill_rate = ap (λ (x : RateLimitConfig). x.requests_per_minute) e;
    refilled = omega arith;
    accessed = omega arith;
    earned = omega (arith, ap (λ (x : RateLimitConfig). x.burst_size * token) e);
  }

  -- Storing a bucket of one client, accessed at `a`.
  abbrev pub stored : RateLimiter → String → TokenBucket → ℕ → RateLimiter
  stored r client b a = record r {
    buckets = Dict.put string_discrete client b r.buckets;
    bucket_access_times = Dict.put string_discrete client a r.bucket_access_times;
  }

  pub stored-bucket_of :
      (r : RateLimiter) (client other : String) (b : TokenBucket) (a : ℕ)
      → bucket_of (stored r client b a) other
        ≡ ite (string_discrete client other) (some b) (bucket_of r other)
  unfolding bucket_of
  stored-bucket_of r client other b a = get-put string_discrete client other b r.buckets

  pub stored-IsSound :
      (now a : ℕ) (r : RateLimiter) (client : String) (b : TokenBucket)
      → IsSound config now r
      → Fits (full config) (rate config) now a b
      → IsSound config now (stored r client b a)
  stored-IsSound now a r client b s f = record {
    config_kept = s.config_kept;
    unique = put-IsUnique string_discrete client a r.bucket_access_times s.unique;
    held = λ other.
        subst (λ o. Held config now o (access_of (stored r client b a) other))
          (sym (stored-bucket_of r client other b a))
          (subst
            (λ p.
              Held config now (ite (string_discrete client other) (some b) (bucket_of r other)) p)
            (sym (get-put string_discrete client other a r.bucket_access_times))
            (by_client (string_discrete client other) (s.held other)));
  }
    where
      by_client :
          {other : String} (same : Dec (client ≡ other))
          → Held config now (bucket_of r other) (access_of r other)
          → Held config now
              (ite same (some b) (bucket_of r other))
              (ite same (some a) (access_of r other))
      by_client (yes p) h = present a b f
      by_client (no n) h = h

  -- What finding or making a client's bucket gives.
  pub record Made (now : ℕ) (r : RateLimiter) (client : String) (r' : RateLimiter) (b : TokenBucket)
      : Type 0 where
    pub sound : IsSound config now r'
    pub accessed_at : ℕ
    pub fits : Fits (full config) (rate config) now accessed_at b
    pub in_place : bucket_of r' client ≡ some b
    pub accessed : access_of r' client ≡ some accessed_at
    pub same_credit : (other : String) → credit config now r' other ≡ credit config now r other

  made-credit :
      (now : ℕ) (r : RateLimiter) (client other : String) (b : TokenBucket)
      → bucket_of r client ≡ none
      → b.tokens ≡ full config
      → level
          (full config)
          (rate config)
          now
          (ite (string_discrete client other) (some b) (bucket_of r other))
        ≡ credit config now r other
  made-credit now r client other b e h = by_client (string_discrete client other)
    where
      by_client :
          (same : Dec (client ≡ other))
          → level (full config) (rate config) now (ite same (some b) (bucket_of r other))
            ≡ credit config now r other
      by_client (yes p) =
          level-full (full config) (rate config) now b h
          ∙ sym (
              ap (level (full config) (rate config) now) (ap (bucket_of r) (sym p) ∙ e)
              ∙ level-none (full config) (rate config) now)
      by_client (no n) = refl

  pub made :
      (now : ℕ) (r : RateLimiter) (client : String)
      → IsSound config now r
      → let (r', b) = get_or_create_bucket now r client in Made now r client r' b
  unfolding get_or_create_bucket
  made now r client s =
      by_bucket (bucket_of r client) (access_of r client) refl refl (s.held client)
    where
      by_bucket :
          (o : Option TokenBucket) (p : Option ℕ)
          → bucket_of r client ≡ o
          → access_of r client ≡ p
          → Held config now o p
          → let (r', b) = found_or_made now r client o in Made now r client r' b
      by_bucket _ _ e k (present a b f) = record {
        sound = s;
        accessed_at = a;
        fits = f;
        in_place = e;
        accessed = k;
        same_credit = λ other. refl;
      }
      by_bucket _ _ e k absent =
          let f = full_bucket-Fits now r.config s.config_kept in
          record {
            sound = stored-IsSound now now r client (full_bucket now r.config) s f;
            accessed_at = now;
            fits = f;
            in_place =
                unfold bucket_of in
                get-put_same string_discrete client (full_bucket now r.config) r.buckets;
            accessed = get-put_same string_discrete client now r.bucket_access_times;
            same_credit = λ other.
                ap (level (full config) (rate config) now)
                  (stored-bucket_of r client other (full_bucket now r.config) now)
                ∙ made-credit now r client other (full_bucket now r.config) e f.capacity;
          }
