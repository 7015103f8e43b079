-- ===== src/RateLimiter/Steps.antt =====
-- What each operation of the limiter of api/rate_limiter.py does to what a client may still use.
use fastcoder.Base.{
  ℕ, ◌+◌, ◌-◌, ◌*◌, ◌≤◌, String, ◌≡◌, refl, sym, ap, subst, ◌∙◌, Bool, true, false, some,
  if◌then◌else◌, ite, string_discrete, arith,
}
use fastcoder.Base.Dict.{get-put}
use fastcoder.RateLimiter.{
  RateLimitConfig, RateLimiter, TokenBucket, token, stale_bucket_ttl, bucket_of,
  get_or_create_bucket, cleanup_stale_buckets, is_allowed, get_retry_after, refill, try_consume,
  bucket_retry_after,
}
use fastcoder.RateLimiter.Buckets.{level, level-refill, Fits, refill-Fits, try_consume-level}
use fastcoder.RateLimiter.Cleanup.{access_of}
use fastcoder.RateLimiter.Soundness.{
  full, rate, Held, present, IsSound, credit, cleanup-IsSound, IsSound-later, credit_later,
}
use fastcoder.RateLimiter.Storing.{stored, stored-bucket_of, stored-IsSound, Made, made}

module _ (config : RateLimitConfig) where
  -- What a request costs a client: a token, if it is this client's and allowed.
  abbrev pub charge : {A : Type 0} → Bool → Dec A → ℕ
  charge true (yes p) = token
  charge _ _ = 0

  consumed :
      (now a : ℕ) (r : RateLimiter) (client other : String) (b : TokenBucket)
      → bucket_of r client ≡ some b
      → Fits (full config) (rate config) now a b
      → let (b', allowed) = try_consume now token b in
        level
            (full config)
            (rate config)
            now
            (ite (string_discrete client other) (some b') (bucket_of r other))
          + charge allowed (string_discrete client other)
        ≡ credit config now r other
  consumed now a r client other b e f =
      by_client (string_discrete client other) (try_consume now token b).1
        (try_consume-level (full config) (rate config) now a b f).1
    where
      b' : TokenBucket
      b' = (try_consume now token b).0

      by_client :
          (same : Dec (client ≡ other)) (allowed : Bool)
          → level (full config) (rate config) now (some b') + (if allowed then token else 0)
            ≡ level (full config) (rate config) now (some b)
          → level (full config) (rate config) now (ite same (some b') (bucket_of r other))
              + charge allowed same
            ≡ credit config now r other
      by_client (yes p) true h =
          h ∙ sym (ap (level (full config) (rate config) now) (ap (bucket_of r) (sym p) ∙ e))
      by_client (yes p) false h =
          h ∙ sym (ap (level (full config) (rate config) now) (ap (bucket_of r) (sym p) ∙ e))
      by_client (no n) true h = omega arith
      by_client (no n) false h = omega arith

  module _ (patient : full config ≤ stale_bucket_ttl * rate config) where
    -- A request takes from its client's credit config what it costs, and time alone adds to it.
    pub is_allowed_lem :
        (t now : ℕ) (r : RateLimiter) (client : String)
        → t ≤ now
        → IsSound config t r
        → let (r', allowed) = is_allowed now r client in
          IsSound config now r'
          × ((other : String)
              → credit config now r' other + charge allowed (string_discrete client other)
                ≤ credit config t r other + (now - t) * rate config)
    unfolding is_allowed
    is_allowed_lem t now r client h s = (
      stored-IsSound config now now r₂ client b' m.sound
          (try_consume-level (full config) (rate config) now m.accessed_at b m.fits).0,
      λ other.
          let paid : level (full config) (rate config) now
                  (bucket_of (stored config r₂ client b' now) other)
                + charge allowed (string_discrete client other)
              ≡ credit config now r₂ other =
            ap
              (λ o.
                level (full config) (rate config) now o
                + charge allowed (string_discrete client other))
              (stored-bucket_of config r₂ client other b' now)
            ∙ consumed now m.accessed_at r₂ client other b m.in_place m.fits in
          omega
            (arith, paid, m.same_credit other, c.1 other, credit_later config t now r other h s),
    )
      where
        c :
            IsSound config now (cleanup_stale_buckets now r)
            × ((other : String)
                → credit config now (cleanup_stale_buckets now r) other ≡ credit config now r other)
        c = cleanup-IsSound config patient now r (IsSound-later config t now r h s)

        r₂ : RateLimiter
        r₂ = (get_or_create_bucket now (cleanup_stale_buckets now r) client).0

        b : TokenBucket
        b = (get_or_create_bucket now (cleanup_stale_buckets now r) client).1

        m : Made config now (cleanup_stale_buckets now r) client r₂ b
        m = made config now (cleanup_stale_buckets now r) client c.0

        b' : TokenBucket
        b' = (try_consume now token b).0

        allowed : Bool
        allowed = (try_consume now token b).1

  refilled-level :
      (now a : ℕ) (b : TokenBucket)
      → Fits (full config) (rate config) now a b
      → level (full config) (rate config) now (some (refill now b))
        ≡ level (full config) (rate config) now (some b)
  refilled-level now a b f = level-refill (full config) (rate config) now a b f

  -- A question for the time to wait costs nothing.
  pub get_retry_after_lem :
      (t now : ℕ) (r : RateLimiter) (client : String)
      → t ≤ now
      → IsSound config t r
      → let r' = (get_retry_after now r client).0 in
        IsSound config now r'
        × ((other : String)
            → credit config now r' other ≤ credit config t r other + (now - t) * rate config)
  unfolding get_retry_after bucket_retry_after bucket_of
  get_retry_after_lem t now r client h s = (
    record {
      config_kept = m.sound.config_kept;
      unique = m.sound.unique;
      held = λ other.
          subst (λ o. Held config now o (access_of r₂ other))
            (sym (get-put string_discrete client other (refill now b) r₂.buckets))
            (by_client (string_discrete client other) (m.sound.held other));
    },
    λ other. omega (
      arith,
      ap (level (full config) (rate config) now)
            (get-put string_discrete client other (refill now b) r₂.buckets)
          ∙ unchanged other (string_discrete client other),
      m.same_credit other,
      credit_later config t now r other h s,
    ),
  )
    where
      r₂ : RateLimiter
      r₂ = (get_or_create_bucket now r client).0

      b : TokenBucket
      b = (get_or_create_bucket now r client).1

      m : Made config now r client r₂ b
      m = made config now r client (IsSound-later config t now r h s)

      by_client :
          {other : String} (same : Dec (client ≡ other))
          → Held config now (bucket_of r₂ other) (access_of r₂ other)
          → Held config now
              (ite same (some (refill now b)) (bucket_of r₂ other))
              (access_of r₂ other)
      by_client (yes p) k =
          subst (λ x. Held config now (some (refill now b)) x)
            (sym m.accessed ∙ ap (access_of r₂) p)
            (present m.accessed_at (refill now b)
              (refill-Fits (full config) (rate config) now m.accessed_at b m.fits))
      by_client (no n) k = k

      unchanged :
          (other : String) (same : Dec (client ≡ other))
          → level
              (full config)
              (rate config)
              now
              (ite same (some (refill now b)) (bucket_of r₂ other))
            ≡ credit config now r₂ other
      unchanged other (yes p) =
          refilled-level now m.accessed_at b m.fits
          ∙ sym
              (ap (level (full config) (rate config) now) (ap (bucket_of r₂) (sym p) ∙ m.in_place))
      unchanged other (no n) = refl
