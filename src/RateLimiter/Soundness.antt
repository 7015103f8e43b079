-- ===== src/RateLimiter/Soundness.antt =====
-- What a limiter of api/rate_limiter.py keeps, and what a client may use.
use fastcoder.Base.{
  ℕ, ◌+◌, ◌-◌, ◌*◌, ◌≤◌, ◌<◌, String, ◌≡◌, refl, sym, ap, subst, ◌∙◌, Bool, true, false, List,
  Option, none, some, if◌then◌else◌, elem, string_discrete, arith,
}
use fastcoder.Base.Dict.{IsUnique}
use fastcoder.RateLimiter.{
  RateLimitConfig, RateLimiter, TokenBucket, token, stale_bucket_ttl, bucket_of, stale_ips,
  remove_all, cleanup_stale_buckets,
}
use fastcoder.RateLimiter.Buckets.{level, level-none, Fits, Fits-later, level_later, level_stale}
use fastcoder.RateLimiter.Cleanup.{
  access_of, remove_all-lookup, remove_all-IsUnique, stale_ips-elem,
}
use mathlib.Core.Option.{some-injective}
use native.Mathlib.Nat

module _ (config : RateLimitConfig) where
  abbrev pub full : ℕ
  full = config.burst_size * token

  abbrev pub rate : ℕ
  rate = config.requests_per_minute

  -- A client has a bucket that fits, and a time of access, or neither.
  pub data Held (now : ℕ) : Option TokenBucket → Option ℕ → Type 0 where
    absent : Held now none none
    present : (a : ℕ) (b : TokenBucket) → Fits full rate now a b → Held now (some b) (some a)

  pub record IsSound (now : ℕ) (r : RateLimiter) : Type 0 where
    pub config_kept : r.config ≡ config
    pub unique : IsUnique string_discrete r.bucket_access_times
    pub held : (client : String) → Held now (bucket_of r client) (access_of r client)

  -- What a client may use at a time.
  abbrev pub credit : ℕ → RateLimiter → String → ℕ
  credit now r client = level full rate now (bucket_of r client)

  Held-later :
      (t now : ℕ) (o : Option TokenBucket) (p : Option ℕ) → t ≤ now → Held t o p → Held now o p
  Held-later t now _ _ h absent = absent
  Held-later t now _ _ h (present a b f) = present a b (Fits-later full rate t now a b h f)

  pub IsSound-later : (t now : ℕ) (r : RateLimiter) → t ≤ now → IsSound t r → IsSound now r
  IsSound-later t now r h s = record {
    config_kept = s.config_kept;
    unique = s.unique;
    held = λ client. Held-later t now (bucket_of r client) (access_of r client) h (s.held client);
  }

  Held-credit :
      (t now : ℕ) (o : Option TokenBucket) (p : Option ℕ)
      → t ≤ now
      → Held t o p
      → level full rate now o ≤ level full rate t o + (now - t) * rate
  Held-credit t now _ _ h absent = unfold level in omega arith
  Held-credit t now _ _ h (present a b f) = level_later full rate t now a b h f

  pub credit_later :
      (t now : ℕ) (r : RateLimiter) (client : String)
      → t ≤ now
      → IsSound t r
      → credit now r client ≤ credit t r client + (now - t) * rate
  credit_later t now r client h s =
      Held-credit t now (bucket_of r client) (access_of r client) h (s.held client)

  longer_earns : (m n : ℕ) → m ≤ n → m * rate ≤ n * rate
  longer_earns m n h = Nat.mul-le-mul_right rate h

  module _ (patient : full ≤ stale_bucket_ttl * rate) where
    -- A client that is dropped had a full bucket.
    dropped :
        (now a : ℕ) (o : Option TokenBucket) (p : Option ℕ)
        → Held now o p
        → p ≡ some a
        → stale_bucket_ttl < now - a
        → level full rate now o ≡ full
    dropped now a _ _ absent e l = level-none full rate now
    dropped now a _ _ (present a' b f) e l = level_stale full rate now a' b f (
        omega (
          arith,
          patient,
          longer_earns stale_bucket_ttl (now - a') (omega (arith, l, some-injective _ _ e)),
        ))

    pub cleanup-IsSound :
        (now : ℕ) (r : RateLimiter)
        → IsSound now r
        → let r' = cleanup_stale_buckets now r in
          IsSound now r' × ((client : String) → credit now r' client ≡ credit now r client)
    unfolding cleanup_stale_buckets
    cleanup-IsSound now r s = (
      record {
        config_kept = (remove_all-lookup ips r "").2 ∙ s.config_kept;
        unique = remove_all-IsUnique ips r s.unique;
        held = λ client.
            let (b, a, c) = remove_all-lookup ips r client in
            subst (λ o. Held now o (access_of (remove_all ips r) client)) (sym b)
              (subst
                (λ p.
                  Held now (if elem string_discrete client ips then none else bucket_of r client) p)
                (sym a) (either (elem string_discrete client ips) (s.held client)));
      },
      λ client.
          let (b, a, c) = remove_all-lookup ips r client in
          ap (level full rate now) b ∙ same client (elem string_discrete client ips) refl,
    )
      where
        ips : List String
        ips = stale_ips now r.bucket_access_times

        either :
            {o : Option TokenBucket} {p : Option ℕ} (c : Bool)
            → Held now o p
            → Held now (if c then none else o) (if c then none else p)
        either true h = absent
        either false h = h

        same :
            (client : String) (c : Bool)
            → elem string_discrete client ips ≡ c
            → level full rate now (if c then none else bucket_of r client)
              ≡ level full rate now (bucket_of r client)
        same client false e = refl
        same client true e =
            let (a, p, l) = stale_ips-elem now r.bucket_access_times client s.unique e in
            level-none full rate now
            ∙ sym (dropped now a (bucket_of r client) (access_of r client) (s.held client) p l)
