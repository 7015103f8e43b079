-- ===== src/RateLimiter/Buckets.antt =====
-- A single bucket of api/rate_limiter.py: how full it is at a time, and what a request takes.
use fastcoder.Base.{
  ℕ, ◌+◌, ◌-◌, ◌*◌, ◌≤◌, min, ◌≡◌, refl, sym, ap, ◌∙◌, Bool, true, false, Option, none, some,
  if◌then◌else◌, leb, leb→le, arith,
}
use fastcoder.RateLimiter.{TokenBucket, token, refill, take_from, try_consume}
use native.Mathlib.Nat

-- Earning over two spans of time, one after the other.
pub earned_twice :
    (a b c rate : ℕ) → a ≤ b → b ≤ c → (c - a) * rate ≡ (b - a) * rate + (c - b) * rate
earned_twice a b c rate h k =
    ap (λ x. x * rate) (spans a b c h k) ∙ Nat.add-mul (b - a) (c - b) rate
  where
    spans : (a b c : ℕ) → a ≤ b → b ≤ c → c - a ≡ (b - a) + (c - b)
    spans a b c h k = omega (arith, h, k)

module _ (full rate : ℕ) where
  -- How many parts a client has at a time; one without a bucket would get a full one.
  unfoldable pub level : ℕ → Option TokenBucket → ℕ
  level now none = full
  level now (some b) = min full (b.tokens + (now - b.last_refill) * rate)

  pub level-none : (now : ℕ) → level now none ≡ full
  unfolding level
  level-none now = refl

  -- A bucket of this size and rate that was last accessed at `a`, and has earned since.
  pub record Fits (now a : ℕ) (b : TokenBucket) : Type 0 where
    pub capacity : b.capacity ≡ full
    pub refill_rate : b.refill_rate ≡ rate
    pub refilled : b.last_refill ≤ now
    pub accessed : a ≤ b.last_refill
    pub earned : min full ((b.last_refill - a) * rate) ≤ b.tokens

  pub Fits-later : (t now a : ℕ) (b : TokenBucket) → t ≤ now → Fits t a b → Fits now a b
  Fits-later t now a b h f = record {
    capacity = f.capacity;
    refill_rate = f.refill_rate;
    refilled = omega (arith, h, f.refilled);
    accessed = f.accessed;
    earned = f.earned;
  }

  pub level_le_full : (now : ℕ) (o : Option TokenBucket) → level now o ≤ full
  unfolding level
  level_le_full now none = omega arith
  level_le_full now (some b) = omega arith

  pub level-full : (now : ℕ) (b : TokenBucket) → b.tokens ≡ full → level now (some b) ≡ full
  unfolding level
  level-full now b h = rw h (omega arith)

  -- Time alone earns at the rate, at most.
  pub level_later :
      (t now a : ℕ) (b : TokenBucket)
      → t ≤ now
      → Fits t a b
      → level now (some b) ≤ level t (some b) + (now - t) * rate
  unfolding level
  level_later t now a b h f = omega (arith, earned_twice b.last_refill t now rate f.refilled h)

  -- A bucket that nothing was taken from for long enough is full.
  pub level_stale :
      (now a : ℕ) (b : TokenBucket)
      → Fits now a b
      → full ≤ (now - a) * rate
      → level now (some b) ≡ full
  unfolding level
  level_stale now a b f h =
      omega (arith, h, f.earned, earned_twice a b.last_refill now rate f.accessed f.refilled)

  pub refill-Fits : (now a : ℕ) (b : TokenBucket) → Fits now a b → Fits now a (refill now b)
  unfolding refill
  refill-Fits now a b f = record {
    capacity = f.capacity;
    refill_rate = f.refill_rate;
    refilled = omega arith;
    accessed = omega (arith, f.accessed, f.refilled);
    earned =
        rw (f.capacity, f.refill_rate)
          (omega (arith, f.earned, earned_twice a b.last_refill now rate f.accessed f.refilled));
  }

  pub refill-level :
      (now a : ℕ) (b : TokenBucket) → Fits now a b → (refill now b).tokens ≡ level now (some b)
  unfolding refill level
  refill-level now a b f = rw (f.capacity, f.refill_rate) refl

  -- A bucket at the time of its last refill has what it holds, if that fits into it.
  level_now : (b : TokenBucket) → b.tokens ≤ full → level b.last_refill (some b) ≡ b.tokens
  unfolding level
  level_now b h = rw (no_time b.last_refill, Nat.zero-mul rate) (omega (arith, h))
    where
      no_time : (t : ℕ) → t - t ≡ 0
      no_time t = omega arith

  accessed_now :
      (b : TokenBucket)
      → b.capacity ≡ full
      → b.refill_rate ≡ rate
      → Fits b.last_refill b.last_refill b
  accessed_now b c r = record {
    capacity = c;
    refill_rate = r;
    refilled = omega arith;
    accessed = omega arith;
    earned = rw (no_time b.last_refill, Nat.zero-mul rate) (omega arith);
  }
    where
      no_time : (t : ℕ) → t - t ≡ 0
      no_time t = omega arith

  -- What a request does to a bucket at the time of its refill.
  take_from-level :
      (b : TokenBucket)
      → b.capacity ≡ full
      → b.refill_rate ≡ rate
      → b.tokens ≤ full
      → let (b', allowed) = take_from token b in
        Fits b.last_refill b.last_refill b'
        × (level b.last_refill (some b') + (if allowed then token else 0) ≡ b.tokens)
  unfolding take_from
  take_from-level b c r h = by_tokens (leb token b.tokens) refl
    where
      by_tokens :
          (enough : Bool)
          → leb token b.tokens ≡ enough
          → let (b', allowed) : TokenBucket × Bool =
              if enough then (record b { tokens = b.tokens - token }, true) else (b, false) in
            Fits b.last_refill b.last_refill b'
            × (level b.last_refill (some b') + (if allowed then token else 0) ≡ b.tokens)
      by_tokens true e = (
        accessed_now (record b { tokens = b.tokens - token }) c r,
        omega (
          arith,
          leb→le token b.tokens e,
          h,
          level_now (record b { tokens = b.tokens - token }) (omega (arith, h)),
        ),
      )
      by_tokens false e = (accessed_now b c r, omega (arith, level_now b h))

  -- A request that is allowed takes a token, and one that is refused takes nothing.
  pub try_consume-level :
      (now a : ℕ) (b : TokenBucket)
      → Fits now a b
      → let (b', allowed) = try_consume now token b in
        Fits now now b'
        × (level now (some b') + (if allowed then token else 0) ≡ level now (some b))
  unfolding try_consume
  try_consume-level now a b f =
      let (g, e) =
        take_from-level (refill now b) f.capacity f.refill_rate
          (rw (refill-level now a b f) (level_le_full now (some b))) in
      (g, e ∙ refill-level now a b f)

  pub level-refill :
      (now a : ℕ) (b : TokenBucket)
      → Fits now a b
      → level now (some (refill now b)) ≡ level now (some b)
  level-refill now a b f =
      level_of now (refill now b) (unfold refill in refl)
        (rw (refill-level now a b f) (level_le_full now (some b)))
      ∙ refill-level now a b f
    where
      level_of :
          (now : ℕ) (b : TokenBucket)
          → b.last_refill ≡ now
          → b.tokens ≤ full
          → level now (some b) ≡ b.tokens
      level_of now b e h = ap (λ t. level t (some b)) (sym e) ∙ level_now b h
