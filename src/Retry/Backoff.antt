-- ===== src/Retry/Backoff.antt =====
-- The exponential backoff of retry_policy.py.
use fastcoder.Base.{ℕ, zero, suc, ◌^◌, ◌≤◌, ◌<◌, ◌≡◌, arith}
use fastcoder.Retry.{RetryPolicy, get_backoff_seconds}
use native.Mathlib.Nat.{pow-suc, pow-zero}

pow_pos : (b n : ℕ) → 0 < b → 0 < b ^ n
pow_pos b zero h = rw pow-zero (omega arith)
pow_pos b (suc n) h = let ih = pow_pos b n h in rw pow-suc (grind arith)

pow_grows : (b n : ℕ) → 2 ≤ b → n < b ^ n
pow_grows b zero h = rw pow-zero (omega arith)
pow_grows b (suc n) h = let ih = pow_grows b n h in rw pow-suc (grind arith)

pow_mono : (b n : ℕ) → 0 < b → b ^ n ≤ b ^ suc n
pow_mono b n h = rw pow-suc (grind arith)

-- With a positive factor, the backoff of the next attempt is no shorter, and none is longer than the
-- bound.
pub get_backoff_seconds_bounds :
    (p : RetryPolicy) (n : ℕ)
    → 0 < p.backoff_factor
    → (get_backoff_seconds p n ≤ get_backoff_seconds p (suc n))
      × (get_backoff_seconds p n ≤ p.max_backoff_seconds)
unfolding get_backoff_seconds
get_backoff_seconds_bounds p n h =
    let step = pow_mono p.backoff_factor n h in (grind arith, omega arith)

-- With a base of at least 1 and a factor of at least 2, the backoff has reached the bound when the attempt's
-- number has.
pub get_backoff_seconds_capped :
    (p : RetryPolicy) (n : ℕ)
    → 1 ≤ p.base_backoff_seconds
    → 2 ≤ p.backoff_factor
    → p.max_backoff_seconds ≤ n
    → get_backoff_seconds p n ≡ p.max_backoff_seconds
unfolding get_backoff_seconds
get_backoff_seconds_capped p n one two h =
    let more = pow_grows p.backoff_factor n two in grind arith
