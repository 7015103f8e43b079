-- ===== src/Retry/Breaker.antt =====
-- The circuit breakers of retry_policy.py.
use fastcoder.Base.{
  ℕ, suc, ◌<◌, String, ◌≡◌, refl, sym, subst, ◌∙◌, Bool, true, false, List, [], ◌∷◌, none, arith,
  if_neg, leb,
}
use fastcoder.Retry.{
  Key, Key-discrete, CircuitBreakerState, RetryPolicy, new, fresh_breaker, update_breaker,
  record_attempt, get_circuit_breaker_state, is_circuit_broken, should_retry,
}
use fastcoder.Retry.Attempts.{get_circuit_breaker_state-record_attempt}
use mathlib.Core.Option.{get_or}

-- The outcome of an attempt: the time, whether it succeeded, and the fingerprint of its error.
abbrev pub Outcome : Type 0
Outcome = ℕ × Bool × String

unfoldable pub record_all : RetryPolicy → Key → List Outcome → RetryPolicy
unfolding record_attempt
record_all p k [] = p
record_all p k ((now, success, fp) ∷ os) = record_all (record_attempt now p k success fp).0 k os

-- How many outcomes have failed since the last success, `n` before the list.
unfoldable pub failures_since : ℕ → List Outcome → ℕ
failures_since n [] = n
failures_since n ((now, true, fp) ∷ os) = failures_since 0 os
failures_since n ((now, false, fp) ∷ os) = failures_since (suc n) os

-- The breaker has counted `n` failures, and is open if these reach the threshold.
record Counts (threshold n : ℕ) (b : CircuitBreakerState) : Type 0 where
  count : b.consecutive_failures ≡ n
  opened : b.is_broken ≡ leb threshold n

breaker_of : RetryPolicy → Key → CircuitBreakerState
breaker_of p k = get_or (get_circuit_breaker_state p k) (fresh_breaker k)

update_breaker-Counts :
    (threshold n now : ℕ) (fp : String) (b : CircuitBreakerState)
    → 0 < threshold
    → Counts threshold n b
    → Counts threshold 0 (update_breaker threshold now true fp b)
      × Counts threshold (suc n) (update_breaker threshold now false fp b)
unfolding update_breaker
update_breaker-Counts threshold n now fp b pos h = (ground arith, ground arith)

breaker_of-record_attempt :
    (now : ℕ) (p : RetryPolicy) (k : Key) (success : Bool) (fp : String)
    → breaker_of (record_attempt now p k success fp).0 k
      ≡ update_breaker p.circuit_breaker_threshold now success fp (breaker_of p k)
unfolding breaker_of
breaker_of-record_attempt now p k success fp =
    rw get_circuit_breaker_state-record_attempt (ground arith)

threshold-record_attempt :
    (now : ℕ) (p : RetryPolicy) (k : Key) (success : Bool) (fp : String)
    → (record_attempt now p k success fp).0.circuit_breaker_threshold ≡ p.circuit_breaker_threshold
unfolding record_attempt
threshold-record_attempt now p k success fp = refl

is_circuit_broken-breaker_of :
    (p : RetryPolicy) (k : Key) → is_circuit_broken p k ≡ (breaker_of p k).is_broken
unfolding is_circuit_broken breaker_of
is_circuit_broken-breaker_of p k = ground arith

module _ (k : Key) (threshold : ℕ) (pos : 0 < threshold) where
  record_all-Counts :
      (os : List Outcome) (n : ℕ) (p : RetryPolicy)
      → p.circuit_breaker_threshold ≡ threshold
      → Counts threshold n (breaker_of p k)
      → Counts threshold (failures_since n os) (breaker_of (record_all p k os) k)
  unfolding record_all failures_since
  record_all-Counts [] n p same h = h
  record_all-Counts ((now, true, fp) ∷ os) n p same h =
      record_all-Counts os 0 (record_attempt now p k true fp).0
        (threshold-record_attempt now p k true fp ∙ same)
        (rw breaker_of-record_attempt (
          subst (λ t. Counts threshold 0 (update_breaker t now true fp (breaker_of p k))) (sym same)
            (update_breaker-Counts threshold n now fp (breaker_of p k) pos h).0))
  record_all-Counts ((now, false, fp) ∷ os) n p same h =
      record_all-Counts os (suc n) (record_attempt now p k false fp).0
        (threshold-record_attempt now p k false fp ∙ same)
        (rw breaker_of-record_attempt (
          subst (λ t. Counts threshold (suc n) (update_breaker t now false fp (breaker_of p k)))
            (sym same) (update_breaker-Counts threshold n now fp (breaker_of p k) pos h).1))

  -- From a policy with a threshold of at least 1 and no breaker for the key, the breaker is open
  -- exactly when the failures since the last success are at least as many as the threshold, whatever
  -- their fingerprints.
  pub is_circuit_broken-record_all :
      (p : RetryPolicy) (os : List Outcome)
      → p.circuit_breaker_threshold ≡ threshold
      → get_circuit_breaker_state p k ≡ none
      → is_circuit_broken (record_all p k os) k ≡ leb threshold (failures_since 0 os)
  is_circuit_broken-record_all p os same missing =
      is_circuit_broken-breaker_of (record_all p k os) k
      ∙ (record_all-Counts os 0 p same start).opened
    where
      start : Counts threshold 0 (breaker_of p k)
      start = unfold breaker_of in rw missing (record { count = refl; opened = ground arith })

-- With the default threshold of 3, three failures in a row end the retries, whatever their
-- fingerprints: also where no error repeats.
pub should_retry_unlike_errors :
    (max_retries : ℕ) (k : Key) (t₁ t₂ t₃ : ℕ) (a b c : String)
    → should_retry
        (record_all (new max_retries) k ((t₁, false, a) ∷ (t₂, false, b) ∷ (t₃, false, c) ∷ []))
        k
      ≡ false
unfolding should_retry
should_retry_unlike_errors max_retries k t₁ t₂ t₃ a b c =
    rw
      (is_circuit_broken-record_all k 3 (omega arith) (new max_retries) _ (unfold new in refl)
        (unfold new get_circuit_breaker_state in refl))
      (unfold failures_since in refl)

-- A breaker of another key stays as it is.
pub is_circuit_broken-record_attempt_ne :
    (now : ℕ) (p : RetryPolicy) (k j : Key) (success : Bool) (fp : String)
    → ¬ (k ≡ j)
    → is_circuit_broken (record_attempt now p k success fp).0 j ≡ is_circuit_broken p j
unfolding is_circuit_broken
is_circuit_broken-record_attempt_ne now p k j success fp n =
    rw (get_circuit_breaker_state-record_attempt, if_neg (Key-discrete k j) n)
