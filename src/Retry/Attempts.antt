-- ===== src/Retry/Attempts.antt =====
-- What retry_policy.py remembers of the attempts, and the bound that `should_retry` puts on them.
use fastcoder.Base.{
  ℕ, suc, ◌+◌, ◌≤◌, String, ◌≡◌, refl, Bool, true, false, List, [], ◌∷◌, ◌++◌, some, arith, length,
  length-append, ite, ite_ind, subst, if◌then◌else◌,
}
use fastcoder.Base.Dict.{get-put, get-remove}
use fastcoder.Retry.{
  update_circuit_breaker, Key, Key-discrete, RetryAttempt, RetryPolicy, new, get_attempts,
  get_retry_count, should_retry, record_attempt, make_attempt, get_backoff_seconds,
  get_circuit_breaker_state, update_breaker, fresh_breaker, reset, clear_all,
}
use mathlib.Core.Option.{get_or}

-- An attempt is added to the list of its own key, and to no other.
pub get_attempts-record_attempt :
    (now : ℕ) (p : RetryPolicy) (k j : Key) (success : Bool) (fp : String)
    → get_attempts (record_attempt now p k success fp).0 j
      ≡ ite
          (Key-discrete k j)
          (get_attempts p k ++ make_attempt now p k success fp ∷ [])
          (get_attempts p j)
unfolding record_attempt
get_attempts-record_attempt now p k j success fp = rw get-put (ground arith)

pub get_circuit_breaker_state-record_attempt :
    (now : ℕ) (p : RetryPolicy) (k j : Key) (success : Bool) (fp : String)
    → get_circuit_breaker_state (record_attempt now p k success fp).0 j
      ≡ ite
          (Key-discrete k j)
          (some (
            update_breaker p.circuit_breaker_threshold now success fp
              (get_or (get_circuit_breaker_state p k) (fresh_breaker k))))
          (get_circuit_breaker_state p j)
unfolding get_circuit_breaker_state record_attempt
get_circuit_breaker_state-record_attempt now p k j success fp = get-put Key-discrete k j _ _

-- An event in the life of the policy.
pub data Event : Type 0 where
  attempt : ℕ → Key → Bool → String → Event
  reset_key : Key → Event
  clear : Event

unfoldable pub handle : RetryPolicy → Event → RetryPolicy
unfolding record_attempt reset clear_all
handle p (attempt now k success fp) = (record_attempt now p k success fp).0
handle p (reset_key k) = reset p k
handle p clear = clear_all p

unfoldable pub run : RetryPolicy → List Event → RetryPolicy
unfolding handle
run p [] = p
run p (e ∷ es) = run (handle p e) es

-- The list of a key's attempts, numbered from `n`: each names the key, and none waits for longer
-- than the bound, nor at all after a success.
abbrev pub Numbered : ℕ → Key → ℕ → List RetryAttempt → Type 0
Numbered bound k n [] = Unit
Numbered bound k n (a ∷ l) =
    (a.attempt_number ≡ n)
    × (a.story_id ≡ k.0)
    × (a.stage ≡ k.1)
    × (a.backoff_seconds ≤ bound)
    × (a.success ≡ true → a.backoff_seconds ≡ 0)
    × Numbered bound k (suc n) l

Numbered-append :
    (bound : ℕ) (k : Key) (n : ℕ) (l : List RetryAttempt) (a : RetryAttempt)
    → Numbered bound k n l
    → Numbered bound k (n + length l) (a ∷ [])
    → Numbered bound k n (l ++ a ∷ [])
Numbered-append bound k n [] a h r = ground arith
Numbered-append bound k n (b ∷ l) a (e0, e1, e2, e3, e4, h) r =
    (e0, e1, e2, e3, e4, Numbered-append bound k (suc n) l a h (ground arith))

make_attempt-Numbered :
    (now : ℕ) (p : RetryPolicy) (k : Key) (success : Bool) (fp : String)
    → Numbered p.max_backoff_seconds k
        (length (get_attempts p k))
        (make_attempt now p k success fp ∷ [])
unfolding make_attempt get_backoff_seconds get_retry_count
make_attempt-Numbered now p k true fp = ground arith
make_attempt-Numbered now p k false fp = ground arith

-- The policy waits for `bound` at most, and the attempts of each key are numbered from 0.
pub record IsNumbered (bound : ℕ) (p : RetryPolicy) : Type 0 where
  pub cap : p.max_backoff_seconds ≡ bound
  pub at_key : (k : Key) → Numbered bound k 0 (get_attempts p k)

record_attempt-IsNumbered :
    {bound : ℕ} (now : ℕ) (p : RetryPolicy) (k : Key) (success : Bool) (fp : String)
    → IsNumbered bound p
    → IsNumbered bound (record_attempt now p k success fp).0
record_attempt-IsNumbered {bound} now p k success fp h = record {
  cap = unfold record_attempt in h.cap;
  at_key = λ j. rw get_attempts-record_attempt (
      ite_ind (Numbered bound j 0) (Key-discrete k j)
        (λ e. subst (λ i. Numbered bound i 0 (get_attempts p k ++ new ∷ [])) e longer)
        (λ _. h.at_key j));
}
  where
    new : RetryAttempt
    new = make_attempt now p k success fp

    longer : Numbered bound k 0 (get_attempts p k ++ new ∷ [])
    longer =
        Numbered-append bound k 0 (get_attempts p k) new (h.at_key k)
          (ground (arith, h.cap, make_attempt-Numbered now p k success fp))

reset-IsNumbered :
    {bound : ℕ} (p : RetryPolicy) (k : Key) → IsNumbered bound p → IsNumbered bound (reset p k)
unfolding reset get_attempts
reset-IsNumbered {bound} p k h = record {
  cap = h.cap;
  at_key = λ j. rw get-remove (
      ite_ind (λ o. Numbered bound j 0 (get_or o [])) (Key-discrete k j) (λ _. tt)
        (λ _. h.at_key j));
}

handle-IsNumbered :
    {bound : ℕ} (p : RetryPolicy) (e : Event) → IsNumbered bound p → IsNumbered bound (handle p e)
unfolding handle get_attempts
handle-IsNumbered p (attempt now k success fp) h = record_attempt-IsNumbered now p k success fp h
handle-IsNumbered p (reset_key k) h = reset-IsNumbered p k h
handle-IsNumbered p clear h = record { cap = h.cap; at_key = λ j. tt }

run-IsNumbered :
    {bound : ℕ} (es : List Event) (p : RetryPolicy)
    → IsNumbered bound p
    → IsNumbered bound (run p es)
unfolding run
run-IsNumbered [] p h = h
run-IsNumbered (e ∷ es) p h = run-IsNumbered es (handle p e) (handle-IsNumbered p e h)

-- After any attempts and resets, for any stories and stages, the attempts of a key are numbered
-- from 0 in the order in which they were made, each names that key, no attempt waits for longer
-- than 30, and one that succeeded does not wait at all.
pub run-new-Numbered :
    (max_retries : ℕ) (es : List Event) (k : Key)
    → Numbered 30 k 0 (get_attempts (run (new max_retries) es) k)
run-new-Numbered max_retries es k = (run-IsNumbered es (new max_retries) fresh).at_key k
  where
    fresh : IsNumbered 30 (new max_retries)
    fresh = record { cap = unfold new in refl; at_key = λ j. unfold new get_attempts in tt }

-- The caller's use: an attempt is recorded only where `should_retry` allows it.
unfoldable pub try : ℕ → RetryPolicy → Key → Bool → String → RetryPolicy
try now p k success fp = if should_retry p k then (record_attempt now p k success fp).0 else p

get_retry_count-try-le :
    (now : ℕ) (p : RetryPolicy) (k : Key) (success : Bool) (fp : String) (j : Key)
    → get_retry_count p j ≤ p.max_retries_per_stage
    → get_retry_count (try now p k success fp) j ≤ p.max_retries_per_stage
unfolding get_retry_count try should_retry
get_retry_count-try-le now p k success fp j h = ground (
  arith,
  get_attempts-record_attempt now p k j success fp,
  length-append (get_attempts p k) (make_attempt now p k success fp ∷ []),
)

max_retries-try :
    (now : ℕ) (p : RetryPolicy) (k : Key) (success : Bool) (fp : String)
    → (try now p k success fp).max_retries_per_stage ≡ p.max_retries_per_stage
unfolding try record_attempt update_circuit_breaker
max_retries-try now p k success fp = by_verdict (should_retry p k)
  where
    by_verdict :
        (b : Bool)
        → (if b then (record_attempt now p k success fp).0 else p).max_retries_per_stage
          ≡ p.max_retries_per_stage
    by_verdict true = refl
    by_verdict false = refl

-- One use after another: the time, the key, the outcome and the fingerprint of each.
unfoldable pub try_all : RetryPolicy → List (ℕ × Key × Bool × String) → RetryPolicy
try_all p [] = p
try_all p ((now, k, success, fp) ∷ ts) = try_all (try now p k success fp) ts

try_all-le :
    (ts : List (ℕ × Key × Bool × String)) (p : RetryPolicy) (j : Key)
    → get_retry_count p j ≤ p.max_retries_per_stage
    → get_retry_count (try_all p ts) j ≤ p.max_retries_per_stage
unfolding try_all
try_all-le [] p j h = h
try_all-le ((now, k, success, fp) ∷ ts) p j h =
    let same = max_retries-try now p k success fp in
    let rest =
      try_all-le ts (try now p k success fp) j
        (omega (arith, same, get_retry_count-try-le now p k success fp j h)) in
    omega (arith, same, rest)

-- When attempts are recorded only where `should_retry` allows them, no story has more attempts
-- recorded in a stage than the bound, in any order of stories, stages and outcomes.
pub get_retry_count-try_all-le :
    (max_retries : ℕ) (ts : List (ℕ × Key × Bool × String)) (j : Key)
    → get_retry_count (try_all (new max_retries) ts) j ≤ max_retries
unfolding new get_retry_count
get_retry_count-try_all-le max_retries ts j = try_all-le ts (new max_retries) j (omega arith)
