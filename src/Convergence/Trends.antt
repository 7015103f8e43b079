-- ===== src/Convergence/Trends.antt =====
-- `_check_stuck` and `_check_diverging` of convergence_detector.py, said of the iterations.
use fastcoder.Base.{
  ℕ, zero, suc, ◌+◌, ◌≤◌, ◌<◌, ◌/◌, ◌≡◌, refl, ap, ◌≢◌, ◌↔◌, inl, inr, true, false, List, [], ◌∷◌,
  none, some, arith, ltb, length, take, drop, last_n, Bool-cases, All,
}
use fastcoder.Story.{Iteration}
use fastcoder.Convergence.{
  ConvergenceDetector, ConvergenceResult, stuck, diverging, error_counts, all_nonzero, check_stuck,
  sum, check_diverging, is_empty, error_count_of,
}

abbrev pub IsFailing : Iteration → Type 0
IsFailing i = i.error_context ≢ none

-- How many of the iterations ended in an error.
unfoldable pub failing_count : List Iteration → ℕ
failing_count [] = 0
failing_count (i ∷ is) = error_count_of i.error_context + failing_count is

-- As many iterations as the threshold, at least, and the last of them all failing.
abbrev pub IsStuck : ConvergenceDetector → List Iteration → Type 0
IsStuck d is = (d.stuck_threshold ≤ length is) × All IsFailing (last_n d.stuck_threshold is)

-- More failing iterations in the later half than in the earlier one.
abbrev pub IsDiverging : List Iteration → Type 0
IsDiverging is =
    (2 ≤ length is)
    × (failing_count (take (length is / 2) is) < failing_count (drop (length is / 2) is))

length-error_counts : (is : List Iteration) → length (error_counts is) ≡ length is
unfolding error_counts
length-error_counts [] = refl
length-error_counts (i ∷ is) = omega (arith, length-error_counts is)

drop-error_counts :
    (n : ℕ) (is : List Iteration) → drop n (error_counts is) ≡ error_counts (drop n is)
unfolding error_counts
drop-error_counts zero is = refl
drop-error_counts (suc n) [] = refl
drop-error_counts (suc n) (i ∷ is) = drop-error_counts n is

take-error_counts :
    (n : ℕ) (is : List Iteration) → take n (error_counts is) ≡ error_counts (take n is)
unfolding error_counts
take-error_counts zero is = refl
take-error_counts (suc n) [] = refl
take-error_counts (suc n) (i ∷ is) =
    ap (◌∷◌ (error_count_of i.error_context)) (take-error_counts n is)

last_n-error_counts :
    (n : ℕ) (is : List Iteration) → last_n n (error_counts is) ≡ error_counts (last_n n is)
unfolding last_n
last_n-error_counts zero is = refl
last_n-error_counts (suc n) is = rw length-error_counts (drop-error_counts _ is)

sum-error_counts : (is : List Iteration) → sum (error_counts is) ≡ failing_count is
unfolding sum error_counts failing_count
sum-error_counts [] = refl
sum-error_counts (i ∷ is) = omega (arith, sum-error_counts is)

all_nonzero-error_counts :
    (is : List Iteration) → (all_nonzero (error_counts is) ≡ true) ↔ All IsFailing is
unfolding all_nonzero error_counts
all_nonzero-error_counts [] = (λ _. tt, λ _. refl)
all_nonzero-error_counts (i ∷ is) =
    let (f, g) = all_nonzero-error_counts is in
    (λ h. (ground arith, f (ground arith)), λ h. ground (arith, g h.1))

pub check_stuck_iff :
    (d : ConvergenceDetector) (is : List Iteration)
    → (check_stuck d (error_counts is) ≢ none) ↔ IsStuck d is
unfolding check_stuck
check_stuck_iff d is =
    let (f, g) = all_nonzero-error_counts (last_n d.stuck_threshold is) in
    let e = last_n-error_counts d.stuck_threshold is in
    let l = length-error_counts is in
    (λ h. (ground arith, f (ground arith)), λ h. ground (arith, g h.1))

is_empty-take : (n : ℕ) (ns : List ℕ) → 0 < n → 0 < length ns → is_empty (take n ns) ≡ false
is_empty-take (suc n) (x ∷ ns) _ _ = refl
is_empty-take zero ns h _ = absurd (omega arith)
is_empty-take (suc n) [] _ h = absurd (omega arith)

is_empty-drop : (n : ℕ) (ns : List ℕ) → n < length ns → is_empty (drop n ns) ≡ false
is_empty-drop zero (x ∷ ns) h = refl
is_empty-drop zero [] h = absurd (omega arith)
is_empty-drop (suc n) [] h = absurd (omega arith)
is_empty-drop (suc n) (x ∷ ns) h = is_empty-drop n ns (omega arith)

check_diverging_sums :
    (ns : List ℕ)
    → (check_diverging ns ≢ none)
      ↔ ((2 ≤ length ns) × (sum (take (length ns / 2) ns) < sum (drop (length ns / 2) ns)))
unfolding check_diverging
check_diverging_sums ns = elim (Bool-cases (ltb (length ns) 2)) [
  | inl short ↦ (λ h. absurd (h (rw short)), λ (two, _). absurd (ground arith))
  | inr long ↦
      let first = is_empty-take (length ns / 2) ns (ground arith) (ground arith) in
      let second = is_empty-drop (length ns / 2) ns (ground arith) in
      (λ h. (ground arith, ground arith), λ h. ground arith)
]

pub check_diverging_iff :
    (is : List Iteration) → (check_diverging (error_counts is) ≢ none) ↔ IsDiverging is
check_diverging_iff is =
    simp (length-error_counts, take-error_counts, drop-error_counts, sum-error_counts) at
      (check_diverging_sums (error_counts is))

pub check_stuck-status :
    (d : ConvergenceDetector) (ns : List ℕ) {r : ConvergenceResult}
    → check_stuck d ns ≡ some r
    → r.status ≡ stuck
unfolding check_stuck
check_stuck-status d ns e = ground arith

pub check_diverging-status :
    (ns : List ℕ) {r : ConvergenceResult} → check_diverging ns ≡ some r → r.status ≡ diverging
unfolding check_diverging
check_diverging-status ns e = ground arith
