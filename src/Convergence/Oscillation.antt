-- ===== src/Convergence/Oscillation.antt =====
-- `_check_oscillation` of convergence_detector.py against the count of each fingerprint.
use fastcoder.Base.{
  ℕ, suc, ◌+◌, ◌≤◌, String, ◌≡◌, refl, sym, subst, ◌∙◌, ap, inl, inr, List, [], ◌∷◌, none, some,
  arith, leb, ite, length, string_discrete, Bool-cases, leb→le,
}
use fastcoder.Base.Dict
use fastcoder.Base.Dict.{Dict, get-put, IsUnique, put-IsUnique, get-eq-some_of_mem}
use fastcoder.Convergence.{
  ConvergenceResult, oscillating_result, fingerprint_counts, first_repeated, check_oscillation,
}
use mathlib.Core.List.{Memᴰ}
use mathlib.Core.Option.{get_or}

-- How often a fingerprint stands in a list.
unfoldable pub count : String → List String → ℕ
unfolding string_discrete
count fp [] = 0
count fp (x ∷ xs) = let rest = count fp xs in ite (string_discrete x fp) (suc rest) rest

-- The dictionary of the loop holds the counts of what it has seen.
get-fingerprint_counts :
    (fp : String) (fps : List String) (d : Dict String ℕ)
    → get_or (Dict.get string_discrete fp (fingerprint_counts d fps)) 0
      ≡ get_or (Dict.get string_discrete fp d) 0 + count fp fps
unfolding fingerprint_counts count
get-fingerprint_counts fp [] d = omega arith
get-fingerprint_counts fp (x ∷ fps) d =
    let seen : ℕ = get_or (Dict.get string_discrete x d) 0 + 1 in
    ground (
      arith,
      get-fingerprint_counts fp fps (Dict.put string_discrete x seen d),
      get-put string_discrete x fp seen d,
    )

fingerprint_counts-IsUnique :
    (fps : List String) (d : Dict String ℕ)
    → IsUnique string_discrete d
    → IsUnique string_discrete (fingerprint_counts d fps)
unfolding fingerprint_counts
fingerprint_counts-IsUnique [] d u = u
fingerprint_counts-IsUnique (x ∷ fps) d u =
    fingerprint_counts-IsUnique fps _ (put-IsUnique string_discrete x _ d u)

-- A result names an entry whose count is at least 2, and there is no result only if no key has one.
first_repeated-some :
    (d : Dict String ℕ) {r : ConvergenceResult}
    → first_repeated d ≡ some r
    → (fp : String) × (n : ℕ) × Memᴰ (fp, n) d × (2 ≤ n) × (r ≡ oscillating_result fp n)
unfolding first_repeated
first_repeated-some [] e = cc
first_repeated-some ((fp, n) ∷ d) e = elim (Bool-cases (leb 2 n)) [
  | inl many ↦ (fp, n, Memᴰ.head refl, leb→le 2 n many, ground arith)
  | inr few ↦
      let (x, m, mem, more, eq) = first_repeated-some d (rw few at e) in
      (x, m, Memᴰ.tail mem, more, eq)
]

first_repeated-none :
    (d : Dict String ℕ) (fp : String)
    → first_repeated d ≡ none
    → get_or (Dict.get string_discrete fp d) 0 ≤ 1
unfolding first_repeated Dict.get
first_repeated-none [] fp e = omega arith
first_repeated-none ((x, n) ∷ d) fp e = ground (arith, first_repeated-none d fp)

count-le-length : (fp : String) (fps : List String) → count fp fps ≤ length fps
unfolding count
count-le-length fp [] = omega arith
count-le-length fp (x ∷ fps) = ground (arith, count-le-length fp fps)

get-counts :
    (fp : String) (fps : List String)
    → get_or (Dict.get string_discrete fp (fingerprint_counts [] fps)) 0 ≡ count fp fps
unfolding Dict.get
get-counts fp fps = omega (arith, get-fingerprint_counts fp fps [])

-- The test on the length of the list changes nothing: a list of one fingerprint repeats none.
check_oscillation-first_repeated :
    (fps : List String) → check_oscillation fps ≡ first_repeated (fingerprint_counts [] fps)
unfolding check_oscillation
check_oscillation-first_repeated [] = refl
check_oscillation-first_repeated (x ∷ []) = refl
check_oscillation-first_repeated (x ∷ y ∷ fps) = ground arith

-- A result names a fingerprint and the number of times that it stands in the list, at least twice;
-- and there is no result only if each stands there once at most.
pub check_oscillation_lem :
    (fps : List String)
    → ((r : ConvergenceResult)
        → check_oscillation fps ≡ some r
        → (fp : String) × (2 ≤ count fp fps) × (r ≡ oscillating_result fp (count fp fps)))
      × (check_oscillation fps ≡ none → (fp : String) → count fp fps ≤ 1)
check_oscillation_lem fps = (sound, complete)
  where
    scan : check_oscillation fps ≡ first_repeated (fingerprint_counts [] fps)
    scan = check_oscillation-first_repeated fps

    sound :
        (r : ConvergenceResult)
        → check_oscillation fps ≡ some r
        → (fp : String) × (2 ≤ count fp fps) × (r ≡ oscillating_result fp (count fp fps))
    sound r e =
        let (fp, n, mem, many, eq) =
          first_repeated-some (fingerprint_counts [] fps) (sym scan ∙ e) in
        let at =
          get-eq-some_of_mem string_discrete fp n _ (fingerprint_counts-IsUnique fps [] tt) mem in
        let same : n ≡ count fp fps = sym (ap (λ o. get_or o 0) at) ∙ get-counts fp fps in
        (fp, omega arith, subst (λ m. r ≡ oscillating_result fp m) same eq)

    complete : check_oscillation fps ≡ none → (fp : String) → count fp fps ≤ 1
    complete e fp = omega (
      arith,
      first_repeated-none (fingerprint_counts [] fps) fp (sym scan ∙ e),
      get-counts fp fps,
    )
