-- ===== src/Planner/Loop.antt =====
-- The loop of `_topological_sort` of planner/__init__.py, round by round.
use fastcoder.Base.{
  ℕ, zero, suc, ◌+◌, ◌-◌, ◌≤◌, ◌<◌, String, ◌≡◌, refl, ap, sym, subst, ◌∙◌, ◌&&◌, List, [], ◌∷◌,
  Option, none, some, arith, ite, if◌then◌else◌, ◌==◌, ltb, string_discrete,
}
use mathlib.Core.List.{foldl}
use fastcoder.Base.Dict
use fastcoder.Base.Dict.{Dict, get-put}
use fastcoder.Planner.{Counter, pos, negsuc, decrement, is_zero, Kahn, lower, release}
use fastcoder.Planner.Counts.{occurs, occurs-append}

-- Whether a count of `m` that is lowered `n` times comes to 0 on the way.
abbrev pub freed : ℕ → ℕ → ℕ
freed m n = if ltb 0 n && (m == n) then 1 else 0

unfoldable pub count_of : String → Kahn → Option Counter
unfolding Dict.get string_discrete
count_of i k = Dict.get string_discrete i k.in_degree

-- One neighbour, for an id with the count `m`.
release_one :
    (i j : String) (k : Kahn) (m : ℕ)
    → count_of i k ≡ some (pos m)
    → (j ≡ i → 0 < m)
    → (count_of i (release k j) ≡ some (pos (m - ite (string_discrete j i) 1 0)))
      × (occurs i (release k j).queue
          ≡ occurs i k.queue + ite (string_discrete j i) (if m == 1 then 1 else 0) 0)
unfolding count_of release decrement is_zero
release_one i j k m e some_left = by_count (Dict.get string_discrete j k.in_degree) refl
  where
    by_count :
        (o : Option Counter)
        → Dict.get string_discrete j k.in_degree ≡ o
        → (Dict.get string_discrete i (lower j o k).in_degree
            ≡ some (pos (m - ite (string_discrete j i) 1 0)))
          × (occurs i (lower j o k).queue
              ≡ occurs i k.queue + ite (string_discrete j i) (if m == 1 then 1 else 0) 0)
    by_count none g = ground arith
    by_count (some (pos zero)) g = ground (
      arith,
      get-put string_discrete j i (decrement (pos zero)) k.in_degree,
      occurs-append i k.queue (j ∷ []),
    )
    by_count (some (pos (suc n))) g = ground (
      arith,
      get-put string_discrete j i (decrement (pos (suc n))) k.in_degree,
      occurs-append i k.queue (j ∷ []),
    )
    by_count (some (negsuc n)) g = ground (
      arith,
      get-put string_discrete j i (decrement (negsuc n)) k.in_degree,
      occurs-append i k.queue (j ∷ []),
    )

release_other :
    (i j : String) (k : Kahn) → ¬ (i ≡ j) → occurs i (release k j).queue ≡ occurs i k.queue
unfolding release lower
release_other i j k n = by_count (Dict.get string_discrete j k.in_degree)
  where
    by_count : (o : Option Counter) → occurs i (lower j o k).queue ≡ occurs i k.queue
    by_count none = refl
    by_count (some c) = ground (arith, occurs-append i k.queue (j ∷ []))

sorted-release_one : (j : String) (k : Kahn) → (release k j).sorted_tasks ≡ k.sorted_tasks
unfolding release lower
sorted-release_one j k = by_count (Dict.get string_discrete j k.in_degree)
  where
    by_count : (o : Option Counter) → (lower j o k).sorted_tasks ≡ k.sorted_tasks
    by_count none = refl
    by_count (some c) = refl

release_hit :
    (i : String) (k : Kahn) (m : ℕ)
    → count_of i k ≡ some (pos (suc m))
    → (count_of i (release k i) ≡ some (pos m))
      × (occurs i (release k i).queue ≡ occurs i k.queue + (if m == 0 then 1 else 0))
release_hit i k m e = ground (arith, release_one i i k (suc m) e (λ _. omega arith))

release_miss :
    (i j : String) (k : Kahn) (m : ℕ)
    → ¬ (i ≡ j)
    → count_of i k ≡ some (pos m)
    → (count_of i (release k j) ≡ some (pos m)) × (occurs i (release k j).queue ≡ occurs i k.queue)
release_miss i j k m n e =
    (ground (arith, release_one i j k m e (λ same. absurd (n (sym same)))), release_other i j k n)

freed-suc : (m n : ℕ) → n ≤ m → freed (suc m) (suc n) ≡ (if m == 0 then 1 else 0) + freed m n
freed-suc m n h = ground arith

occurs_hit : (i j : String) (js : List String) → i ≡ j → occurs i (j ∷ js) ≡ suc (occurs i js)
occurs_hit i j js e = ground arith

occurs_miss : (i j : String) (js : List String) → ¬ (i ≡ j) → occurs i (j ∷ js) ≡ occurs i js
occurs_miss i j js n = ground arith

-- What releasing the ids `js` does to `i`, which had the count `m`.
abbrev pub IsReleased : String → Kahn → Kahn → ℕ → ℕ → Type 0
IsReleased i k k' m n =
    (count_of i k' ≡ some (pos (m - n))) × (occurs i k'.queue ≡ occurs i k.queue + freed m n)

-- All neighbours, for an id that is among them at most as often as its count says.
pub release_all :
    (i : String) (js : List String) (k : Kahn) (m : ℕ)
    → count_of i k ≡ some (pos m)
    → occurs i js ≤ m
    → IsReleased i k (foldl release k js) m (occurs i js)
release_all i [] k m e h = ground arith
release_all i (j ∷ js) k zero e h = elim (string_discrete i j) [
  | yes same ↦ absurd (omega (arith, occurs_hit i j js same))
  | no n ↦
      let (one, queued) = release_miss i j k zero n e in
      let (all, rest) =
        release_all i js (release k j) zero one (omega (arith, occurs_miss i j js n)) in
      subst (λ o. IsReleased i k (foldl release k (j ∷ js)) zero o) (sym (occurs_miss i j js n))
        (all, omega (arith, rest, queued))
]
release_all i (j ∷ js) k (suc m) e h = elim (string_discrete i j) [
  | yes same ↦
      let (one, queued) = release_hit i k m e in
      let (all, rest) =
        release_all i js (release k i) m one (omega (arith, occurs_hit i j js same)) in
      subst (λ o. IsReleased i k (foldl release k (j ∷ js)) (suc m) o)
        (sym (occurs_hit i j js same))
        (subst (λ x. IsReleased i k (foldl release (release k x) js) (suc m) (suc (occurs i js)))
          same
          (
            all ∙ ap (λ x. some (pos x)) (omega arith),
            omega (
              arith,
              rest,
              queued,
              freed-suc m (occurs i js) (omega (arith, occurs_hit i j js same)),
            ),
          ))
  | no n ↦
      let (one, queued) = release_miss i j k (suc m) n e in
      let (all, rest) =
        release_all i js (release k j) (suc m) one (omega (arith, occurs_miss i j js n)) in
      subst (λ o. IsReleased i k (foldl release k (j ∷ js)) (suc m) o) (sym (occurs_miss i j js n))
        (all, omega (arith, rest, queued))
]

-- An id that is not among the neighbours.
pub release_others :
    (i : String) (js : List String) (k : Kahn)
    → occurs i js ≡ 0
    → occurs i (foldl release k js).queue ≡ occurs i k.queue
release_others i [] k h = refl
release_others i (j ∷ js) k h =
    ground (arith, release_others i js (release k j), release_other i j k)

pub sorted-release :
    (js : List String) (k : Kahn) → (foldl release k js).sorted_tasks ≡ k.sorted_tasks
sorted-release [] k = refl
sorted-release (j ∷ js) k = sorted-release js (release k j) ∙ sorted-release_one j k
