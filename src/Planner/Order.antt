-- ===== src/Planner/Order.antt =====
-- The invariant of the loop of `_topological_sort` of planner/__init__.py.
use fastcoder.Base.{
  suc, ◌+◌, ◌≤◌, ◌<◌, String, ◌≡◌, refl, ap, sym, subst, ◌⊎◌, ⊎_elim, true, false, List, [], ◌∷◌,
  ◌++◌, Memᴰ, none, some, arith, length, Memᴰ-cons,
}
use mathlib.Core.List.Memᴰ
use fastcoder.Codebase.{contains}
use fastcoder.Codebase.Impact.Loop.{contains-eq-true_iff, fresh}
use fastcoder.Planner.{PlanTask, pos, Kahn}
use fastcoder.Planner.Counts.{occurs, find, AreDistinct}
use fastcoder.Planner.Loop.{count_of}

abbrev pub ids : List PlanTask → List String
ids [] = []
ids (t ∷ ts) = t.id ∷ ids ts

pub ids-snoc : (ts : List PlanTask) (t : PlanTask) → ids (ts ++ t ∷ []) ≡ ids ts ++ t.id ∷ []
ids-snoc [] t = refl
ids-snoc (u ∷ ts) t = ap (λ rest. u.id ∷ rest) (ids-snoc ts t)

pub length-ids : (ts : List PlanTask) → length (ids ts) ≡ length ts
length-ids [] = refl
length-ids (t ∷ ts) = ap suc (length-ids ts)

-- The dependencies of each task stand before it.
pub data IsOrdered : List PlanTask → Type 0 where
  nil : IsOrdered []
  snoc :
      (ts : List PlanTask) (t : PlanTask)
      → IsOrdered ts
      → ((d : String) → Memᴰ d t.depends_on → Memᴰ d (ids ts))
      → IsOrdered (ts ++ t ∷ [])

fresh_head :
    (x : String) (all seen : List String)
    → fresh (x ∷ all) seen ≡ 0
    → (contains x seen ≡ true) × (fresh all seen ≡ 0)
fresh_head x all seen h = ground arith

pub fresh_none :
    (all seen : List String) → fresh all seen ≡ 0 → (d : String) → Memᴰ d all → Memᴰ d seen
fresh_none [] seen h d m = absurd (Memᴰ.not-nil m)
fresh_none (x ∷ all) seen h d m =
    let (first, rest) = fresh_head x all seen h in
    ⊎_elim (λ e. subst (λ y. Memᴰ y seen) (sym e) ((contains-eq-true_iff x seen).0 first))
      (fresh_none all seen rest d) (Memᴰ.cases_cons m)

module _ (tasks : List PlanTask) where
  pub find-id : (i : String) (t : PlanTask) (ts : List PlanTask) → find i ts ≡ some t → t.id ≡ i
  find-id i t [] e = cc
  find-id i t (u ∷ ts) e = ground (arith, find-id i t ts)

  pub find-mem : (i : String) (t : PlanTask) (ts : List PlanTask) → find i ts ≡ some t → Memᴰ t ts
  find-mem i t [] e = cc
  find-mem i t (u ∷ ts) e = ground (arith, find-mem i t ts, Memᴰ-cons t u ts)

  occurs-ids-none : (i : String) (ts : List PlanTask) → find i ts ≡ none → occurs i (ids ts) ≡ 0
  occurs-ids-none i [] e = refl
  occurs-ids-none i (u ∷ ts) e = ground (arith, occurs-ids-none i ts)

  pub occurs-ids :
      (i : String) (t : PlanTask) (ts : List PlanTask)
      → AreDistinct ts
      → find i ts ≡ some t
      → occurs i (ids ts) ≡ 1
  occurs-ids i t [] a e = cc
  occurs-ids i t (u ∷ ts) (n, a) e = ground (arith, occurs-ids i t ts a, occurs-ids-none i ts)

  pub record Inv (k : Kahn) : Type 0 where
    pub counts :
        (i : String) (t : PlanTask)
        → find i tasks ≡ some t
        → count_of i k ≡ some (pos (fresh t.depends_on (ids k.sorted_tasks)))
    pub settled :
        (i : String) (t : PlanTask)
        → find i tasks ≡ some t
        → fresh t.depends_on (ids k.sorted_tasks) ≡ 0
        → (contains i (ids k.sorted_tasks) ≡ true) ⊎ (0 < occurs i k.queue)
    pub queued :
        (i : String)
        → 0 < occurs i k.queue
        → (t : PlanTask) × (find i tasks ≡ some t)
          × (fresh t.depends_on (ids k.sorted_tasks) ≡ 0)
          × (contains i (ids k.sorted_tasks) ≡ false)
    pub once : (i : String) → occurs i k.queue ≤ 1
    pub finished :
        (i : String) (t : PlanTask)
        → find i tasks ≡ some t
        → contains i (ids k.sorted_tasks) ≡ true
        → fresh t.depends_on (ids k.sorted_tasks) ≡ 0
    pub ordered : IsOrdered k.sorted_tasks
    pub found : (t : PlanTask) → Memᴰ t k.sorted_tasks → find t.id tasks ≡ some t
    pub total : fresh (ids tasks) (ids k.sorted_tasks) + length k.sorted_tasks ≡ length tasks
