-- ===== src/Planner/Counts.antt =====
-- Counting names: how often one stands in a list, and what `_topological_sort` of planner/__init__.py
-- counts for the tasks of a plan whose ids are distinct.
use fastcoder.Base.{
  ℕ, suc, ◌+◌, String, ◌≡◌, refl, ap, ◌∙◌, Bool, true, false, List, [], ◌∷◌, ◌++◌, Option, none,
  some, arith, ite, if◌then◌else◌, length, string_discrete,
}
use mathlib.Core.Option
use fastcoder.Base.Dict
use fastcoder.Base.Dict.{Dict, get-put, IsUnique, put-IsUnique}
use fastcoder.Codebase.{contains}
use fastcoder.Codebase.Impact.Loop.{contains-snoc, fresh}
use fastcoder.Planner.{
  PlanTask, Counter, pos, is_zero, task_by_id, in_degrees, Graph, some?, neighbors, link, add_edges,
  add_all_edges, edges, ready,
}

abbrev pub occurs : String → List String → ℕ
occurs a [] = 0
occurs a (x ∷ xs) = let rest = occurs a xs in ite (string_discrete a x) (suc rest) rest

pub occurs-append :
    (a : String) (xs ys : List String) → occurs a (xs ++ ys) ≡ occurs a xs + occurs a ys
occurs-append a [] ys = omega arith
occurs-append a (x ∷ xs) ys = ground (arith, occurs-append a xs ys)

-- A name that was not seen is counted as often as it stands there.
pub fresh-snoc :
    (all seen : List String) (c : String)
    → contains c seen ≡ false
    → fresh all (seen ++ c ∷ []) + occurs c all ≡ fresh all seen
fresh-snoc [] seen c n = omega arith
fresh-snoc (x ∷ all) seen c n = ground (arith, fresh-snoc all seen c n, contains-snoc x c seen)

-- The task with an id.
abbrev pub find : String → List PlanTask → Option PlanTask
find i [] = none
find i (t ∷ ts) = let rest = find i ts in ite (string_discrete t.id i) (some t) rest

abbrev pub deps_of : Option PlanTask → List String
deps_of none = []
deps_of (some t) = t.depends_on

-- No id stands twice.
abbrev pub AreDistinct : List PlanTask → Type 0
AreDistinct [] = Unit
AreDistinct (t ∷ ts) = (find t.id ts ≡ none) × AreDistinct ts

abbrev pub or_else {ℓ} : {A : Type ℓ} → Option A → Option A → Option A
or_else none o = o
or_else (some a) o = some a

abbrev pub degree : PlanTask → Counter
degree t = pos (length t.depends_on)

get-task_by_id :
    (i : String) (ts : List PlanTask) (d : Dict String PlanTask)
    → AreDistinct ts
    → Dict.get string_discrete i (task_by_id ts d)
      ≡ or_else (find i ts) (Dict.get string_discrete i d)
unfolding task_by_id
get-task_by_id i [] d a = refl
get-task_by_id i (t ∷ ts) d (n, a) = ground (
  arith,
  get-task_by_id i ts (Dict.put string_discrete t.id t d) a,
  get-put string_discrete t.id i t d,
)

get-in_degrees :
    (i : String) (ts : List PlanTask) (d : Dict String Counter)
    → AreDistinct ts
    → Dict.get string_discrete i (in_degrees ts d)
      ≡ or_else (Option.map degree (find i ts)) (Dict.get string_discrete i d)
unfolding in_degrees
get-in_degrees i [] d a = refl
get-in_degrees i (t ∷ ts) d (n, a) = ground (
  arith,
  get-in_degrees i ts (Dict.put string_discrete t.id (degree t) d) a,
  get-put string_discrete t.id i (degree t) d,
)

in_degrees-IsUnique :
    (ts : List PlanTask) (d : Dict String Counter)
    → IsUnique string_discrete d
    → IsUnique string_discrete (in_degrees ts d)
unfolding in_degrees
in_degrees-IsUnique [] d u = u
in_degrees-IsUnique (t ∷ ts) d u =
    in_degrees-IsUnique ts _ (put-IsUnique string_discrete t.id (degree t) d u)

neighbors-link :
    (dep id c : String) (g : Graph)
    → neighbors (link dep id g) c
      ≡ ite (string_discrete dep c) (neighbors g c ++ id ∷ []) (neighbors g c)
unfolding neighbors link
neighbors-link dep id c g =
    ground (arith, get-put string_discrete dep c (neighbors g dep ++ id ∷ []) g)

module _ (by_id : Dict String PlanTask) (c i : String)
    (known : some? (Dict.get string_discrete c by_id) ≡ true) where
  occurs-add_edges :
      (id : String) (deps : List String) (g : Graph)
      → occurs i (neighbors (add_edges by_id id deps g) c)
        ≡ occurs i (neighbors g c) + ite (string_discrete id i) (occurs c deps) 0
  unfolding add_edges
  occurs-add_edges id [] g = ground arith
  occurs-add_edges id (dep ∷ deps) g = ground (
    arith,
    occurs-add_edges id deps g,
    occurs-add_edges id deps (link dep id g),
    neighbors-link dep id c g,
    occurs-append i (neighbors g c) (id ∷ []),
  )

  occurs-add_all_edges :
      (ts : List PlanTask) (g : Graph)
      → AreDistinct ts
      → occurs i (neighbors (add_all_edges by_id ts g) c)
        ≡ occurs i (neighbors g c) + occurs c (deps_of (find i ts))
  unfolding add_all_edges
  occurs-add_all_edges [] g a = omega arith
  occurs-add_all_edges (t ∷ ts) g (n, a) = ground (
    arith,
    occurs-add_all_edges ts (add_edges by_id t.id t.depends_on g) a,
    occurs-add_edges t.id t.depends_on g,
  )

abbrev pub is_pos_zero : Option Counter → Bool
is_pos_zero none = false
is_pos_zero (some n) = is_zero n

occurs-ready :
    (i : String) (d : Dict String Counter)
    → IsUnique string_discrete d
    → occurs i (ready d) ≡ (if is_pos_zero (Dict.get string_discrete i d) then 1 else 0)
unfolding ready Dict.get is_zero
occurs-ready i [] u = refl
occurs-ready i ((j, n) ∷ d) (fresh_key, u) = ground (arith, occurs-ready i d u)

module _ (tasks : List PlanTask) (distinct : AreDistinct tasks) where
  pub by_id-find : (i : String) → Dict.get string_discrete i (task_by_id tasks []) ≡ find i tasks
  unfolding Dict.get
  by_id-find i = get-task_by_id i tasks [] distinct ∙ or_else-none (find i tasks)
    where
      or_else-none : (o : Option PlanTask) → or_else o none ≡ o
      or_else-none none = refl
      or_else-none (some t) = refl

  pub occurs-edges :
      (c i : String) (t : PlanTask)
      → find c tasks ≡ some t
      → occurs i (neighbors (edges tasks) c) ≡ occurs c (deps_of (find i tasks))
  unfolding edges neighbors Dict.get
  occurs-edges c i t e = omega (
    arith,
    occurs-add_all_edges (task_by_id tasks []) c i (ap some? (by_id-find c ∙ e)) tasks [] distinct,
  )

  -- At the start each task waits for all its dependencies, and those with none are ready.
  pub degrees-find :
      (i : String)
      → Dict.get string_discrete i (in_degrees tasks []) ≡ Option.map degree (find i tasks)
  unfolding Dict.get
  degrees-find i =
      get-in_degrees i tasks [] distinct ∙ or_else-none (Option.map degree (find i tasks))
    where
      or_else-none : (o : Option Counter) → or_else o none ≡ o
      or_else-none none = refl
      or_else-none (some n) = refl

  pub occurs-ready-degrees :
      (i : String)
      → occurs i (ready (in_degrees tasks []))
        ≡ (if is_pos_zero (Option.map degree (find i tasks)) then 1 else 0)
  occurs-ready-degrees i =
      occurs-ready i (in_degrees tasks []) (in_degrees-IsUnique tasks [] tt)
      ∙ ap (λ o. if is_pos_zero o then 1 else 0) (degrees-find i)
