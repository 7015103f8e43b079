-- ===== src/Planner/Start.antt =====
-- The state in which `_topological_sort` of planner/__init__.py begins, and names in tasks.
use fastcoder.Base.{
  ℕ, zero, suc, ◌≤◌, ◌<◌, String, ◌≡◌, refl, ap, sym, ◌∙◌, inr, true, false, List, [], ◌∷◌, Memᴰ,
  Option, none, some, arith, if◌then◌else◌, ◌==◌, length, elem,
}
use mathlib.Core.List.Memᴰ
use mathlib.Core.Option
use mathlib.Core.Option.{some-injective}
use fastcoder.Codebase.{contains}
use fastcoder.Codebase.Impact.Loop.{fresh}
use fastcoder.Planner.{PlanTask, pos, is_zero, start}
use fastcoder.Planner.Counts.{
  occurs, degree, is_pos_zero, find, AreDistinct, degrees-find, occurs-ready-degrees,
}
use fastcoder.Planner.Order.{ids, length-ids, nil, Inv}
use fastcoder.Planner.Loop.{count_of}

not-contains-nil : (x : String) → contains x [] ≡ false
unfolding contains elem
not-contains-nil x = refl

fresh-nil : (all : List String) → fresh all [] ≡ length all
fresh-nil [] = refl
fresh-nil (x ∷ all) = ground (arith, fresh-nil all, not-contains-nil x)

pub find_of_mem :
    (t : PlanTask) (ts : List PlanTask) → AreDistinct ts → Memᴰ t ts → find t.id ts ≡ some t
find_of_mem t [] a m = absurd (Memᴰ.not-nil m)
find_of_mem t (u ∷ ts) (n, a) (Memᴰ.head e) =
    let same : t.id ≡ u.id = ap PlanTask.id e in
    let value : some u ≡ some t = ap some (sym e) in ground arith
find_of_mem t (u ∷ ts) (n, a) (Memᴰ.tail m) = ground (arith, find_of_mem t ts a m)

pub mem-ids :
    (i : String) (ts : List PlanTask) → Memᴰ i (ids ts) → (t : PlanTask) × Memᴰ t ts × (t.id ≡ i)
mem-ids i [] m = absurd (Memᴰ.not-nil m)
mem-ids i (u ∷ ts) (Memᴰ.head e) = (u, Memᴰ.head refl, sym e)
mem-ids i (u ∷ ts) (Memᴰ.tail m) = let (t, m', e) = mem-ids i ts m in (t, Memᴰ.tail m', e)

pub ids-mem : (t : PlanTask) (ts : List PlanTask) → Memᴰ t ts → Memᴰ t.id (ids ts)
ids-mem t [] m = absurd (Memᴰ.not-nil m)
ids-mem t (u ∷ ts) (Memᴰ.head e) = Memᴰ.head (ap PlanTask.id e)
ids-mem t (u ∷ ts) (Memᴰ.tail m) = Memᴰ.tail (ids-mem t ts m)

pub fresh_zero :
    (all seen : List String)
    → ((d : String) → Memᴰ d all → contains d seen ≡ true)
    → fresh all seen ≡ 0
fresh_zero [] seen h = refl
fresh_zero (x ∷ all) seen h =
    let first = h x (Memᴰ.head refl) in
    let rest = fresh_zero all seen (λ d m. h d (Memᴰ.tail m)) in ground arith

module _ (tasks : List PlanTask) (distinct : AreDistinct tasks) where
  zero_or_not : (n : ℕ) → ◌≡◌ {A = ℕ} (if is_zero (pos n) then 1 else 0) (if n == 0 then 1 else 0)
  unfolding is_zero
  zero_or_not zero = refl
  zero_or_not (suc n) = ground arith

  -- Whether an id is ready at the start.
  is_ready : Option PlanTask → ℕ
  is_ready none = 0
  is_ready (some t) = if length t.depends_on == 0 then 1 else 0

  occurs-start : (i : String) → occurs i (start tasks).queue ≡ is_ready (find i tasks)
  unfolding start is_ready is_zero
  occurs-start i = occurs-ready-degrees tasks distinct i ∙ by_task (find i tasks)
    where
      by_task :
          (o : Option PlanTask) → (if is_pos_zero (Option.map degree o) then 1 else 0) ≡ is_ready o
      by_task none = refl
      by_task (some t) = zero_or_not (length t.depends_on)

  occurs-start-some :
      (i : String) (t : PlanTask)
      → find i tasks ≡ some t
      → occurs i (start tasks).queue ≡ (if length t.depends_on == 0 then 1 else 0)
  unfolding is_ready
  occurs-start-some i t e = occurs-start i ∙ ap is_ready e

  start-queued :
      (i : String)
      → 0 < occurs i (start tasks).queue
      → (t : PlanTask) × (find i tasks ≡ some t)
        × (fresh t.depends_on [] ≡ 0)
        × (contains i [] ≡ false)
  unfolding is_ready
  start-queued i q = by_task (find i tasks) refl
    where
      by_task :
          (o : Option PlanTask)
          → find i tasks ≡ o
          → (t : PlanTask) × (find i tasks ≡ some t)
            × (fresh t.depends_on [] ≡ 0)
            × (contains i [] ≡ false)
      by_task none e = absurd (omega (arith, occurs-start i, ap is_ready e, q))
      by_task (some t) e = (
        t,
        e,
        ground (arith, occurs-start-some i t e, fresh-nil t.depends_on),
        not-contains-nil i,
      )

  start-once : (i : String) → occurs i (start tasks).queue ≤ 1
  unfolding is_ready
  start-once i = by_task (find i tasks) refl
    where
      by_task : (o : Option PlanTask) → find i tasks ≡ o → occurs i (start tasks).queue ≤ 1
      by_task none e = omega (arith, occurs-start i, ap is_ready e)
      by_task (some t) e = ground (arith, occurs-start-some i t e)

  pub Inv-start : Inv tasks (start tasks)
  unfolding start count_of
  Inv-start = record {
    counts = λ i t e.
        degrees-find tasks distinct i
        ∙ ap (Option.map degree) e
        ∙ ap (λ n. some (pos n)) (sym (fresh-nil t.depends_on));
    settled = λ i t e z. inr (ground (arith, occurs-start-some i t e, fresh-nil t.depends_on));
    queued = start-queued;
    once = start-once;
    finished = λ i t e v. absurd (cc (sym v ∙ not-contains-nil i));
    ordered = nil;
    found = λ t m. absurd (Memᴰ.not-nil m);
    total = omega (arith, fresh-nil (ids tasks), length-ids tasks);
  }
