-- ===== src/Planner/Sorting.antt =====
-- What `_topological_sort` of planner/__init__.py returns for tasks with distinct ids.
use fastcoder.Base.{
  ℕ, zero, suc, ◌+◌, String, ◌≡◌, refl, ap, ◌≢◌, sym, subst, ◌∙◌, ◌↔◌, ◌⊎◌, inl, inr, ⊎_elim, Bool,
  true, List, [], ◌∷◌, Memᴰ, some, arith, if◌then◌else◌, ◌==◌, length, Bool-cases, List-cases,
  Memᴰ-snoc,
}
use mathlib.Core.List.Memᴰ
use mathlib.Core.Option.{some-injective}
use fastcoder.Codebase.{contains}
use fastcoder.Planner.{
  PlanTask, Kahn, Outcome, done, value_error, edges, task_by_id, round, loop, checked, start,
  topological_sort,
}
use fastcoder.Planner.Counts.{occurs, fresh-snoc, find, AreDistinct, by_id-find}
use fastcoder.Planner.Order.{
  ids, ids-snoc, IsOrdered, nil, snoc, fresh_none, find-mem, occurs-ids, Inv,
}
use fastcoder.Planner.Round.{next, next-longer, Inv-next}
use fastcoder.Planner.Start.{find_of_mem, mem-ids, ids-mem, fresh_zero, Inv-start}

-- A task of the plan can be done if all its dependencies can.
pub data IsDoable (tasks : List PlanTask) : String → Type 0 where
  doable :
      (i : String) (t : PlanTask)
      → Memᴰ t tasks
      → t.id ≡ i
      → ((d : String) → Memᴰ d t.depends_on → IsDoable tasks d)
      → IsDoable tasks i

abbrev pub AllDoable : List PlanTask → Type 0
AllDoable tasks = (t : PlanTask) → Memᴰ t tasks → IsDoable tasks t.id

module _ (tasks : List PlanTask) (distinct : AreDistinct tasks) where
  loop-round :
      (fuel : ℕ) (k : Kahn) (c : String) (rest : List String) (t : PlanTask)
      → k.queue ≡ c ∷ rest
      → find c tasks ≡ some t
      → loop (task_by_id tasks []) (edges tasks) (suc fuel) k
        ≡ loop
            (task_by_id tasks [])
            (edges tasks)
            fuel
            (round (task_by_id tasks []) (edges tasks) t c rest k)
  unfolding loop
  loop-round fuel k c rest t e f = ground (arith, by_id-find tasks distinct c)

  loop_ends :
      (fuel : ℕ) (k : Kahn)
      → Inv tasks k
      → fuel + length k.sorted_tasks ≡ length tasks
      → (last : Kahn) × (loop (task_by_id tasks []) (edges tasks) fuel k ≡ done last.sorted_tasks)
        × Inv tasks last
        × (last.queue ≡ [])
  unfolding loop
  loop_ends zero k h n = elim (List-cases k.queue) [
    | inl empty ↦ (k, simp (empty, loop), h, empty)
    | inr (c, rest, e) ↦
        let (t, c_task, _, new) = h.queued c (ground (arith, ap (occurs c) e)) in
        absurd (
          omega (
            arith,
            h.total,
            n,
            fresh-snoc (ids tasks) (ids k.sorted_tasks) c new,
            occurs-ids tasks c t tasks distinct c_task,
          ))
  ]
  loop_ends (suc fuel) k h n = elim (List-cases k.queue) [
    | inl empty ↦ (k, simp (empty, loop), h, empty)
    | inr (c, rest, e) ↦
        let (t, c_task, z, new) = h.queued c (ground (arith, ap (occurs c) e)) in
        let (last, ends, inv, empty) =
          loop_ends fuel (next tasks distinct c t rest k e c_task h)
            (Inv-next tasks distinct c t rest k e c_task h)
            (omega (arith, n, next-longer tasks distinct c t rest k e c_task h)) in
        (last, loop-round fuel k c rest t e c_task ∙ ends, inv, empty)
  ]

  -- With as many tasks sorted as there are, none is left.
  all_sorted :
      (k : Kahn)
      → Inv tasks k
      → length k.sorted_tasks ≡ length tasks
      → (t : PlanTask) → Memᴰ t tasks
      → Memᴰ t k.sorted_tasks
  all_sorted k h n t m =
      let there =
        fresh_none (ids tasks) (ids k.sorted_tasks) (omega (arith, h.total, n)) t.id
          (ids-mem t tasks m) in
      let (u, m', e) = mem-ids t.id k.sorted_tasks there in
      let same : u ≡ t =
        some-injective _ _
          (sym (h.found u m') ∙ ap (λ i. find i tasks) e ∙ find_of_mem t tasks distinct m) in
      subst (λ x. Memᴰ x k.sorted_tasks) same m'

  -- In an order of tasks of the plan each can be done.
  ordered-IsDoable :
      {ts : List PlanTask}
      → IsOrdered ts
      → ((t : PlanTask) → Memᴰ t ts → Memᴰ t tasks)
      → (d : String) → Memᴰ d (ids ts)
      → IsDoable tasks d
  ordered-IsDoable nil sub d m = absurd (Memᴰ.not-nil m)
  ordered-IsDoable (snoc ts t o before) sub d m =
      let earlier = ordered-IsDoable o (λ u n. sub u (Memᴰ.append_left _ n)) in
      ⊎_elim (earlier d)
        (λ same.
          doable d t (sub t (Memᴰ.append_right ts (Memᴰ.head refl))) (sym same)
            (λ x n. earlier x (before x n)))
        ((Memᴰ-snoc d t.id (ids ts)).0 (subst (Memᴰ d) (ids-snoc ts t) m))

  -- A task that can be done is sorted once the queue is empty.
  doable_sorted :
      (k : Kahn)
      → Inv tasks k
      → k.queue ≡ []
      → (i : String) → IsDoable tasks i
      → contains i (ids k.sorted_tasks) ≡ true
  doable_sorted k h empty i (doable _ t m e deps) =
      let none_left =
        fresh_zero t.depends_on (ids k.sorted_tasks)
          (λ d n. doable_sorted k h empty d (deps d n)) in
      let entry = ap (λ x. find x tasks) (sym e) ∙ find_of_mem t tasks distinct m in
      ⊎_elim (λ c. c) (λ waits. absurd (omega (arith, waits, ap (occurs i) empty)))
        (h.settled i t entry none_left)

  -- If all tasks can be done, all are sorted.
  fewer :
      (k : Kahn)
      → Inv tasks k
      → k.queue ≡ []
      → AllDoable tasks
      → ¬ (length k.sorted_tasks ≢ length tasks)
  fewer k h empty all n =
      let seen = λ (d : String) (m : Memᴰ d (ids tasks)).
        let (t, m', e) = mem-ids d tasks m in
        doable_sorted k h empty d (subst (IsDoable tasks) e (all t m')) in
      n (omega (arith, fresh_zero (ids tasks) (ids k.sorted_tasks) seen, h.total))

-- What `topological_sort_lem` says of the tasks.
abbrev pub IsSortedOrRefused : List PlanTask → Type 0
IsSortedOrRefused tasks =
    (AllDoable tasks
      × ((sorted : List PlanTask) × (topological_sort tasks ≡ done sorted)
          × IsOrdered sorted
          × ((t : PlanTask) → Memᴰ t sorted ↔ Memᴰ t tasks)))
    ⊎ (¬ AllDoable tasks × (topological_sort tasks ≡ value_error))

judged :
    (tasks : List PlanTask)
    → AreDistinct tasks
    → (k : Kahn) → Inv tasks k
    → k.queue ≡ []
    → topological_sort tasks ≡ checked tasks (done k.sorted_tasks)
    → IsSortedOrRefused tasks
unfolding checked
judged tasks distinct k inv empty run = elim (Bool-cases (length k.sorted_tasks == length tasks)) [
  | inl same ↦
      let all = all_sorted tasks distinct k inv (ground arith) in
      inl (
        λ t m. ordered-IsDoable tasks distinct inv.ordered inside t.id (ids-mem t _ (all t m)),
        (k.sorted_tasks, run ∙ ap result same, inv.ordered, λ t. (inside t, all t)),
      )
  | inr other ↦
      inr (λ doable. fewer tasks distinct k inv empty doable (ground arith), run ∙ ap result other)
]
  where
    result : Bool → Outcome
    result b = if b then done k.sorted_tasks else value_error

    inside : (t : PlanTask) → Memᴰ t k.sorted_tasks → Memᴰ t tasks
    inside t m = find-mem tasks t.id t tasks (inv.found t m)

-- For tasks with distinct ids the sort ends. Either every task can be done
-- (its dependencies are tasks of the plan that can be done); then the result is an order of the
-- same tasks in which each task's dependencies stand before it. Or not every task can; then a
-- ValueError is raised.
pub topological_sort_lem :
    (tasks : List PlanTask)
    → AreDistinct tasks
    → (AllDoable tasks
        × ((sorted : List PlanTask) × (topological_sort tasks ≡ done sorted)
            × IsOrdered sorted
            × ((t : PlanTask) → Memᴰ t sorted ↔ Memᴰ t tasks)))
      ⊎ (¬ AllDoable tasks × (topological_sort tasks ≡ value_error))
unfolding topological_sort start
topological_sort_lem tasks distinct =
    let (last, ends, inv, empty) =
      loop_ends tasks distinct (length tasks) (start tasks) (Inv-start tasks distinct)
        (omega arith) in
    judged tasks distinct last inv empty (ap (checked tasks) ends)
