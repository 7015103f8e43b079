-- ===== src/Planner/Round.antt =====
-- One round of the loop of `_topological_sort` of planner/__init__.py keeps its invariant.
use fastcoder.Base.{
  suc, ◌+◌, ◌≤◌, ◌<◌, String, ◌≡◌, refl, ap, sym, subst, ◌∙◌, ◌↔◌, ◌⊎◌, inl, inr, ⊎_elim, true,
  false, List, [], ◌∷◌, ◌++◌, Memᴰ, none, some, arith, length, length-append, Bool-cases, Memᴰ-snoc,
  string_discrete,
}
use mathlib.Core.Option.{some-injective}
use fastcoder.Codebase.{contains}
use fastcoder.Codebase.Impact.Loop.{contains-snoc, fresh}
use fastcoder.Planner.{PlanTask, pos, Kahn, neighbors, edges, task_by_id, round}
use fastcoder.Planner.Counts.{occurs, fresh-snoc, find, deps_of, AreDistinct, occurs-edges}
use fastcoder.Planner.Order.{ids, ids-snoc, IsOrdered, snoc, fresh_none, find-id, occurs-ids, Inv}
use fastcoder.Planner.Loop.{freed, count_of, release_all, release_others, sorted-release}

module _ (tasks : List PlanTask) (distinct : AreDistinct tasks) (c : String) (task : PlanTask)
    (rest : List String) (k : Kahn) (here : k.queue ≡ c ∷ rest) (c_task : find c tasks ≡ some task)
    (h : Inv tasks k) where
  abbrev popped : Kahn
  popped = record k { queue = rest; sorted_tasks = k.sorted_tasks ++ task ∷ [] }

  abbrev pub next : Kahn
  next = round (task_by_id tasks []) (edges tasks) task c rest k

  abbrev before : List String
  before = ids k.sorted_tasks

  next-sorted : next.sorted_tasks ≡ k.sorted_tasks ++ task ∷ []
  unfolding round
  next-sorted = sorted-release (neighbors (edges tasks) c) popped

  after : ids next.sorted_tasks ≡ before ++ c ∷ []
  after =
      ap ids next-sorted
      ∙ ids-snoc k.sorted_tasks task
      ∙ ap (λ i. before ++ i ∷ []) (find-id tasks c task tasks c_task)

  occurs-queue : (i : String) → occurs i k.queue ≡ occurs i (c ∷ rest)
  occurs-queue i = ap (occurs i) here

  c_waits : 0 < occurs c k.queue
  c_waits = ground (arith, occurs-queue c)

  c_new : contains c before ≡ false
  c_new = (h.queued c c_waits).3

  released :
      (i : String) (t : PlanTask)
      → find i tasks ≡ some t
      → (fresh t.depends_on (ids next.sorted_tasks) + occurs c t.depends_on
          ≡ fresh t.depends_on before)
        × (count_of i next ≡ some (pos (fresh t.depends_on (ids next.sorted_tasks))))
        × (occurs i next.queue
            ≡ occurs i rest + freed (fresh t.depends_on before) (occurs c t.depends_on))
  unfolding round count_of
  released i t e =
      let seen = ap (fresh t.depends_on) after in
      let drop = fresh-snoc t.depends_on before c c_new in
      let times = occurs-edges tasks distinct c i task c_task ∙ ap (λ o. occurs c (deps_of o)) e in
      let (count, queue) =
        release_all i (neighbors (edges tasks) c) popped (fresh t.depends_on before)
          (h.counts i t e) (omega (arith, drop, times)) in
      (
        omega (arith, seen, drop),
        count ∙ ap (λ n. some (pos n)) (omega (arith, seen, drop, times)),
        queue ∙ ap (λ n. occurs i rest + freed (fresh t.depends_on before) n) times,
      )

  unreleased : (i : String) → find i tasks ≡ none → occurs i next.queue ≡ occurs i rest
  unfolding round
  unreleased i e =
      release_others i (neighbors (edges tasks) c) popped
        (occurs-edges tasks distinct c i task c_task ∙ ap (λ o. occurs c (deps_of o)) e)

  seen_after :
      (i : String)
      → (contains i (ids next.sorted_tasks) ≡ true) ↔ ((contains i before ≡ true) ⊎ (i ≡ c))
  seen_after i = ground (arith, contains-snoc i c before, after)

  task-cases : (i : String) → (find i tasks ≡ none) ⊎ ((t : PlanTask) × (find i tasks ≡ some t))
  task-cases i = elim (find i tasks) as (λ o. (o ≡ none) ⊎ ((t : PlanTask) × (o ≡ some t))) [
    | none ↦ inl refl
    | some t ↦ inr (t, refl)
  ]

  next-settled :
      (i : String) (t : PlanTask)
      → find i tasks ≡ some t
      → fresh t.depends_on (ids next.sorted_tasks) ≡ 0
      → (contains i (ids next.sorted_tasks) ≡ true) ⊎ (0 < occurs i next.queue)
  next-settled i t e z =
      ground (arith, released i t e, h.settled i t e, seen_after i, occurs-queue i)

  rest_waits : (i : String) → occurs i rest ≤ occurs i k.queue
  rest_waits i = ground (arith, occurs-queue i)

  queued_at :
      (i : String) (t : PlanTask)
      → find i tasks ≡ some t
      → 0 < occurs i k.queue
      → (fresh t.depends_on before ≡ 0) × (contains i before ≡ false)
  queued_at i t e q =
      let (u, e', z, n) = h.queued i q in
      let same : u ≡ t = some-injective _ _ (sym e' ∙ e) in
      (ap (λ x. fresh x.depends_on before) (sym same) ∙ z, n)

  -- `c` leaves the queue, where it stood once.
  c_left : occurs c rest ≡ 0
  c_left = ground (arith, occurs-queue c, h.once c)

  c_gone : occurs c next.queue ≡ 0
  c_gone = ground (arith, released c task c_task, queued_at c task c_task c_waits, c_left)

  next-queued_at :
      (i : String) (t : PlanTask)
      → find i tasks ≡ some t
      → 0 < occurs i next.queue
      → (fresh t.depends_on (ids next.sorted_tasks) ≡ 0)
        × (contains i (ids next.sorted_tasks) ≡ false)
  next-queued_at i t e q = elim (string_discrete i c) [
    | yes same ↦ absurd (omega (arith, ap (λ x. occurs x next.queue) same, c_gone, q))
    | no n ↦ ground (
      arith,
      released i t e,
      queued_at i t e,
      rest_waits i,
      seen_after i,
      h.finished i t e,
      Bool-cases (contains i before),
    )
  ]

  next-queued :
      (i : String)
      → 0 < occurs i next.queue
      → (t : PlanTask) × (find i tasks ≡ some t)
        × (fresh t.depends_on (ids next.sorted_tasks) ≡ 0)
        × (contains i (ids next.sorted_tasks) ≡ false)
  next-queued i q = elim (task-cases i) [
    | inl e ↦
        let (t, e', _, _) = h.queued i (omega (arith, rest_waits i, unreleased i e)) in
        absurd (cc (sym e ∙ e'))
    | inr (t, e) ↦ let (z, n) = next-queued_at i t e q in (t, e, z, n)
  ]

  next-once : (i : String) → occurs i next.queue ≤ 1
  next-once i = elim (task-cases i) [
    | inl e ↦ omega (arith, unreleased i e, h.once i, rest_waits i)
    | inr (t, e) ↦ ground (arith, released i t e, h.once i, rest_waits i, queued_at i t e)
  ]

  next-finished :
      (i : String) (t : PlanTask)
      → find i tasks ≡ some t
      → contains i (ids next.sorted_tasks) ≡ true
      → fresh t.depends_on (ids next.sorted_tasks) ≡ 0
  next-finished i t e v = elim ((seen_after i).0 v) [
    | inl old ↦ omega (arith, released i t e, h.finished i t e old)
    | inr same ↦
        let e' = ap (λ x. find x tasks) same ∙ c_task in
        omega (
          arith,
          released i t e,
          (queued_at i t e (subst (λ x. 0 < occurs x k.queue) (sym same) c_waits)).0,
        )
  ]

  next-IsOrdered : IsOrdered next.sorted_tasks
  next-IsOrdered = subst IsOrdered (sym next-sorted) (
      snoc k.sorted_tasks task h.ordered
        (fresh_none task.depends_on before (queued_at c task c_task c_waits).0))

  next-found : (t : PlanTask) → Memᴰ t next.sorted_tasks → find t.id tasks ≡ some t
  next-found t m =
      ⊎_elim (h.found t)
        (λ same.
          subst (λ u. find u.id tasks ≡ some u) (sym same)
            (ap (λ i. find i tasks) (find-id tasks c task tasks c_task) ∙ c_task))
        ((Memᴰ-snoc t task k.sorted_tasks).0 (subst (Memᴰ t) next-sorted m))

  next-total : fresh (ids tasks) (ids next.sorted_tasks) + length next.sorted_tasks ≡ length tasks
  next-total = omega (
    arith,
    ap (fresh (ids tasks)) after,
    fresh-snoc (ids tasks) before c c_new,
    occurs-ids tasks c task tasks distinct c_task,
    ap length next-sorted,
    length-append k.sorted_tasks (task ∷ []),
    h.total,
  )

  pub next-longer : length next.sorted_tasks ≡ suc (length k.sorted_tasks)
  next-longer = omega (arith, ap length next-sorted, length-append k.sorted_tasks (task ∷ []))

  pub Inv-next : Inv tasks next
  Inv-next = record {
    counts = λ i t e. (released i t e).1;
    settled = next-settled;
    queued = next-queued;
    once = next-once;
    finished = next-finished;
    ordered = next-IsOrdered;
    found = next-found;
    total = next-total;
  }
