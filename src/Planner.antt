-- ===== src/Planner.antt =====
-- `_topological_sort` of planner/__init__.py: the tasks of a plan in an order in which the
-- dependencies come first. A `Counter` is Python's `int`, which the sort counts down.
pub mod Counts
pub mod Loop
pub mod Order
pub mod Round
pub mod Start
pub mod Sorting
pub mod Fallback
mod Examples
use fastcoder.Base.{
  ℕ, zero, suc, String, Bool, true, false, not, List, [], ◌∷◌, ◌++◌, map, Option, none, some, ite,
  ◌==◌, if◌then◌else◌, length, string_discrete,
}
use fastcoder.Base.Dict
use fastcoder.Base.Dict.{Dict}
use mathlib.Core.List.{foldl}
use mathlib.Core.Option

pub data TaskAction : Type 0 where
  create_file modify_file delete_file run_command : TaskAction

pub record PlanTask : Type 0 where
  pub id : String
  pub action : TaskAction
  pub target : String
  pub description : String
  pub depends_on : List String
  pub estimated_tokens : ℕ

-- `negsuc n` is the number `-(n + 1)`.
pub data Counter : Type 0 where
  pos : ℕ → Counter
  negsuc : ℕ → Counter

unfoldable pub decrement : Counter → Counter
decrement (pos zero) = negsuc zero
decrement (pos (suc n)) = pos n
decrement (negsuc n) = negsuc (suc n)

unfoldable pub is_zero : Counter → Bool
is_zero (pos zero) = true
is_zero (pos (suc n)) = false
is_zero (negsuc n) = false

-- `{task.id: task for task in tasks}`
unfoldable pub task_by_id : List PlanTask → Dict String PlanTask → Dict String PlanTask
unfolding Dict.put string_discrete
task_by_id [] d = d
task_by_id (task ∷ tasks) d = task_by_id tasks (Dict.put string_discrete task.id task d)

-- `{task.id: len(task.depends_on) for task in tasks}`
unfoldable pub in_degrees : List PlanTask → Dict String Counter → Dict String Counter
unfolding Dict.put string_discrete
in_degrees [] d = d
in_degrees (task ∷ tasks) d =
    in_degrees tasks (Dict.put string_discrete task.id (pos (length task.depends_on)) d)

abbrev pub Graph : Type 0
Graph = Dict String (List String)

abbrev pub or_nil : Option (List String) → List String
or_nil none = []
or_nil (some ids) = ids

-- `graph[id]` of a `defaultdict(list)`
unfoldable pub neighbors : Graph → String → List String
unfolding Dict.get string_discrete
neighbors graph id = or_nil (Dict.get string_discrete id graph)

-- `graph[dep_id].append(id)`
unfoldable pub link : String → String → Graph → Graph
unfolding neighbors Dict.put string_discrete
link dep_id id graph = Dict.put string_discrete dep_id (neighbors graph dep_id ++ id ∷ []) graph

abbrev pub some? : Option PlanTask → Bool
some? none = false
some? (some _) = true

module _ (by_id : Dict String PlanTask) where
  -- The loop on `task.depends_on`.
  unfoldable pub add_edges : String → List String → Graph → Graph
  unfolding link Dict.get string_discrete
  add_edges id [] graph = graph
  add_edges id (dep_id ∷ deps) graph =
      add_edges id deps
        (if some? (Dict.get string_discrete dep_id by_id) then link dep_id id graph else graph)

  unfoldable pub add_all_edges : List PlanTask → Graph → Graph
  unfolding add_edges
  add_all_edges [] graph = graph
  add_all_edges (task ∷ tasks) graph = add_all_edges tasks (add_edges task.id task.depends_on graph)

-- The ids whose count is 0, in the order of the dictionary.
unfoldable pub ready : Dict String Counter → List String
unfolding is_zero
ready [] = []
ready ((id, n) ∷ d) = let rest = ready d in if is_zero n then id ∷ rest else rest

pub record Kahn : Type 0 where
  pub in_degree : Dict String Counter
  pub queue : List String
  pub sorted_tasks : List PlanTask

-- The body of the loop on the neighbours, on the count that it finds.
unfoldable pub lower : String → Option Counter → Kahn → Kahn
unfolding decrement is_zero Dict.put string_discrete
lower id none k = k
lower id (some n) k = record k {
  in_degree = Dict.put string_discrete id (decrement n) k.in_degree;
  queue = if is_zero (decrement n) then k.queue ++ id ∷ [] else k.queue;
}

unfoldable pub release : Kahn → String → Kahn
unfolding lower Dict.get string_discrete
release k id = lower id (Dict.get string_discrete id k.in_degree) k

pub data Outcome : Type 0 where
  done : List PlanTask → Outcome
  key_error value_error out_of_fuel : Outcome

module _ (by_id : Dict String PlanTask) (graph : Graph) where
  -- One round of the `while` loop, after `current_id` left the queue and its task was found.
  unfoldable pub round : PlanTask → String → List String → Kahn → Kahn
  unfolding release neighbors
  round task current_id rest k =
      foldl release (record k { queue = rest; sorted_tasks = k.sorted_tasks ++ task ∷ [] })
        (neighbors graph current_id)

  unfoldable pub loop : ℕ → Kahn → Outcome
  unfolding round Dict.get string_discrete
  loop zero k = elim k.queue [ [] ↦ done k.sorted_tasks | _ ∷ _ ↦ out_of_fuel ]
  loop (suc fuel) k = elim k.queue [
    | [] ↦ done k.sorted_tasks
    | current_id ∷ rest ↦ elim (Dict.get string_discrete current_id by_id) [
      | none ↦ key_error
      | some task ↦ loop fuel (round task current_id rest k)
    ]
  ]

-- The test of the lengths.
unfoldable pub checked : List PlanTask → Outcome → Outcome
checked tasks (done sorted_tasks) =
    if length sorted_tasks == length tasks then done sorted_tasks else value_error
checked tasks key_error = key_error
checked tasks value_error = value_error
checked tasks out_of_fuel = out_of_fuel

unfoldable pub start : List PlanTask → Kahn
unfolding in_degrees ready
start tasks =
    let degrees = in_degrees tasks [] in
    record { in_degree = degrees; queue = ready degrees; sorted_tasks = [] }

unfoldable pub edges : List PlanTask → Graph
unfolding add_all_edges task_by_id
edges tasks = add_all_edges (task_by_id tasks []) tasks []

-- Each id leaves the queue once at most.
unfoldable pub topological_sort : List PlanTask → Outcome
unfolding checked loop start edges task_by_id
topological_sort tasks =
    checked tasks (loop (task_by_id tasks []) (edges tasks) (length tasks) (start tasks))
