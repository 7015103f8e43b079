-- ===== src/Planner/Examples.antt =====
-- Runs of the sort of a plan's tasks.
use fastcoder.Base.{String, ◌≡◌, refl, ◌↔◌, ◌⊎◌, List, [], ◌∷◌, Memᴰ, string_discrete}
use fastcoder.Base.Dict
use fastcoder.Planner.{
  PlanTask, create_file, decrement, is_zero, task_by_id, in_degrees, neighbors, link, add_edges,
  add_all_edges, ready, lower, release, done, value_error, round, loop, checked, start, edges,
  topological_sort,
}
use fastcoder.Planner.Fallback.{StorySpec, feature}
use fastcoder.Planner.Counts.{AreDistinct}
use fastcoder.Planner.Order.{IsOrdered}
use fastcoder.Planner.Sorting.{AllDoable, topological_sort_lem}

abbrev task : String → List String → PlanTask
task id deps = record {
  id = id;
  action = create_file;
  target = "";
  description = "";
  depends_on = deps;
  estimated_tokens = 2000;
}

abbrev tasks : List PlanTask
tasks = task "deploy" ("test" ∷ "code" ∷ []) ∷ task "test" ("code" ∷ []) ∷ task "code" [] ∷ []

sorted_by_need :
    topological_sort tasks
    ≡ done (task "code" [] ∷ task "test" ("code" ∷ []) ∷ task "deploy" ("test" ∷ "code" ∷ []) ∷ [])
unfolding topological_sort checked loop round release lower decrement is_zero start edges ready
    in_degrees task_by_id add_all_edges add_edges link neighbors Dict.get Dict.put string_discrete
sorted_by_need = refl

-- A dependency that is no task is taken for a cycle.
unknown_dependency : topological_sort (task "code" ("design" ∷ []) ∷ []) ≡ value_error
unfolding topological_sort checked loop round release lower decrement is_zero start edges ready
    in_degrees task_by_id add_all_edges add_edges link neighbors Dict.get Dict.put string_discrete
unknown_dependency = refl

distinct : AreDistinct tasks
unfolding string_discrete
distinct = (refl, (refl, (refl, tt)))

topological_sort_lem_example :
    (AllDoable tasks
      × ((sorted : List PlanTask) × (topological_sort tasks ≡ done sorted)
          × IsOrdered sorted
          × ((t : PlanTask) → Memᴰ t sorted ↔ Memᴰ t tasks)))
    ⊎ (¬ AllDoable tasks × (topological_sort tasks ≡ value_error))
topological_sort_lem_example = topological_sort_lem tasks distinct

abbrev spec : StorySpec
spec = record {
  title = "Search";
  acceptance_criteria = 2;
  story_type = feature;
  complexity_score = 4;
}
