-- ===== src/Planner/Fallback.antt =====
-- The plan of planner/__init__.py where the model gives none, and the strategies of a plan. Of a
-- specification, the fields that these read.
use fastcoder.Base.{
  ℕ, ◌+◌, String, ◌≡◌, refl, Bool, true, false, ◌||◌, List, [], ◌∷◌, ltb, leb, if◌then◌else◌,
  string_discrete,
}
use Prim.Native.String.{◌++◌ as append}
use fastcoder.Base.Dict
use fastcoder.Planner.{
  PlanTask, create_file, run_command, decrement, is_zero, task_by_id, in_degrees, neighbors, link,
  add_edges, add_all_edges, ready, lower, release, done, round, loop, checked, start, edges,
  topological_sort,
}

pub data StoryType : Type 0 where
  feature bugfix refactor infra : StoryType

pub data TestingStrategy : Type 0 where
  unit integration e2e unit_integration unit_integration_e2e : TestingStrategy

pub data DeployStrategy : Type 0 where
  staging_first direct_deploy pr_only no_deploy : DeployStrategy

-- `acceptance_criteria` is their number.
pub record StorySpec : Type 0 where
  pub title : String
  pub acceptance_criteria : ℕ
  pub story_type : StoryType
  pub complexity_score : ℕ

pub record ExecutionPlan : Type 0 where
  pub story_id : String
  pub tasks : List PlanTask
  pub testing_strategy : TestingStrategy
  pub deploy_strategy : DeployStrategy
  pub estimated_total_tokens : ℕ

testing_of : ℕ → StoryType → TestingStrategy
testing_of score bugfix = unit_integration
testing_of score refactor = unit
testing_of score infra = integration
testing_of score feature =
    if leb 7 score then unit_integration_e2e else if leb 5 score then unit_integration else unit

unfoldable pub determine_testing_strategy : StorySpec → TestingStrategy
unfolding testing_of
determine_testing_strategy spec = testing_of spec.complexity_score spec.story_type

deploy_of : ℕ → StoryType → DeployStrategy
deploy_of score infra = staging_first
deploy_of score refactor = staging_first
deploy_of score bugfix = if leb 6 score then staging_first else pr_only
deploy_of score feature = if leb 8 score then staging_first else pr_only

unfoldable pub determine_deploy_strategy : StorySpec → DeployStrategy
unfolding deploy_of
determine_deploy_strategy spec = deploy_of spec.complexity_score spec.story_type

abbrev pub impl_task : String → PlanTask
impl_task title = record {
  id = "task-1";
  action = create_file;
  target = "implementation";
  description = append "Implement: " title;
  depends_on = [];
  estimated_tokens = 3000;
}

abbrev pub test_task : PlanTask
test_task = record {
  id = "task-2";
  action = run_command;
  target = "test";
  description = "Run tests to verify implementation";
  depends_on = "task-1" ∷ [];
  estimated_tokens = 1500;
}

abbrev pub review_task : PlanTask
review_task = record {
  id = "task-3";
  action = run_command;
  target = "review";
  description = "Code review and quality checks";
  depends_on = "task-2" ∷ [];
  estimated_tokens = 1000;
}

abbrev pub needs_review : StorySpec → Bool
needs_review spec = ltb 1 spec.acceptance_criteria || leb 5 spec.complexity_score

unfoldable pub generate_fallback_tasks : StorySpec → List PlanTask
generate_fallback_tasks spec =
    if needs_review spec
    then impl_task spec.title ∷ test_task ∷ review_task ∷ []
    else impl_task spec.title ∷ test_task ∷ []

unfoldable pub total_tokens : List PlanTask → ℕ
total_tokens [] = 0
total_tokens (t ∷ ts) = t.estimated_tokens + total_tokens ts

unfoldable pub create_fallback_plan : StorySpec → ExecutionPlan
unfolding generate_fallback_tasks determine_testing_strategy determine_deploy_strategy total_tokens
create_fallback_plan spec = record {
  story_id = "";
  tasks = generate_fallback_tasks spec;
  testing_strategy = determine_testing_strategy spec;
  deploy_strategy = determine_deploy_strategy spec;
  estimated_total_tokens = total_tokens (generate_fallback_tasks spec);
}

-- The plan that is made without the model is already in order, whatever the story: the sort returns
-- its tasks as they are.
pub create_fallback_plan-sorted :
    (spec : StorySpec)
    → topological_sort (create_fallback_plan spec).tasks ≡ done (create_fallback_plan spec).tasks
unfolding create_fallback_plan generate_fallback_tasks topological_sort checked loop round release
    lower decrement is_zero start edges ready in_degrees task_by_id add_all_edges add_edges link
    neighbors Dict.get Dict.put string_discrete
create_fallback_plan-sorted spec = by_review (needs_review spec)
  where
    tasks : Bool → List PlanTask
    tasks b =
        if b
        then impl_task spec.title ∷ test_task ∷ review_task ∷ []
        else impl_task spec.title ∷ test_task ∷ []

    by_review : (b : Bool) → topological_sort (tasks b) ≡ done (tasks b)
    by_review true = refl
    by_review false = refl
