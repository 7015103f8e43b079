-- ===== src/Orchestrator/Stages.antt =====
-- The stages `_run_analysis` to `_run_quality_gates` of orchestrator/__init__.py.
use fastcoder.Base.{
  ℕ, suc, ◌+◌, String, Bool, true, false, not, List, [], ◌∷◌, Option, none, some, ltb, leb,
  if◌then◌else◌, ite, last?, string_discrete,
}
use fastcoder.Story.{
  StoryState, StoryState-discrete, analyzing, planning, coding, reviewing, testing, failed, Story,
  Iteration, ErrorContext, TestReport, ReviewReport,
}
use fastcoder.Retry
use fastcoder.Orchestrator.{
  ok, raised, component_error, M, ◌>>=◌, ◌>>◌, pure, try, Component, Context, get_story, emit_event,
  transition, component, when,
}
use mathlib.Core.Option

-- Whether the body of a `try` ran to its end, or returned from the method.
pub data Flow : Type 0 where
  proceed returned : Flow

-- The last statement of a method, after the `try`.
unfoldable pub finish : Flow → M (Unit {0})
unfolding emit_event
finish proceed = emit_event
finish returned = pure tt

unfoldable pub fail : Context → String → M Flow
unfolding transition
fail c reason = do transition c failed reason; pure proceed

unfoldable pub run_analysis : Context → M (Unit {0})
unfolding transition component emit_event
run_analysis c = do
  transition c analyzing "Starting analysis"
  emit_event
  try (do component c.analyzer; transition c planning "Analysis complete")
      (transition c failed "Analysis failed")
  emit_event

unfoldable pub run_planning : Context → M (Unit {0})
unfolding transition component emit_event
run_planning c = do
  transition c planning "Starting planning"
  emit_event
  try (do component c.planner; transition c coding "Planning complete")
      (transition c failed "Planning failed")
  emit_event

abbrev pub state_is : StoryState → Story → Bool
state_is state s = ite (StoryState-discrete s.state state) true false

-- `len([i for i in story.iterations if i.stage == "coding"])`
unfoldable pub count_stage : String → List Iteration → ℕ
unfolding string_discrete
count_stage stage [] = 0
count_stage stage (i ∷ is) =
    let rest = count_stage stage is in ite (string_discrete i.stage stage) (suc rest) rest

abbrev pub given : Option (ℕ → Component) → ℕ → Option Component
given none n = none
given (some f) n = some (f n)

abbrev pub given_error : Option (ErrorContext → Component) → ErrorContext → Option Component
given_error none e = none
given_error (some f) e = some (f e)

abbrev pub given_context :
    Option (Option ErrorContext → Component) → Option ErrorContext → Option Component
given_context none e = none
given_context (some f) e = some (f e)

-- The exceptions of the context manager are swallowed.
unfoldable pub enrich_context_for_retry : Context → ℕ → M (Unit {0})
unfolding component
enrich_context_for_retry c n = try (component (given c.context_manager n)) (pure tt)

abbrev pub last_error : List Iteration → Option ErrorContext
last_error is = Option.bind (last? is) (λ (i : Iteration). i.error_context)

unfoldable pub retry_context : Context → ℕ → M (Option ErrorContext)
unfolding enrich_context_for_retry
retry_context c n =
    if ltb 1 n
    then (do enrich_context_for_retry c n; s ← get_story; pure (last_error s.iterations))
    else pure none

unfoldable pub check_cost_budget : Story → Bool
check_cost_budget s = leb s.cost_budget_usd s.metadata.total_cost_usd

unfoldable pub coding_body : Context → M Flow
unfolding retry_context count_stage component check_cost_budget transition
coding_body c = do
  s ← get_story
  error ← retry_context c (count_stage "coding" s.iterations + 1)
  component (given_context c.generator error)
  s' ← get_story
  if check_cost_budget s'
      then (do transition c failed "Cost budget exceeded"; pure returned)
      else pure proceed

unfoldable pub run_coding : Context → M (Unit {0})
unfolding coding_body finish fail when
run_coding c = do
  s ← get_story
  when (not (state_is coding s)) (transition c coding "Iteration")
  emit_event
  flow ← try (coding_body c) (fail c "Code generation failed")
  finish flow

abbrev pub last_review : List Iteration → Option ReviewReport
last_review is = Option.bind (last? is) (λ (i : Iteration). i.review_results)

abbrev pub last_report : List Iteration → Option TestReport
last_report is = Option.bind (last? is) (λ (i : Iteration). i.test_results)

abbrev pub is_blocked : Option ReviewReport → Bool
is_blocked none = false
is_blocked (some r) = not r.approved

unfoldable pub review_body : Context → M Flow
unfolding component transition emit_event
review_body c = do
  component c.reviewer
  s ← get_story
  if is_blocked (last_review s.iterations)
      then (do transition c coding "Review found blocking issues"; emit_event; pure returned)
      else (do transition c testing "Review approved"; pure proceed)

unfoldable pub run_review : Context → M (Unit {0})
unfolding review_body fail finish
run_review c = do
  transition c reviewing "Iteration"
  emit_event
  flow ← try (review_body c) (fail c "Code review failed")
  finish flow

abbrev pub lift_option : {A : Type 0} → Option A → M A
lift_option none w = (w, raised component_error)
lift_option (some a) w = (w, ok a)

unfoldable pub create_test_error_context : Context → TestReport → M ErrorContext
create_test_error_context c report = elim c.error_classifier [
  | none ↦ pure (record { fingerprint = "" })
  | some classify ↦ lift_option (classify report)
]

unfoldable pub should_retry : M Bool
unfolding Retry.should_retry
should_retry w = (w, ok (Retry.should_retry w.policy (w.story.id, testing)))

unfoldable pub record_failure : Context → ErrorContext → M (Unit {0})
unfolding Retry.record_attempt
record_failure c e w =
    let (p', a) =
      Retry.record_attempt (c.clock w.ticks) w.policy (w.story.id, testing) false e.fingerprint in
    (record w { policy = p'; ticks = w.ticks + 1 }, ok tt)

unfoldable pub tests_failed : Context → TestReport → M Flow
unfolding create_test_error_context should_retry record_failure component transition emit_event
tests_failed c report = do
  error ← create_test_error_context c report
  retry ← should_retry
  if retry
      then (do
        record_failure c error
        component (given_error c.memory_store error)
        transition c coding "Tests failed - retrying")
      else transition c failed "Tests failed and retry limit exceeded"
  emit_event
  pure returned

unfoldable pub judge_tests : Context → Option TestReport → M Flow
unfolding tests_failed
judge_tests c none = pure proceed
judge_tests c (some report) = if ltb 0 report.failed then tests_failed c report else pure proceed

unfoldable pub testing_body : Context → M Flow
unfolding component judge_tests
testing_body c = do
  component c.test_generator
  component c.test_runner
  s ← get_story
  judge_tests c (last_report s.iterations)

unfoldable pub run_testing : Context → M (Unit {0})
unfolding testing_body fail finish
run_testing c = do
  transition c testing "Iteration"
  emit_event
  flow ← try (testing_body c) (fail c "Testing failed")
  finish flow
