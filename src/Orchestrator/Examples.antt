-- ===== src/Orchestrator/Examples.antt =====
-- Runs of the orchestrator.
use fastcoder.Base.{◌<◌, ◌≡◌, refl, ◌⊎◌, true, false, [], ◌∷◌, none, some}
use fastcoder.Story.{
  StoryState, received, analyzing, planning, coding, testing, failed, Story, Iteration,
}
use fastcoder.StateMachine
use fastcoder.StateMachine.Diagram.{KeepsStory}
use fastcoder.Retry
use fastcoder.Retry.{RetryPolicy}
use fastcoder.Approval
use fastcoder.Approval.{pending, pass, GateResult, gate_result, ApprovalGateManager}
use fastcoder.Orchestrator.{Exn, ok, raised, World, Component, Context, transition, emit_event}
use fastcoder.Orchestrator.Keeps.{KeepsState}
use fastcoder.Orchestrator.Outcomes.{Shows}
use fastcoder.Orchestrator.Stages.{run_coding}
use fastcoder.Orchestrator.Lifecycle.{deliver}
use fastcoder.Orchestrator.Delivery.{run_deployment, run_security_scan}
use fastcoder.Orchestrator.Lifecycle.{process_story, run_coding_loop, coding_loop, exceeded}
use fastcoder.Orchestrator.Failure.{process_story_fails}
use fastcoder.Orchestrator.Coding.{run_coding_loop_fails}
use fastcoder.Orchestrator.Budget.{Leaves, run_coding_within_budget}
use fastcoder.Orchestrator.Deployment.{
  deliver-IsUndelivered, IsUndelivered, run_deployment_unapproved,
}
use fastcoder.Orchestrator.Scans.{run_security_scan_silent}

abbrev quiet : StateMachine.Behaviour
quiet k s t = s

quiet-KeepsStory : KeepsStory quiet
quiet-KeepsStory = record { state = λ k s t. refl; id = λ k s t. refl }

abbrev spend : Component
spend s = (record s { metadata = record s.metadata { total_cost_usd = 7 } }, false)

spend-KeepsState : KeepsState spend
spend-KeepsState = record { state = λ s. refl; id = λ s. refl }

-- An orchestrator with a component that costs a little in every place where one is asked for.
abbrev context : Context
context = record {
  clock = λ n. n;
  call = quiet;
  max_iterations = 0;
  analyzer = some spend;
  planner = some spend;
  generator = some (λ e. spend);
  reviewer = some spend;
  test_generator = none;
  test_runner = none;
  deployer = some spend;
  verifier = some spend;
  evidence_generator = none;
  context_manager = none;
  memory_store = none;
  error_classifier = none;
  security_scanner = some (λ files. some false);
  quality_gate_engine = none;
  post_mortem_engine = none;
  stores_results = false;
}

abbrev story : Story
story = record {
  id = "s1";
  state = received;
  iterations = [];
  cost_budget_usd = 100;
  metadata = record { updated_at = 0; completed_at = none; total_cost_usd = 0 };
}

abbrev world : StoryState → World
world state = record {
  story = record story { state = state };
  machine = StateMachine.new;
  policy = Retry.new 5;
  gates = Approval.new Approval.default_gates;
  events = [];
  ticks = 0;
}

process_story_fails_example :
    (w' : World) × (process_story context (world received) ≡ (w', ok tt))
    × (Shows (world received) w' failed (received ∷ analyzing ∷ planning ∷ failed ∷ [])
        ⊎ Shows (world received) w' failed (received ∷ analyzing ∷ failed ∷ []))
process_story_fails_example =
    process_story_fails context quiet-KeepsStory spend-KeepsState (world received) refl

no_rounds : (run_coding_loop context (world coding)).1 ≡ ok tt
unfolding run_coding_loop coding_loop exceeded transition emit_event StateMachine.new Retry.new
    Approval.new
no_rounds = refl

run_coding_loop_fails_example :
    let (w', r) = run_coding_loop context (world coding) in
    ((e : Exn) × (r ≡ raised e)) ⊎ ((r ≡ ok tt) × (w'.story.state ≡ failed))
run_coding_loop_fails_example = run_coding_loop_fails context quiet-KeepsStory (world coding)

parts_leave : Leaves context quiet-KeepsStory
parts_leave = record { generator = λ e. spend-KeepsState; context_manager = λ n. tt }

run_coding_within_budget_example :
    (w' : World) × (run_coding context (world coding) ≡ (w', ok tt))
    × ((w'.story.state ≡ failed)
        ⊎ ((w'.story.state ≡ coding)
            × (w'.story.metadata.total_cost_usd < w'.story.cost_budget_usd)))
run_coding_within_budget_example =
    run_coding_within_budget context quiet-KeepsStory (world coding) refl parts_leave

-- The stage that it runs through costs 7 of 100.
coding_goes_on : (run_coding context (world coding)).0.story.state ≡ coding
unfolding run_coding StateMachine.new Retry.new Approval.new
coding_goes_on = refl

deliver-IsUndelivered_example :
    IsUndelivered (run_deployment context (world testing)).0 (deliver context (world testing))
deliver-IsUndelivered_example =
    deliver-IsUndelivered context quiet-KeepsStory (world testing) refl spend-KeepsState

abbrev awaiting : ApprovalGateManager
awaiting = record {
  approval_gates = Approval.default_gates;
  pending_approvals =
      (
        ("s1", "pre_deploy"),
        record {
          story_id = "s1";
          gate_name = "pre_deploy";
          requested_at = 0;
          requested_by = "orchestrator";
        },
      )
      ∷ [];
  decisions = [];
  callbacks = [];
  notified = [];
}

gate_is_pending :
    Approval.check_gate 0 (Approval.new Approval.default_gates) "pre_deploy" "s1"
    ≡ some (awaiting, gate_result "pre_deploy" pending true)
unfolding Approval.check_gate Approval.new
gate_is_pending = refl

run_deployment_unapproved_example :
    run_deployment context (world testing)
    ≡ run_deployment (record context { deployer = none }) (world testing)
run_deployment_unapproved_example =
    run_deployment_unapproved context (world testing) none awaiting
      (gate_result "pre_deploy" pending true) gate_is_pending (λ e. cc)

abbrev iteration : Iteration
iteration = record {
  stage = "coding";
  changes = "src/a.py" ∷ [];
  test_results = none;
  review_results = none;
  error_context = none;
}

abbrev changed : World
changed = record (world testing) {
  story = record story { state = testing; iterations = iteration ∷ [] };
}

run_security_scan_silent_example :
    ((run_security_scan context changed).0.story ≡ changed.story)
    × ((run_security_scan context changed).1 ≡ ok tt)
run_security_scan_silent_example = run_security_scan_silent context refl changed
