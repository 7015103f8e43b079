-- ===== src/StateMachine/Examples.antt =====
-- Runs of the state machine.
use fastcoder.Base.{◌≡◌, refl, List, [], ◌∷◌, none}
use fastcoder.Story.{
  StoryState, received, analyzing, planning, coding, reviewing, testing, deploying, verifying, done,
  Story,
}
use fastcoder.StateMachine.{Behaviour, StateTransition, new, transition, get_history}
use fastcoder.StateMachine.Diagram.{KeepsStory}
use fastcoder.StateMachine.Completion.{run-done, run-new-done_every_stage}
use mathlib.Core.List.{Memᴰ}
use fastcoder.StateMachine.History.{Chain, Request, run, run-new-Chain}

-- Callbacks that do nothing.
abbrev quiet : Behaviour
quiet c s t = s

quiet-KeepsStory : KeepsStory quiet
quiet-KeepsStory = record { state = λ c s t. refl; id = λ c s t. refl }

abbrev story : Story
story = record {
  id = "s1";
  state = received;
  iterations = [];
  cost_budget_usd = 5000000;
  metadata = record { updated_at = 0; completed_at = none; total_cost_usd = 0 };
}

abbrev finished : Story
finished = record story { state = done }

abbrev to : StoryState → Request
to target = record { now = 7; target = target; reason = "" }

abbrev requests : List Request
requests = to analyzing ∷ to coding ∷ to planning ∷ []

-- The second of the requests is refused.
requests_state : (run quiet requests new story).1.state ≡ planning
unfolding run transition new
requests_state = refl

run-done_example : (rs : List Request) × ((run quiet rs new story).1.state ≡ done)
run-done_example = run-done quiet quiet-KeepsStory new story (λ e. cc)

-- The eight requests that lead a new story to `done`.
abbrev pipeline : List Request
pipeline =
    to analyzing
    ∷ to planning
    ∷ to coding
    ∷ to reviewing
    ∷ to testing
    ∷ to deploying
    ∷ to verifying
    ∷ to done
    ∷ []

pipeline_done : (run quiet pipeline new story).1.state ≡ done
unfolding run transition new
pipeline_done = refl

run-new-done_every_stage_example :
    (t : StateTransition) × Memᴰ t (get_history (run quiet pipeline new story).0 "s1")
    × (t.from_state ≡ reviewing)
run-new-done_every_stage_example =
    run-new-done_every_stage quiet quiet-KeepsStory pipeline story reviewing refl pipeline_done
      (λ e. cc) (λ e. cc)

run-new-Chain_example :
    let (m, s) = run quiet requests new story in Chain received (get_history m "s1") s.state
run-new-Chain_example = run-new-Chain quiet quiet-KeepsStory requests story refl
