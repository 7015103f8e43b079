-- ===== src/Orchestrator.antt =====
-- orchestrator/__init__.py: the life of a story. A method is an action of `M`: it changes the
-- `World` that the orchestrator and the story make up, and returns or raises. The components that
-- the orchestrator is given (analyzer, planner, generator, ...) are parameters, in `Context`.
pub mod Stages
pub mod Delivery
pub mod Lifecycle
pub mod Keeps
pub mod Outcomes
pub mod Failure
pub mod Ends
pub mod Coding
pub mod Budget
pub mod Deployment
pub mod Scans
mod Examples
use fastcoder.Base.{
  ℕ, ◌+◌, String, Bool, true, false, List, [], ◌∷◌, ◌++◌, Option, none, some, if◌then◌else◌,
}
use fastcoder.Story.{StoryState, Story, Iteration, ErrorContext, TestReport}
use fastcoder.StateMachine
use fastcoder.StateMachine.{StateMachine, Behaviour}
use fastcoder.Retry.{RetryPolicy}
use fastcoder.Approval.{ApprovalGateManager}

pub data Exn : Type 0 where
  value_error component_error : Exn

pub data Result (A : Type 0) : Type 0 where
  ok : A → Result A
  raised : Exn → Result A

-- `events` are the states that `_emit_event` has shown to the callbacks, the first one first;
-- `ticks` counts the readings of the clock.
pub record World : Type 0 where
  pub story : Story
  pub machine : StateMachine
  pub policy : RetryPolicy
  pub gates : ApprovalGateManager
  pub events : List StoryState
  pub ticks : ℕ

abbrev pub M : Type 0 → Type 0
M A = World → World × Result A

abbrev pub bind_result : {A B : Type 0} → World × Result A → (A → M B) → World × Result B
bind_result (w, ok a) f = f a w
bind_result (w, raised e) f = (w, raised e)

infixl 5 ◌>>=◌ ◌>>◌
abbrev pub ◌>>=◌ : {A B : Type 0} → M A → (A → M B) → M B
◌>>=◌ m f w = bind_result (m w) f

abbrev pub ◌>>◌ : {B : Type 0} → M (Unit {0}) → M B → M B
m >> k = m >>= λ _. k

abbrev pub pure : {A : Type 0} → A → M A
pure a w = (w, ok a)

abbrev pub catch_result : {A : Type 0} → World × Result A → M A → World × Result A
catch_result (w, ok a) handler = (w, ok a)
catch_result (w, raised e) handler = handler w

-- `try: body; except Exception: handler`
abbrev pub try : {A : Type 0} → M A → M A → M A
try body handler w = catch_result (body w) handler

-- How a component changes the story, and whether it raises. The story that it returns is the object
-- that it was given, as for those of orchestrator/adapters.py.
abbrev pub Component : Type 0
Component = Story → Story × Bool

-- What a quality gate engine returns: `all_required_passed`, and the gates that failed.
pub record QualityResult : Type 0 where
  pub all_required_passed : Bool
  pub failed_gates : List String

-- The components that the orchestrator was given, each of which may be missing, and the clock.
-- A scan returns whether it passed, and an analysis of a failure whether it raised; `none` inside
-- the other results stands for an exception. `stores_results` is whether an `Iteration`, which
-- declares no such field, accepts the result of a scan or of the quality gates: pydantic decides.
pub record Context : Type 0 where
  pub clock : ℕ → ℕ
  pub call : Behaviour
  pub max_iterations : ℕ
  pub analyzer : Option Component
  pub planner : Option Component
  pub generator : Option (Option ErrorContext → Component)
  pub reviewer : Option Component
  pub test_generator : Option Component
  pub test_runner : Option Component
  pub deployer : Option Component
  pub verifier : Option Component
  pub evidence_generator : Option Component
  pub context_manager : Option (ℕ → Component)
  pub memory_store : Option (ErrorContext → Component)
  pub error_classifier : Option (TestReport → Option ErrorContext)
  pub security_scanner : Option (List String → Option Bool)
  pub quality_gate_engine : Option (List String → Option QualityResult)
  pub post_mortem_engine : Option (String → Story → Bool)
  pub stores_results : Bool

abbrev pub get_story : M Story
get_story w = (w, ok w.story)

unfoldable pub emit_event : M (Unit {0})
emit_event w = (record w { events = w.events ++ w.story.state ∷ [] }, ok tt)

abbrev pub transition_result : Option StateMachine.Error → Result (Unit {0})
transition_result none = ok tt
transition_result (some e) = raised value_error

-- The world after a call of the state machine.
abbrev pub moved :
    World → StateMachine × Story × Option StateMachine.Error → World × Result (Unit {0})
moved w (m', s', e) =
    (record w { story = s'; machine = m'; ticks = w.ticks + 1 }, transition_result e)

-- `self.state_machine.transition(story, target, reason=...)`
unfoldable pub transition : Context → StoryState → String → M (Unit {0})
unfolding StateMachine.transition
transition c target reason w =
    moved w (StateMachine.transition c.call (c.clock w.ticks) w.machine w.story target reason)

-- `if self.part: story = await self.part.method(story)`
unfoldable pub component : Option Component → M (Unit {0})
component none w = (w, ok tt)
component (some f) w =
    let (s', raises) = f w.story in
    (record w { story = s' }, if raises then raised component_error else ok tt)

unfoldable pub when : Bool → M (Unit {0}) → M (Unit {0})
when true m = m
when false m = pure tt
