-- ===== src/StateMachine.antt =====
-- orchestrator/state_machine.py: the transitions of a story between its states, with their history.
-- The story is one object: an operation returns it with the machine's new state.
pub mod Diagram
pub mod History
pub mod Rollback
pub mod Completion
mod Examples
use fastcoder.Base.{ℕ, String, Bool, true, List, [], ◌∷◌, ◌++◌, Option, none, some}
use fastcoder.Base.{if◌then◌else◌, elem, remove_first, string_discrete, ℕ_discrete}
use fastcoder.Base.Dict
use fastcoder.Base.Dict.{Dict}
use fastcoder.Story.{
  StoryState, StoryState-discrete, received, analyzing, planning, coding, reviewing, testing,
  deploying, verifying, done, failed, Story,
}
use mathlib.Core.Option.{get_or}
use Prim.Native.String.{◌++◌ as str_append}

pub record StateTransition : Type 0 where
  pub from_state : StoryState
  pub to_state : StoryState
  pub timestamp : ℕ
  pub reason : String

-- A callback is known by a number. What it does is not code of the repository: the operations take
-- `call`, which says how a callback changes the story; an exception of it is swallowed.
abbrev pub Behaviour : Type 0
Behaviour = ℕ → Story → StateTransition → Story

pub record StateMachine : Type 0 where
  pub history : Dict String (List StateTransition)
  pub callbacks : List ℕ

unfoldable pub new : StateMachine
new = record { history = []; callbacks = [] }

pub data Error : Type 0 where
  invalid_transition cannot_rollback : Error

-- The dictionary `_valid_transitions`.
unfoldable pub valid_transitions : StoryState → List StoryState
valid_transitions received = analyzing ∷ []
valid_transitions analyzing = planning ∷ failed ∷ []
valid_transitions planning = coding ∷ failed ∷ []
valid_transitions coding = reviewing ∷ failed ∷ []
valid_transitions reviewing = coding ∷ testing ∷ failed ∷ []
valid_transitions testing = coding ∷ reviewing ∷ deploying ∷ failed ∷ []
valid_transitions deploying = verifying ∷ coding ∷ failed ∷ []
valid_transitions verifying = coding ∷ done ∷ failed ∷ []
valid_transitions done = []
valid_transitions failed = []

unfoldable pub is_valid_transition : StoryState → StoryState → Bool
unfolding elem StoryState-discrete valid_transitions
is_valid_transition from_state to_state =
    elem StoryState-discrete to_state (valid_transitions from_state)

-- `for callback in self._callbacks: try: callback(story, transition)`
unfoldable pub run_callbacks : Behaviour → List ℕ → Story → StateTransition → Story
run_callbacks call [] story t = story
run_callbacks call (c ∷ cs) story t = run_callbacks call cs (call c story t) t

unfoldable pub get_history : StateMachine → String → List StateTransition
unfolding Dict.get string_discrete
get_history m story_id = get_or (Dict.get string_discrete story_id m.history) []

-- `_transition_history[story.id].append(transition)`, after the key is made if it is missing.
unfoldable pub track : StateMachine → String → StateTransition → StateMachine
unfolding get_history Dict.put
track m story_id t = record m {
  history = Dict.put string_discrete story_id (get_history m story_id ++ t ∷ []) m.history;
}

abbrev pub move : StoryState → ℕ → Story → Story
move target now story = record story {
  state = target;
  metadata = record story.metadata { updated_at = now };
}

-- The result is the machine, the story and what was raised. `now` is the clock's reading.
unfoldable pub transition :
    Behaviour → ℕ → StateMachine → Story → StoryState → String → StateMachine × Story × Option Error
unfolding is_valid_transition track run_callbacks
transition call now m story target reason =
    let t : StateTransition = record {
      from_state = story.state;
      to_state = target;
      timestamp = now;
      reason = reason;
    } in
    if is_valid_transition story.state target
    then (track m story.id t, run_callbacks call m.callbacks (move target now story) t, none)
    else (m, story, some invalid_transition)

unfoldable pub register_callback : StateMachine → ℕ → StateMachine
register_callback m c = record m { callbacks = m.callbacks ++ c ∷ [] }

unfoldable pub unregister_callback : StateMachine → ℕ → StateMachine
unfolding elem remove_first ℕ_discrete
unregister_callback m c =
    if elem ℕ_discrete c m.callbacks
    then record m { callbacks = remove_first ℕ_discrete c m.callbacks }
    else m

unfoldable pub get_current_state : Story → StoryState
get_current_state story = story.state

unfoldable pub get_valid_next_states : Story → List StoryState
unfolding valid_transitions
get_valid_next_states story = valid_transitions story.state

-- The dictionary `valid_rollbacks`.
unfoldable pub valid_rollbacks : StoryState → List StoryState
valid_rollbacks testing = coding ∷ []
valid_rollbacks reviewing = coding ∷ []
valid_rollbacks verifying = coding ∷ []
valid_rollbacks _ = []

unfoldable pub can_rollback_to : Story → StoryState → Bool
unfolding elem StoryState-discrete valid_rollbacks
can_rollback_to story target =
    if elem StoryState-discrete target (failed ∷ [])
    then true
    else elem StoryState-discrete target (valid_rollbacks story.state)

unfoldable pub rollback :
    Behaviour → ℕ → StateMachine → Story → StoryState → String → StateMachine × Story × Option Error
unfolding can_rollback_to transition
rollback call now m story target reason =
    if can_rollback_to story target
    then transition call now m story target (str_append "Rollback: " reason)
    else (m, story, some cannot_rollback)
