-- ===== src/StateMachine/Diagram.antt =====
-- The transition diagram of state_machine.py as a relation, and `transition` against it.
use fastcoder.Base.{
  ℕ, String, ◌≡◌, refl, ◌≢◌, ◌↔◌, ◌⊎◌, inl, inr, true, List, [], ◌∷◌, none, some, arith, Bool-cases,
}
use fastcoder.Story.{
  StoryState, received, analyzing, planning, coding, reviewing, testing, deploying, verifying, done,
  failed, Story,
}
use fastcoder.StateMachine.{
  StateMachine, Behaviour, StateTransition, invalid_transition, is_valid_transition, run_callbacks,
  move, track, transition,
}

infix 40 ◌⟶◌ ◌⟶*◌
pub data ◌⟶◌ : StoryState → StoryState → Type 0 where
  accept : received ⟶ analyzing
  plan : analyzing ⟶ planning
  code : planning ⟶ coding
  review : coding ⟶ reviewing
  block : reviewing ⟶ coding
  approve : reviewing ⟶ testing
  retry : testing ⟶ coding
  review_again : testing ⟶ reviewing
  deploy : testing ⟶ deploying
  verify : deploying ⟶ verifying
  redeploy : deploying ⟶ coding
  reopen : verifying ⟶ coding
  finish : verifying ⟶ done
  fail_analyzing : analyzing ⟶ failed
  fail_planning : planning ⟶ failed
  fail_coding : coding ⟶ failed
  fail_reviewing : reviewing ⟶ failed
  fail_testing : testing ⟶ failed
  fail_deploying : deploying ⟶ failed
  fail_verifying : verifying ⟶ failed

pub data ◌⟶*◌ : StoryState → StoryState → Type 0 where
  here : {s : StoryState} → s ⟶* s
  then : {s t u : StoryState} → s ⟶ t → t ⟶* u → s ⟶* u

ruleset edges = (
  accept, plan, code, review, block, approve, retry, review_again, deploy, verify, redeploy, reopen,
  finish, fail_analyzing, fail_planning, fail_coding, fail_reviewing, fail_testing, fail_deploying,
  fail_verifying,
)

pub is_valid_transition→⟶ : (s t : StoryState) → is_valid_transition s t ≡ true → s ⟶ t
unfolding is_valid_transition
is_valid_transition→⟶ s t h = grind (arith, edges)

pub ⟶→is_valid_transition : (s t : StoryState) → s ⟶ t → is_valid_transition s t ≡ true
unfolding is_valid_transition
⟶→is_valid_transition s t accept = refl
⟶→is_valid_transition s t _ = refl

pub dec_⟶ : (s t : StoryState) → Dec (s ⟶ t)
dec_⟶ s t = elim (Bool-cases (is_valid_transition s t)) [
  | inl valid ↦ yes (is_valid_transition→⟶ s t valid)
  | inr invalid ↦ no (λ e. ground (arith, ⟶→is_valid_transition s t e))
]

-- A callback may change the story, but neither its state nor its identity.
pub record KeepsStory (call : Behaviour) : Type 0 where
  pub state : (c : ℕ) (s : Story) (t : StateTransition) → (call c s t).state ≡ s.state
  pub id : (c : ℕ) (s : Story) (t : StateTransition) → (call c s t).id ≡ s.id

module _ (call : Behaviour) (keeps : KeepsStory call) where
  pub run_callbacks_keep :
      (cs : List ℕ) (s : Story) (t : StateTransition)
      → ((run_callbacks call cs s t).state ≡ s.state) × ((run_callbacks call cs s t).id ≡ s.id)
  unfolding run_callbacks
  run_callbacks_keep [] s t = (refl, refl)
  run_callbacks_keep (c ∷ cs) s t =
      ground (arith, run_callbacks_keep cs (call c s t) t, keeps.state c s t, keeps.id c s t)

-- A request for a transition is refused exactly when the diagram has no such edge.
pub transition-eq-none_iff :
    (call : Behaviour) (now : ℕ) (m : StateMachine) (s : Story) (target : StoryState)
    (reason : String)
    → ((transition call now m s target reason).2 ≡ none) ↔ (s.state ⟶ target)
unfolding transition
transition-eq-none_iff call now m s target reason = (
  λ h. is_valid_transition→⟶ s.state target (ground arith),
  λ e. ground (arith, ⟶→is_valid_transition s.state target e),
)

-- A refused request leaves the machine and the story as they were.
pub transition_refused :
    (call : Behaviour) (now : ℕ) (m : StateMachine) (s : Story) (target : StoryState)
    (reason : String)
    → ¬ (s.state ⟶ target)
    → transition call now m s target reason ≡ (m, s, some invalid_transition)
unfolding transition
transition_refused call now m s target reason h =
    elim (Bool-cases (is_valid_transition s.state target)) [
      | inl valid ↦ absurd (h (is_valid_transition→⟶ s.state target valid))
      | inr invalid ↦ rw invalid
    ]

-- An accepted request stamps the story with the target state, records the transition in the
-- machine, and hands both to the callbacks.
pub transition_accepted :
    (call : Behaviour) (now : ℕ) (m : StateMachine) (s : Story) (target : StoryState)
    (reason : String)
    → s.state ⟶ target
    → let t : StateTransition = record {
      from_state = s.state;
      to_state = target;
      timestamp = now;
      reason = reason;
    } in
      transition call now m s target reason
      ≡ (track m s.id t, run_callbacks call m.callbacks (move target now s) t, none)
unfolding transition
transition_accepted call now m s target reason e = rw (⟶→is_valid_transition s.state target e)

abbrev pub IsTerminal : StoryState → Type 0
IsTerminal s = (s ≡ done) ⊎ (s ≡ failed)

source_not-IsTerminal : {s t : StoryState} → s ⟶ t → ¬ IsTerminal s
source_not-IsTerminal accept h = ground arith
source_not-IsTerminal _ h = ground arith

-- `done` and `failed` are final: no request moves a story out of them.
pub terminal_refused :
    (call : Behaviour) (now : ℕ) (m : StateMachine) (s : Story) (target : StoryState)
    (reason : String)
    → IsTerminal s.state
    → transition call now m s target reason ≡ (m, s, some invalid_transition)
terminal_refused call now m s target reason h =
    transition_refused call now m s target reason (λ e. source_not-IsTerminal e h)

-- A state from which there is no way to `done` is `failed`.
pub ⟶*-done : (s : StoryState) → s ≢ failed → s ⟶* done
⟶*-done failed h = absurd (h refl)
⟶*-done done h = here
⟶*-done _ h = search (here, then, edges) depth 10
