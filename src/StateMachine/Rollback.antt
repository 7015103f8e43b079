-- ===== src/StateMachine/Rollback.antt =====
-- `can_rollback_to` and `rollback` of state_machine.py.
use fastcoder.Base.{ℕ, String, ◌≡◌, refl, ◌≢◌, ◌↔◌, ◌⊎◌, true, none, some, arith}
use fastcoder.Story.{
  StoryState, received, coding, reviewing, testing, verifying, done, failed, Story,
}
use fastcoder.StateMachine.{
  StateMachine, Behaviour, invalid_transition, is_valid_transition, can_rollback_to, rollback,
}
use fastcoder.StateMachine.Diagram.{
  ◌⟶◌, is_valid_transition→⟶, block, retry, reopen, fail_analyzing, fail_planning, fail_coding,
  fail_reviewing, fail_testing, fail_deploying, fail_verifying,
}

-- Giving up is open to a story that work has begun on; the other rollbacks lead to `coding`.
pub data Rollback : StoryState → StoryState → Type 0 where
  give_up : {s : StoryState} → s ≢ received → s ≢ done → s ≢ failed → Rollback s failed
  rework_tests : Rollback testing coding
  rework_review : Rollback reviewing coding
  rework_deployment : Rollback verifying coding

allowed :
    (s : Story) {from target : StoryState}
    → from ⟶ target
    → s.state ≡ from
    → can_rollback_to s target ≡ true
    → Rollback from target
unfolding can_rollback_to
allowed s block e h = rework_review
allowed s retry e h = rework_tests
allowed s reopen e h = rework_deployment
allowed s fail_analyzing e h = grind (arith, give_up)
allowed s fail_planning e h = grind (arith, give_up)
allowed s fail_coding e h = grind (arith, give_up)
allowed s fail_reviewing e h = grind (arith, give_up)
allowed s fail_testing e h = grind (arith, give_up)
allowed s fail_deploying e h = grind (arith, give_up)
allowed s fail_verifying e h = grind (arith, give_up)
allowed s _ e h = ground arith

both_tests :
    (call : Behaviour) (now : ℕ) (m : StateMachine) (s : Story) (target : StoryState)
    (reason : String)
    → (rollback call now m s target reason).2 ≡ none
    → (can_rollback_to s target ≡ true) × (is_valid_transition s.state target ≡ true)
unfolding rollback
both_tests call now m s target reason h = ground arith

rollback_only :
    (call : Behaviour) (now : ℕ) (m : StateMachine) (s : Story) (target : StoryState)
    (reason : String)
    → (rollback call now m s target reason).2 ≡ none
    → Rollback s.state target
rollback_only call now m s target reason h =
    let (can, valid) = both_tests call now m s target reason h in
    allowed s (is_valid_transition→⟶ s.state target valid) refl can

rollback_open :
    {from target : StoryState}
    → Rollback from target
    → (call : Behaviour) (now : ℕ) (m : StateMachine) (s : Story) (reason : String) → s.state ≡ from
    → (rollback call now m s target reason).2 ≡ none
unfolding rollback
rollback_open (give_up r d f) call now m s reason e = ground arith
rollback_open _ call now m s reason e = ground arith

-- A rollback succeeds exactly in these cases: to `failed`, unless the story is new or finished, and
-- to `coding`, from review, test or verification.
pub rollback-eq-none_iff :
    (call : Behaviour) (now : ℕ) (m : StateMachine) (s : Story) (target : StoryState)
    (reason : String)
    → ((rollback call now m s target reason).2 ≡ none) ↔ Rollback s.state target
rollback-eq-none_iff call now m s target reason =
    (rollback_only call now m s target reason, λ r. rollback_open r call now m s reason refl)

-- `can_rollback_to` allows `failed` from every state, but of a new or finished story the rollback
-- then raises, and leaves the machine and the story as they were.
pub rollback-failed_refused :
    (call : Behaviour) (now : ℕ) (m : StateMachine) (s : Story) (reason : String)
    → (s.state ≡ received) ⊎ ((s.state ≡ done) ⊎ (s.state ≡ failed))
    → (can_rollback_to s failed ≡ true)
      × (rollback call now m s failed reason ≡ (m, s, some invalid_transition))
unfolding rollback
rollback-failed_refused call now m s reason h = ground arith
