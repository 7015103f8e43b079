-- ===== src/StateMachine/Completion.antt =====
-- How a story comes to `done` by requests to `transition` of state_machine.py.
use fastcoder.Base.{ℕ, String, ◌≡◌, refl, sym, subst, ◌≢◌, List, [], ◌∷◌}
use fastcoder.Story.{StoryState, received, done, failed, Story}
use fastcoder.StateMachine.{
  StateMachine, Behaviour, StateTransition, get_history, move, transition, new,
}
use fastcoder.StateMachine.Diagram.{
  ◌⟶◌, ◌⟶*◌, here, then, KeepsStory, run_callbacks_keep, transition_accepted, ⟶*-done,
}
use fastcoder.StateMachine.History.{Request, run, Chain, run-new-Chain, done_needs_every_stage}
use mathlib.Core.List.{Memᴰ}

module _ (call : Behaviour) (keeps : KeepsStory call) where
  accepted_state :
      (now : ℕ) (m : StateMachine) (s : Story) (target : StoryState) (reason : String)
      → s.state ⟶ target
      → (transition call now m s target reason).1.state ≡ target
  accepted_state now m s target reason e =
      rw (transition_accepted call now m s target reason e)
        (run_callbacks_keep call keeps m.callbacks (move target now s) _).0

  -- A way in the diagram is a list of requests that are all accepted.
  run_along :
      {from to : StoryState}
      → from ⟶* to
      → (m : StateMachine) (s : Story) → s.state ≡ from
      → (rs : List Request) × ((run call rs m s).1.state ≡ to)
  unfolding run
  run_along here m s h = ([], h)
  run_along (then {t = u} e way) m s h =
      let r : Request = record { now = 0; target = u; reason = "" } in
      let (m', s', err) = transition call 0 m s u "" in
      let (rs, arrived) =
        run_along way m' s' (accepted_state 0 m s u "" (subst (λ x. x ⟶ u) (sym h) e)) in
      (r ∷ rs, arrived)

  -- From any machine, a story that has not failed can be brought to `done` by requests, if the
  -- callbacks leave its state and identity alone.
  pub run-done :
      (m : StateMachine) (s : Story)
      → s.state ≢ failed
      → (rs : List Request) × ((run call rs m s).1.state ≡ done)
  run-done m s h = run_along (⟶*-done s.state h) m s refl

  -- A story that starts as new and is `done` after some requests, refused ones included, has left
  -- each state but `done` and `failed` on the way, if the callbacks leave its state and identity alone:
  -- no stage of the pipeline can be skipped.
  pub run-new-done_every_stage :
      (rs : List Request) (s : Story) (stage : StoryState)
      → s.state ≡ received
      → (run call rs new s).1.state ≡ done
      → stage ≢ done
      → stage ≢ failed
      → (t : StateTransition) × Memᴰ t (get_history (run call rs new s).0 s.id)
        × (t.from_state ≡ stage)
  run-new-done_every_stage rs s stage h d n f = done_needs_every_stage stage n f (
      subst (λ x. Chain received (get_history (run call rs new s).0 s.id) x) d
        (run-new-Chain call keeps rs s h))
