-- ===== src/Orchestrator/Failure.antt =====
-- `process_story` of orchestrator/__init__.py as a whole, from a new story on.
use fastcoder.Base.{
  ◌+◌, ◌≡◌, refl, sym, subst, ◌∙◌, ◌⊎◌, inl, inr, Bool, true, false, [], ◌∷◌, arith,
}
use fastcoder.Story.{received, analyzing, planning, failed, Story}
use fastcoder.StateMachine.Diagram.{◌⟶◌, KeepsStory, fail_planning}
use fastcoder.Orchestrator.{ok, raised, value_error, World, M, Context, emit_event, when}
use fastcoder.Orchestrator.Stages.{state_is, run_analysis, run_planning}
use fastcoder.Orchestrator.Lifecycle.{workflow, process_story, unless_failed}
use fastcoder.Orchestrator.Keeps.{MaybeKeeps, transition_accepts, transition_refuses}
use fastcoder.Orchestrator.Outcomes.{Shows, emitted, run_analysis_lem}
use mathlib.Core.List.{append_assoc}

not_planning_again : ¬ (planning ⟶ planning)
not_planning_again e = elim e [ ]

abbrev ticked : World → World
ticked w = record w { ticks = w.ticks + 1 }

-- A story that has been planned for once cannot be planned for: the stage begins with a transition
-- that is refused.
pub run_planning-planning_raises :
    (c : Context) (w : World)
    → w.story.state ≡ planning
    → run_planning c w ≡ (record w { ticks = w.ticks + 1 }, raised value_error)
unfolding run_planning
run_planning-planning_raises c w h =
    rw
      (transition_refuses c w planning "Starting planning"
        (λ e. not_planning_again (subst (λ s. s ⟶ planning) h e)))
      refl

state_is-failed : (s : Story) → s.state ≡ failed → state_is failed s ≡ true
state_is-failed s h = ground arith

state_is-planning : (s : Story) → s.state ≡ planning → state_is failed s ≡ false
state_is-planning s h = ground arith

pub unless_failed_stops :
    (w : World) (rest : M Bool) → w.story.state ≡ failed → unless_failed rest w ≡ (w, ok true)
unfolding unless_failed
unless_failed_stops w rest h = rw (state_is-failed w.story h) refl

unless_failed_goes_on :
    (w : World) (rest : M Bool) → w.story.state ≡ planning → unless_failed rest w ≡ rest w
unfolding unless_failed
unless_failed_goes_on w rest h = rw (state_is-planning w.story h) refl

module _ (c : Context) (keeps : KeepsStory c.call) (analyzes : MaybeKeeps c.analyzer) where
  workflow_lem :
      (w : World)
      → w.story.state ≡ received
      → (w' : World) × (((workflow c w ≡ (ticked w', raised value_error))
            × Shows w w' planning (analyzing ∷ planning ∷ []))
          ⊎ ((workflow c w ≡ (w', ok true)) × Shows w w' failed (analyzing ∷ failed ∷ [])))
  unfolding workflow
  workflow_lem w h = let (w', e, s) = run_analysis_lem c keeps w h analyzes in (w', split w' e s)
    where
      split :
          (w' : World)
          → run_analysis c w ≡ (w', ok tt)
          → Shows w w' planning (analyzing ∷ planning ∷ [])
            ⊎ Shows w w' failed (analyzing ∷ failed ∷ [])
          → ((workflow c w ≡ (ticked w', raised value_error))
              × Shows w w' planning (analyzing ∷ planning ∷ []))
            ⊎ ((workflow c w ≡ (w', ok true)) × Shows w w' failed (analyzing ∷ failed ∷ []))
      split w' e (inl s) = inl (
        rw e (
            unless_failed_goes_on w' _ s.state
            ∙ rw (run_planning-planning_raises c w' s.state) refl),
        s,
      )
      split w' e (inr s) = inr (rw e (unless_failed_stops w' _ s.state), s)

  -- The handler of `process_story`: after a failed planning stage.
  process_story_raised :
      (w w₁ : World)
      → workflow c (emitted w) ≡ (ticked w₁, raised value_error)
      → Shows (emitted w) w₁ planning (analyzing ∷ planning ∷ [])
      → w.story.state ≡ received
      → (w' : World) × (process_story c w ≡ (w', ok tt))
        × Shows w w' failed (received ∷ analyzing ∷ planning ∷ failed ∷ [])
  unfolding process_story emit_event when
  process_story_raised w w₁ e s h =
      let (w₂, e₂, s₂, a₂) =
        transition_accepts c keeps (ticked w₁) failed "Orchestrator error"
          (subst (λ q. q ⟶ failed) (sym s.state) fail_planning) in
      (
        emitted w₂,
        rw (e, e₂) refl,
        record {
          state = s₂;
          events = ground (
            arith,
            a₂.events,
            s.events,
            s₂,
            h,
            append_assoc w.events (received ∷ []) (analyzing ∷ planning ∷ []),
            append_assoc w.events (received ∷ analyzing ∷ planning ∷ []) (failed ∷ []),
          );
          policy = a₂.policy ∙ s.policy;
          gates = a₂.gates ∙ s.gates;
          id = a₂.id ∙ s.id;
        },
      )

  process_story_returned :
      (w w₁ : World)
      → workflow c (emitted w) ≡ (w₁, ok true)
      → Shows (emitted w) w₁ failed (analyzing ∷ failed ∷ [])
      → w.story.state ≡ received
      → (w' : World) × (process_story c w ≡ (w', ok tt))
        × Shows w w' failed (received ∷ analyzing ∷ failed ∷ [])
  unfolding process_story emit_event when
  process_story_returned w w₁ e s h = (
    w₁,
    rw e refl,
    record {
      state = s.state;
      events =
          ground
            (arith, s.events, h, append_assoc w.events (received ∷ []) (analyzing ∷ failed ∷ []));
      policy = s.policy;
      gates = s.gates;
      id = s.id;
    },
  )

  -- No story is ever completed. Whatever the components do, if the analyzer and the callbacks of the
  -- state machine leave the story's state and identity to the orchestrator, the processing of a new
  -- story returns with the story `failed`: after the analysis it has been shown as `failed`, or as
  -- `planning` and then `failed`, and the gates and the retries are as they were.
  pub process_story_fails :
      (w : World)
      → w.story.state ≡ received
      → (w' : World) × (process_story c w ≡ (w', ok tt))
        × (Shows w w' failed (received ∷ analyzing ∷ planning ∷ failed ∷ [])
            ⊎ Shows w w' failed (received ∷ analyzing ∷ failed ∷ []))
  process_story_fails w h = end (workflow_lem (emitted w) h)
    where
      end :
          (w₁ : World) × (((workflow c (emitted w) ≡ (ticked w₁, raised value_error))
                × Shows (emitted w) w₁ planning (analyzing ∷ planning ∷ []))
              ⊎ ((workflow c (emitted w) ≡ (w₁, ok true))
                  × Shows (emitted w) w₁ failed (analyzing ∷ failed ∷ [])))
          → (w' : World) × (process_story c w ≡ (w', ok tt))
            × (Shows w w' failed (received ∷ analyzing ∷ planning ∷ failed ∷ [])
                ⊎ Shows w w' failed (received ∷ analyzing ∷ failed ∷ []))
      end (w₁, inl (e, s)) = let (w', p, q) = process_story_raised w w₁ e s h in (w', p, inl q)
      end (w₁, inr (e, s)) = let (w', p, q) = process_story_returned w w₁ e s h in (w', p, inr q)
