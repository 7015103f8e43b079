-- ===== src/Orchestrator/Lifecycle.antt =====
-- `_run_coding_loop` and `process_story` of orchestrator/__init__.py.
use fastcoder.Base.{ℕ, zero, suc, ◌+◌, ◌-◌, Bool, true, false, not, some, if◌then◌else◌, length}
use fastcoder.Story.{StoryState, planning, coding, done, failed}
use fastcoder.Convergence
use fastcoder.Convergence.{
  default_detector, Status, Action, escalate, replan, continue, enrich_context, ConvergenceResult,
  progressing,
}
use fastcoder.Orchestrator.{
  ok, M, ◌>>=◌, ◌>>◌, pure, try, Context, get_story, emit_event, transition, when,
}
use fastcoder.Orchestrator.Stages.{
  state_is, run_analysis, run_planning, run_coding, run_review, run_testing,
}
use fastcoder.Orchestrator.Delivery.{
  run_deployment, run_verification, run_security_scan, run_quality_gates, generate_evidence_bundle,
}

-- How a round of the loop ends: `return`, `continue` with the next number, or `break`.
pub data Round : Type 0 where
  give_up again success : Round

abbrev pub story_state_is : StoryState → M Bool
story_state_is state w = (w, ok (state_is state w.story))

unfoldable pub again_if_coding : M Round → M Round
again_if_coding rest = do
  back ← story_state_is coding
  if back then (do emit_event; pure again) else rest

unfoldable pub after_testing : Context → M Round
after_testing c = again_if_coding (do
  run_security_scan c
  again_if_coding (do run_quality_gates c; again_if_coding (pure success)))

unfoldable pub give_up_if_failed : M Round → M Round
give_up_if_failed rest = do over ← story_state_is failed; if over then pure give_up else rest

-- One round, after the check of convergence.
unfoldable pub attempt : Context → M Round
attempt c = do
  run_coding c
  give_up_if_failed (do
    run_review c
    give_up_if_failed (again_if_coding (do run_testing c; give_up_if_failed (after_testing c))))

-- What the verdict on convergence calls for: whether the round goes on.
unfoldable pub act_on : Context → ConvergenceResult → M Round → M Round
act_on c r rest = elim r.status [
  | progressing ↦ rest
  | _ ↦ elim r.recommended_action [
    | escalate ↦ do transition c failed "Convergence issue"; emit_event; pure give_up
    | replan ↦ do
      transition c planning "Replanning due to lack of progress"
      emit_event
      run_planning c
      pure give_up
    | _ ↦ rest
  ]
]

unfoldable pub round : Context → M Round
round c = do s ← get_story; act_on c (Convergence.check default_detector s) (attempt c)

-- The check after the loop, which a loop that ran out of rounds reaches.
unfoldable pub exceeded : Context → M (Unit {0})
exceeded c = do transition c failed "Exceeded max iterations"; emit_event

unfoldable pub go_on : M (Unit {0}) → Round → M (Unit {0})
go_on next give_up = pure tt
go_on next again = next
go_on next success = pure tt

-- `left` rounds are left: `iteration_num` is `max_iterations + 1 - left`.
unfoldable pub coding_loop : Context → ℕ → M (Unit {0})
coding_loop c zero = exceeded c
coding_loop c (suc left) = let next = coding_loop c left in do r ← round c; go_on next r

unfoldable pub run_coding_loop : Context → M (Unit {0})
run_coding_loop c = do s ← get_story; coding_loop c (c.max_iterations - length s.iterations)

-- `if story.state == StoryState.FAILED: return story`, before the rest.
unfoldable pub unless_failed : M Bool → M Bool
unless_failed rest = do over ← story_state_is failed; if over then pure true else rest

unfoldable pub complete : Context → M (Unit {0})
complete c = do
  transition c done "Successfully completed"
  λ w. (
    record w {
      story = record w.story {
        metadata = record w.story.metadata { completed_at = some (c.clock w.ticks) };
      };
      ticks = w.ticks + 1;
    },
    ok tt,
  )

-- The end of the `try` block, from the deployment on. The result is whether it returned early.
unfoldable pub deliver : Context → M Bool
deliver c = do
  run_deployment c
  unless_failed (do
    run_verification c
    over ← story_state_is failed
    when (not over) (complete c)
    pure false)

-- The `try` block. The result is whether it returned early, past the last event.
unfoldable pub workflow : Context → M Bool
workflow c = do
  run_analysis c
  unless_failed (do
    run_planning c
    unless_failed (do run_coding_loop c; unless_failed (do generate_evidence_bundle c; deliver c)))

-- `process_story`, from the world with the new story in it.
unfoldable pub process_story : Context → M (Unit {0})
process_story c = do
  emit_event
  early ← try (workflow c) (do transition c failed "Orchestrator error"; pure false)
  when (not early) emit_event
