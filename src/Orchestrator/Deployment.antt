-- ===== src/Orchestrator/Deployment.antt =====
-- The deployment and the verification of orchestrator/__init__.py.
use fastcoder.Base.{
  ◌+◌, ◌≡◌, refl, sym, subst, ◌≢◌, ◌⊎◌, ap, ◌∙◌, Bool, true, false, not, arith, inl, inr, Option,
  none, some,
}
use fastcoder.Story.{StoryState, testing, deploying, verifying, failed, Story}
use fastcoder.StateMachine.Diagram.{◌⟶◌, verify, fail_testing, KeepsStory}
use fastcoder.Approval
use fastcoder.Approval.{GateStatus, pass, pending, blocked, GateResult, ApprovalGateManager}
use fastcoder.Orchestrator.{
  raised, value_error, ok, Result, M, ◌>>=◌, pure, when, World, bind_result, ◌>>◌, Context,
  Component, transition, emit_event,
}
use fastcoder.Orchestrator.Stages.{state_is}
use fastcoder.Orchestrator.Failure.{unless_failed_stops}
use fastcoder.Orchestrator.Lifecycle.{deliver, complete, unless_failed, story_state_is}
use fastcoder.Orchestrator.Delivery.{
  run_deployment, run_deployment_with, run_verification, check_gate, gate_outcome,
}
use fastcoder.Orchestrator.Keeps.{MaybeKeeps, transition_refuses, transition_accepts}
use fastcoder.Orchestrator.Outcomes.{deploy_lem}

verifies_from : {s : StoryState} → s ⟶ verifying → s ≡ deploying
verifies_from verify = refl

-- A verification can begin only in `deploying`, a state that the deployment has left before.
pub run_verification_raises :
    (c : Context) (w : World)
    → w.story.state ≢ deploying
    → run_verification c w ≡ (record w { ticks = w.ticks + 1 }, raised value_error)
unfolding run_verification
run_verification_raises c w h =
    rw (transition_refuses c w verifying "Starting verification" (λ e. h (verifies_from e))) refl

-- How a deployment of a story in `testing` can end: raising for want of the gate, or in one of three
-- states.
abbrev IsDeployed : World × Result (Unit {0}) → Type 0
IsDeployed (w, o) =
    ((o ≡ raised value_error) × (w.story.state ≡ testing))
    ⊎ ((o ≡ ok tt)
        × ((w.story.state ≡ failed) ⊎ (w.story.state ≡ testing) ⊎ (w.story.state ≡ verifying)))

abbrev pub IsUndelivered : World → World × Result Bool → Type 0
IsUndelivered w r =
    ((w.story.state ≡ failed) × (r ≡ (w, ok true)))
    ⊎ ((w.story.state ≢ failed) × (r.1 ≡ raised value_error))

state_is-not_failed : (s : Story) → s.state ≢ failed → state_is failed s ≡ false
state_is-not_failed s h = ground (arith, h)

unless_failed_goes_on_from :
    (w : World) (rest : M Bool) → w.story.state ≢ failed → unless_failed rest w ≡ rest w
unfolding unless_failed
unless_failed_goes_on_from w rest h = rw (state_is-not_failed w.story h) refl

module _ (c : Context) (keeps : KeepsStory c.call) where
  run_deployment_with-IsDeployed :
      (w : World) (status : GateStatus)
      → w.story.state ≡ testing
      → MaybeKeeps c.deployer
      → IsDeployed (run_deployment_with c status w)
  unfolding run_deployment_with emit_event
  run_deployment_with-IsDeployed w pending h k = inr (refl, inr (inl h))
  run_deployment_with-IsDeployed w blocked h k =
      let (w', ran, at, aside) =
        transition_accepts c keeps w failed "Deployment blocked by gate"
          (subst (λ s. s ⟶ failed) (sym h) fail_testing) in
      rw ran (inr (refl, inl at))
  run_deployment_with-IsDeployed w pass h k =
      let (w', ran, shows) = deploy_lem c keeps w h k in
      rw ran (inr (refl, elim shows [ inl s ↦ inr (inr s.state) | inr s ↦ inl s.state ]))

  run_deployment-IsDeployed :
      (w : World)
      → w.story.state ≡ testing
      → MaybeKeeps c.deployer
      → IsDeployed (run_deployment c w)
  unfolding run_deployment check_gate
  run_deployment-IsDeployed w h k =
      by_gate (record w { ticks = w.ticks + 1 })
        (Approval.check_gate (c.clock w.ticks) w.gates "pre_deploy" w.story.id) h
    where
      by_gate :
          (w : World) (outcome : Option (ApprovalGateManager × GateResult))
          → w.story.state ≡ testing
          → IsDeployed (bind_result (gate_outcome w outcome) (run_deployment_with c))
      by_gate w none h = inl (refl, h)
      by_gate w (some (g, r)) h =
          run_deployment_with-IsDeployed (record w { gates = g }) r.status h k

  -- A verification of a story that has not failed raises, whatever is to follow.
  verification_is_late :
      (w : World) (rest : M Bool)
      → w.story.state ≢ deploying
      → ((do run_verification c; rest) w).1 ≡ raised value_error
  verification_is_late w rest h = rw (run_verification_raises c w h) refl

  goes_on :
      (w : World) (o : Result (Unit {0})) (rest : M Bool)
      → o ≡ ok tt
      → w.story.state ≢ failed
      → w.story.state ≢ deploying
      → (w.story.state ≢ failed)
        × ((bind_result (w, o) (λ _. unless_failed (do run_verification c; rest))).1
            ≡ raised value_error)
  goes_on w o rest e f d = (
    f,
    ap (λ p. (bind_result (w, p) (λ _. unless_failed (do run_verification c; rest))).1) e
        ∙ ap (λ r. r.1) (unless_failed_goes_on_from w (do run_verification c; rest) f)
        ∙ verification_is_late w rest d,
  )

  after_deployment :
      (r : World × Result (Unit {0})) (rest : M Bool)
      → IsDeployed r
      → IsUndelivered r.0 (bind_result r (λ _. unless_failed (do run_verification c; rest)))
  after_deployment (w, o) rest (inl (e, s)) = inr (
    λ f. let wrong : testing ≡ failed = sym s ∙ f in cc,
    ap (λ p. (bind_result (w, p) (λ _. unless_failed (do run_verification c; rest))).1) e,
  )
  after_deployment (w, o) rest (inr (e, inl s)) = inl (
    s,
    ap (λ p. bind_result (w, p) (λ _. unless_failed (do run_verification c; rest))) e
        ∙ unless_failed_stops w (do run_verification c; rest) s,
  )
  after_deployment (w, o) rest (inr (e, inr (inl s))) = inr (
      goes_on w o rest e (λ f. let wrong : testing ≡ failed = sym s ∙ f in cc)
        (λ f. let wrong : testing ≡ deploying = sym s ∙ f in cc))
  after_deployment (w, o) rest (inr (e, inr (inr s))) = inr (
      goes_on w o rest e (λ f. let wrong : verifying ≡ failed = sym s ∙ f in cc)
        (λ f. let wrong : verifying ≡ deploying = sym s ∙ f in cc))

  -- No story that comes to its deployment in `testing` is delivered, as the workflow goes on from
  -- there. If the deployment fails the story, as when a gate blocks it or the deployer fails, the
  -- workflow returns early. In all other cases it raises, that of a deployment that succeeds
  -- included: the gate is unknown, or the verification begins with a move that is refused. The
  -- deployer and the callbacks are to leave the story's state and identity alone.
  pub deliver-IsUndelivered :
      (w : World)
      → w.story.state ≡ testing
      → MaybeKeeps c.deployer
      → IsUndelivered (run_deployment c w).0 (deliver c w)
  unfolding deliver
  deliver-IsUndelivered w h k =
      after_deployment (run_deployment c w)
        (do over ← story_state_is failed; when (not over) (complete c); pure false)
        (run_deployment-IsDeployed w h k)

-- The deployer has no part in what is done with a gate that does not pass.
undeployed :
    (c : Context) (other : Option Component) (status : GateStatus) (w : World)
    → status ≢ pass
    → run_deployment_with c status w ≡ run_deployment_with (record c { deployer = other }) status w
unfolding run_deployment_with transition
undeployed c other pending w n = refl
undeployed c other blocked w n = refl
undeployed c other pass w n = elim (n refl) [ ]

-- When the gate `pre_deploy` does not pass, the deployer is not run: another deployer, or
-- none, would give the same result.
pub run_deployment_unapproved :
    (c : Context) (w : World) (other : Option Component) (g : ApprovalGateManager) (r : GateResult)
    → Approval.check_gate (c.clock w.ticks) w.gates "pre_deploy" w.story.id ≡ some (g, r)
    → r.status ≢ pass
    → run_deployment c w ≡ run_deployment (record c { deployer = other }) w
unfolding run_deployment check_gate
run_deployment_unapproved c w other g r said n =
    rw said (undeployed c other r.status (record w { gates = g; ticks = w.ticks + 1 }) n)
