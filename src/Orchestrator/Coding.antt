-- ===== src/Orchestrator/Coding.antt =====
-- The coding loop of orchestrator/__init__.py as a whole, by rounds.
use fastcoder.Base.{ℕ, zero, suc, ◌+◌, ◌-◌, ◌≡◌, refl, subst, ◌≢◌, ◌⊎◌, inl, inr, arith, length}
use fastcoder.Story.{testing, reviewing, planning, coding, failed, Story}
use fastcoder.StateMachine.Diagram.{◌⟶◌, KeepsStory}
use fastcoder.Convergence.{ConvergenceResult, Status, Action, progressing, escalate, replan}
use fastcoder.Orchestrator.{
  Exn, Result, ok, raised, value_error, World, M, ◌>>◌, pure, Context, transition, component,
  emit_event,
}
use fastcoder.Orchestrator.Stages.{
  proceed, returned, state_is, run_coding, run_review, review_body, run_testing, run_planning,
  last_review, is_blocked,
}
use fastcoder.Orchestrator.Lifecycle.{
  Round, give_up, again, success, round, attempt, act_on, give_up_if_failed, again_if_coding,
  exceeded, go_on, coding_loop, run_coding_loop,
}
use fastcoder.Orchestrator.Keeps.{transition_refuses}
use fastcoder.Orchestrator.Failure.{run_planning-planning_raises}
use fastcoder.Orchestrator.Ends.{
  Ends, Ends-ok, Ends-raised, Ends-bind, Ends-if, Ends-after, In, Ends-transition, emit_event-Ends,
  Ends-stage,
}

module _ (c : Context) (keeps : KeepsStory c.call) where
  -- A review that returns sends the story back, on to the tests, or fails it.
  abbrev AfterReview : Story → Type 0
  AfterReview s = (s.state ≡ coding) ⊎ ((s.state ≡ testing) ⊎ (s.state ≡ failed))

  review_body-Ends : (w : World) → Ends (λ w' f. AfterReview w'.story) (review_body c w)
  unfolding review_body
  review_body-Ends w = Ends-after _ (component c.reviewer w) _ λ w₁ _.
      Ends-if _ (is_blocked (last_review w₁.story.iterations)) _ _ w₁
        (λ _. Ends-transition c keeps _ coding _ w₁ _ (λ w₂ h.
          Ends-bind (λ w' u. AfterReview w'.story) _ (emit_event w₂) _
            (emit_event-Ends c keeps AfterReview w₂ (inl h)) (λ w₃ u k. Ends-ok _ w₃ returned k)))
        (λ _. Ends-transition c keeps _ testing _ w₁ _ (λ w₂ h. Ends-ok _ w₂ proceed (inr (inl h))))

  run_review-Ends : (w : World) → Ends (λ w' u. AfterReview w'.story) (run_review c w)
  unfolding run_review
  run_review-Ends w = Ends-after _ (transition c reviewing "Iteration" w) _ λ w₁ _.
      Ends-after _ (emit_event w₁) _ λ w₂ _.
        Ends-stage c keeps AfterReview (review_body c) "Code review failed" w₂ (λ s h. inr (inr h))
          (review_body-Ends w₂)

  -- The tests of a story that the review has passed on do not begin: it is in `testing` already.
  pub run_testing-testing_raises :
      (w : World)
      → w.story.state ≡ testing
      → run_testing c w ≡ (record w { ticks = w.ticks + 1 }, raised value_error)
  unfolding run_testing
  run_testing-testing_raises w h =
      rw
        (transition_refuses c w testing "Iteration"
          (λ e. not_testing_again (subst (λ s. s ⟶ testing) h e)))
        refl
    where
      not_testing_again : ¬ (testing ⟶ testing)
      not_testing_again e = elim e [ ]

  -- A round that returns has failed the story, or goes on to the next.
  abbrev AfterRound : World → Round → Type 0
  AfterRound w r = ((r ≡ give_up) × (w.story.state ≡ failed)) ⊎ (r ≡ again)

  give_up_if_failed-Ends :
      (rest : M Round) (w : World)
      → (w.story.state ≢ failed → Ends AfterRound (rest w))
      → Ends AfterRound (give_up_if_failed rest w)
  unfolding give_up_if_failed
  give_up_if_failed-Ends rest w h =
      Ends-if AfterRound (state_is failed w.story) (pure give_up) rest w
        (λ e. Ends-ok AfterRound w give_up (inl (refl, ground arith))) (λ e. h (ground arith))

  again_if_coding-Ends :
      (rest : M Round) (w : World)
      → (w.story.state ≢ coding → Ends AfterRound (rest w))
      → Ends AfterRound (again_if_coding rest w)
  unfolding again_if_coding
  again_if_coding-Ends rest w h =
      Ends-if AfterRound (state_is coding w.story) (do emit_event; pure again) rest w
        (λ e.
          Ends-after AfterRound (emit_event w) _ (λ w' a. Ends-ok AfterRound w' again (inr refl)))
        (λ e. h (ground arith))

  attempt-Ends : (w : World) → Ends AfterRound (attempt c w)
  unfolding attempt
  attempt-Ends w = Ends-after AfterRound (run_coding c w) _ λ w₁ _. give_up_if_failed-Ends _ w₁ λ _.
      Ends-bind (λ w' u. AfterReview w'.story) AfterRound (run_review c w₁) _ (run_review-Ends w₁)
        λ w₂ _ after. give_up_if_failed-Ends _ w₂ λ not_failed.
          again_if_coding-Ends _ w₂ λ not_coding.
            rw (run_testing-testing_raises w₂ (ground arith)) (Ends-raised AfterRound _ value_error)

  -- Replanning from the loop raises: at the transition to `planning`, or at the next one, to the
  -- same state.
  replan-Ends :
      (w : World)
      → Ends AfterRound (
          (do
            transition c planning "Replanning due to lack of progress"
            emit_event
            run_planning c
            pure give_up)
            w)
  replan-Ends w = Ends-transition c keeps AfterRound planning _ w _ λ w₁ h.
      Ends-bind (λ w' u. w'.story.state ≡ planning) AfterRound (emit_event w₁) _
        (emit_event-Ends c keeps (λ s. s.state ≡ planning) w₁ h)
        λ w₂ _ k. rw (run_planning-planning_raises c w₂ k) (Ends-raised AfterRound _ value_error)

  escalate-Ends :
      (w : World)
      → Ends AfterRound ((do transition c failed "Convergence issue"; emit_event; pure give_up) w)
  escalate-Ends w = Ends-transition c keeps AfterRound failed _ w _ λ w₁ h.
      Ends-bind (λ w' u. w'.story.state ≡ failed) AfterRound (emit_event w₁) _
        (emit_event-Ends c keeps (λ s. s.state ≡ failed) w₁ h)
        λ w₂ _ k. Ends-ok AfterRound w₂ give_up (inl (refl, k))

  act_on-Ends :
      (r : ConvergenceResult) (rest : M Round) (w : World)
      → Ends AfterRound (rest w)
      → Ends AfterRound (act_on c r rest w)
  act_on-Ends r rest w h = split r.status r.recommended_action refl refl
    where
      split :
          (s : Status) (a : Action)
          → r.status ≡ s
          → r.recommended_action ≡ a
          → Ends AfterRound (act_on c r rest w)
      split progressing a e f = unfold act_on in rw e h
      split _ escalate e f = unfold act_on in rw (e, f) (escalate-Ends w)
      split _ replan e f = unfold act_on in rw (e, f) (replan-Ends w)
      split _ _ e f = unfold act_on in rw (e, f) h

  round-Ends : (w : World) → Ends AfterRound (round c w)
  unfolding round
  round-Ends w = act_on-Ends _ (attempt c) w (attempt-Ends w)

  exceeded-Ends : (w : World) → Ends (In failed) (exceeded c w)
  unfolding exceeded
  exceeded-Ends w =
      Ends-transition c keeps (In failed) failed _ w _
        λ w₁ h. emit_event-Ends c keeps (λ s. s.state ≡ failed) w₁ h

  go_on-Ends :
      (next : M (Unit {0})) (r : Round) (w : World)
      → AfterRound w r
      → Ends (In failed) (next w)
      → Ends (In failed) (go_on next r w)
  unfolding go_on
  go_on-Ends next give_up w h k = Ends-ok (In failed) w tt (ground arith)
  go_on-Ends next again w h k = k
  go_on-Ends next success w h k = absurd (ground arith)

  coding_loop-Ends : (left : ℕ) (w : World) → Ends (In failed) (coding_loop c left w)
  unfolding coding_loop
  coding_loop-Ends zero w = exceeded-Ends w
  coding_loop-Ends (suc left) w =
      Ends-bind AfterRound (In failed) (round c w) _ (round-Ends w)
        (λ w₁ r h. go_on-Ends (coding_loop c left) r w₁ h (coding_loop-Ends left w₁))

  -- From any state, and whatever the components do, if the callbacks of the state machine leave the
  -- story's state and identity alone, the coding loop raises or fails the story: it never hands the
  -- story on to the deployment.
  pub run_coding_loop_fails :
      (w : World)
      → let (w', r) = run_coding_loop c w in
        ((e : Exn) × (r ≡ raised e)) ⊎ ((r ≡ ok tt) × (w'.story.state ≡ failed))
  unfolding run_coding_loop
  run_coding_loop_fails w =
      by_result (coding_loop c (c.max_iterations - length w.story.iterations) w)
        (coding_loop-Ends (c.max_iterations - length w.story.iterations) w)
    where
      by_result :
          (x : World × Result (Unit {0}))
          → Ends (In failed) x
          → ((e : Exn) × (x.1 ≡ raised e)) ⊎ ((x.1 ≡ ok tt) × (x.0.story.state ≡ failed))
      by_result (w', ok u) h = inr (refl, h.holds tt refl)
      by_result (w', raised e) h = inl (e, refl)
