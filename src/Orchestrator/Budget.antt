-- ===== src/Orchestrator/Budget.antt =====
-- The cost budget in `_run_coding` of orchestrator/__init__.py.
use fastcoder.Base.{
  ℕ, ◌+◌, ◌<◌, ◌≡◌, refl, sym, subst, ◌∙◌, ◌⊎◌, inl, inr, Bool, true, false, Option, none, arith,
  ltb, if◌then◌else◌,
}
use fastcoder.Story.{coding, failed, Story, ErrorContext}
use fastcoder.StateMachine.Diagram.{◌⟶◌, fail_coding, KeepsStory}
use fastcoder.Orchestrator.{
  Result, ok, raised, Exn, World, bind_result, catch_result, ◌>>=◌, ◌>>◌, pure, try, Context,
  transition, component, emit_event, when, get_story,
}
use fastcoder.Orchestrator.Stages.{
  Flow, proceed, returned, state_is, run_coding, coding_body, retry_context,
  enrich_context_for_retry, check_cost_budget, given_context, given, last_error, count_stage,
  finish, fail,
}
use fastcoder.Orchestrator.Keeps.{MaybeKeeps, transition_accepts, component_keeps}
use fastcoder.Orchestrator.Outcomes.{emitted}

module _ (c : Context) (keeps : KeepsStory c.call) where
  -- The parts that the coding stage calls leave the story's state and identity alone.
  pub record Leaves : Type 0 where
    pub generator : (e : Option ErrorContext) → MaybeKeeps (given_context c.generator e)
    pub context_manager : (n : ℕ) → MaybeKeeps (given c.context_manager n)

  -- How the body of the stage ends: it fails the story, or leaves it in `coding`, and a story that it
  -- goes on with is funded.
  data Ended : World × Result Flow → Type 0 where
    over_budget : (w : World) → w.story.state ≡ failed → Ended (w, ok returned)
    in_budget :
        (w : World)
        → w.story.state ≡ coding
        → w.story.metadata.total_cost_usd < w.story.cost_budget_usd
        → Ended (w, ok proceed)
    broken : (w : World) (e : Exn) → w.story.state ≡ coding → Ended (w, raised e)

  retry_context_lem :
      (n : ℕ) (w : World)
      → Leaves
      → (w' : World) × (e : Option ErrorContext) × (retry_context c n w ≡ (w', ok e))
        × (w'.story.state ≡ w.story.state)
  unfolding retry_context enrich_context_for_retry
  retry_context_lem n w k = by_number (ltb 1 n)
    where
      w₁ : World
      w₁ = (component (given c.context_manager n) w).0

      enriched : (r : Result (Unit {0})) → catch_result (w₁, r) (pure tt) ≡ (w₁, ok tt)
      enriched (ok u) = refl
      enriched (raised e) = refl

      by_number :
          (b : Bool)
          → (w' : World) × (e : Option ErrorContext) × ((if b
                  then (do
                    try (component (given c.context_manager n)) (pure tt)
                    s ← get_story
                    pure (last_error s.iterations))
                  else pure none)
                w
              ≡ (w', ok e))
            × (w'.story.state ≡ w.story.state)
      by_number false = (w, none, refl, refl)
      by_number true = (
        w₁,
        last_error w₁.story.iterations,
        rw (enriched (component (given c.context_manager n) w).1) refl,
        (component_keeps (given c.context_manager n) w (k.context_manager n)).0,
      )

  charged :
      (w : World)
      → w.story.state ≡ coding
      → Ended (
          (if check_cost_budget w.story
              then (do transition c failed "Cost budget exceeded"; pure returned)
              else pure proceed)
            w)
  charged w h = by_budget (check_cost_budget w.story) refl
    where
      by_budget :
          (b : Bool)
          → check_cost_budget w.story ≡ b
          → Ended (
              (if b
                  then (do transition c failed "Cost budget exceeded"; pure returned)
                  else pure proceed)
                w)
      by_budget true e =
          let (w', ran, at, aside) =
            transition_accepts c keeps w failed "Cost budget exceeded"
              (subst (λ s. s ⟶ failed) (sym h) fail_coding) in
          rw ran (over_budget w' at)
      by_budget false e = in_budget w h (unfold check_cost_budget in ground (arith, e))

  coding_body-Ended : (w : World) → w.story.state ≡ coding → Leaves → Ended (coding_body c w)
  unfolding coding_body
  coding_body-Ended w h k =
      let (w₁, error, ran, same) =
        retry_context_lem (count_stage "coding" w.story.iterations + 1) w k in
      rw ran (generated w₁ error (same ∙ h))
    where
      generated :
          (w₁ : World) (error : Option ErrorContext)
          → w₁.story.state ≡ coding
          → Ended (
              bind_result (component (given_context c.generator error) w₁) (λ u. do
                s ← get_story
                if check_cost_budget s
                    then (do transition c failed "Cost budget exceeded"; pure returned)
                    else pure proceed))
      generated w₁ error h₁ =
          by_result (component (given_context c.generator error) w₁)
            ((component_keeps (given_context c.generator error) w₁ (k.generator error)).0 ∙ h₁)
        where
          by_result :
              (x : World × Result (Unit {0}))
              → x.0.story.state ≡ coding
              → Ended (
                  bind_result x (λ u. do
                    s ← get_story
                    if check_cost_budget s
                        then (do transition c failed "Cost budget exceeded"; pure returned)
                        else pure proceed))
          by_result (w₂, ok u) h₂ = charged w₂ h₂
          by_result (w₂, raised e) h₂ = broken w₂ e h₂

  finished :
      (x : World × Result Flow)
      → Ended x
      → (w' : World) × (bind_result (catch_result x (fail c "Code generation failed")) finish
          ≡ (w', ok tt))
        × ((w'.story.state ≡ failed)
            ⊎ ((w'.story.state ≡ coding)
                × (w'.story.metadata.total_cost_usd < w'.story.cost_budget_usd)))
  unfolding fail finish emit_event
  finished _ (over_budget w h) = (w, refl, inl h)
  finished _ (in_budget w h paid) = (emitted w, refl, inr (h, paid))
  finished _ (broken w e h) =
      let (w', ran, at, aside) =
        transition_accepts c keeps w failed "Code generation failed"
          (subst (λ s. s ⟶ failed) (sym h) fail_coding) in
      (emitted w', rw ran refl, inl at)

  -- The coding stage of a story in `coding` returns, and then the story has failed, or is still in
  -- `coding` and has spent less than its budget: one that has spent all of it goes on to no review.
  -- The generator, the context manager and the callbacks are to leave the story's state and identity
  -- alone, and may raise.
  pub run_coding_within_budget :
      (w : World)
      → w.story.state ≡ coding
      → Leaves
      → (w' : World) × (run_coding c w ≡ (w', ok tt))
        × ((w'.story.state ≡ failed)
            ⊎ ((w'.story.state ≡ coding)
                × (w'.story.metadata.total_cost_usd < w'.story.cost_budget_usd)))
  unfolding run_coding emit_event when
  run_coding_within_budget w h k =
      let (w', ran, good) =
        finished (coding_body c (emitted w)) (coding_body-Ended (emitted w) h k) in
      (w', rw (in_coding w.story h) ran, good)
    where
      in_coding : (s : Story) → s.state ≡ coding → state_is coding s ≡ true
      in_coding s e = ground arith
