-- ===== src/Orchestrator/Outcomes.antt =====
-- The shape that `_run_analysis`, `_run_planning` and `_run_deployment` share, and how it ends.
use fastcoder.Base.{
  String, ◌≡◌, refl, sym, subst, ◌∙◌, ◌⊎◌, inl, inr, List, [], ◌∷◌, ◌++◌, Option, arith,
}
use fastcoder.Story.{
  StoryState, received, testing, analyzing, planning, deploying, verifying, failed,
}
use fastcoder.StateMachine.Diagram
use fastcoder.StateMachine.Diagram.{
  ◌⟶◌, KeepsStory, accept, plan, verify, fail_analyzing, fail_deploying,
}
use fastcoder.Orchestrator.{
  Result, ok, raised, World, M, ◌>>◌, try, Component, Context, transition, component, emit_event,
}
use fastcoder.Orchestrator.Stages.{run_analysis}
use fastcoder.Orchestrator.Delivery.{deploy}
use mathlib.Core.List.{append_assoc}
use fastcoder.Orchestrator.Keeps.{MaybeKeeps, IsAside, transition_accepts, component_keeps}

-- From `w` to `w'` the story has come to a state, and these states have been shown.
pub record Shows (w w' : World) (final : StoryState) (shown : List StoryState) : Type 0 where
  pub state : w'.story.state ≡ final
  pub events : w'.events ≡ w.events ++ shown
  pub policy : w'.policy ≡ w.policy
  pub gates : w'.gates ≡ w.gates
  pub id : w'.story.id ≡ w.story.id

pub IsAside-trans : {w₁ w₂ w₃ : World} → IsAside w₁ w₂ → IsAside w₂ w₃ → IsAside w₁ w₃
IsAside-trans a b = record {
  events = b.events ∙ a.events;
  policy = b.policy ∙ a.policy;
  gates = b.gates ∙ a.gates;
  id = b.id ∙ a.id;
}

abbrev pub emitted : World → World
emitted w = record w { events = w.events ++ w.story.state ∷ [] }

Shows-two :
    {w w₁ w₂ : World} {first last : StoryState}
    → IsAside w w₁
    → w₁.story.state ≡ first
    → IsAside (emitted w₁) w₂
    → w₂.story.state ≡ last
    → Shows w (emitted w₂) last (first ∷ last ∷ [])
Shows-two {w} {first = first} {last = last} a f b l = record {
  state = l;
  events = ground (arith, a.events, b.events, append_assoc w.events (first ∷ []) (last ∷ []));
  policy = b.policy ∙ a.policy;
  gates = b.gates ∙ a.gates;
  id = b.id ∙ a.id;
}

either :
    {w w₁ w₂ : World} {here next : StoryState}
    → IsAside w w₁
    → w₁.story.state ≡ here
    → IsAside (emitted w₁) w₂
    → (w₂.story.state ≡ next) ⊎ (w₂.story.state ≡ failed)
    → Shows w (emitted w₂) next (here ∷ next ∷ [])
      ⊎ Shows w (emitted w₂) failed (here ∷ failed ∷ [])
either a f b (inl e) = inl (Shows-two a f b e)
either a f b (inr e) = inr (Shows-two a f b e)

stage :
    Context → Option Component → StoryState → StoryState → String → String → String → M (Unit {0})
stage c part here next r₁ r₂ r₃ = do
  transition c here r₁
  emit_event
  try (do component part; transition c next r₂) (transition c failed r₃)
  emit_event

module _ (c : Context) (keeps : KeepsStory c.call) where
  run_analysis-stage :
      (w : World)
      → run_analysis c w
        ≡ stage c c.analyzer analyzing planning "Starting analysis" "Analysis complete"
            "Analysis failed" w
  unfolding run_analysis stage
  run_analysis-stage w = refl

  deploy-stage :
      (w : World)
      → deploy c w
        ≡ stage c c.deployer deploying verifying "Starting deployment" "Deployment complete"
            "Deployment failed" w
  unfolding deploy stage
  deploy-stage w = refl

  -- The `try` of a stage ends in the next state, or in `failed`.
  stage_try :
      (part : Option Component) (here next : StoryState) (r₂ r₃ : String) (w : World)
      → w.story.state ≡ here
      → here ⟶ next
      → here ⟶ failed
      → MaybeKeeps part
      → (w' : World) × (try (do component part; transition c next r₂) (transition c failed r₃) w
          ≡ (w', ok tt))
        × IsAside w w'
        × ((w'.story.state ≡ next) ⊎ (w'.story.state ≡ failed))
  stage_try part here next r₂ r₃ w h onward fails k = split (component part w).1 refl
    where
      w₁ : World
      w₁ = (component part w).0

      kept : (w₁.story.state ≡ w.story.state) × IsAside w w₁
      kept = component_keeps part w k

      at : w₁.story.state ≡ here
      at = kept.0 ∙ h

      split :
          (r : Result (Unit {0}))
          → (component part w).1 ≡ r
          → (w' : World) × (try (do component part; transition c next r₂) (transition c failed r₃) w
              ≡ (w', ok tt))
            × IsAside w w'
            × ((w'.story.state ≡ next) ⊎ (w'.story.state ≡ failed))
      split (ok u) e =
          let ran : component part w ≡ (w₁, ok u) = λ i. (w₁, e i) in
          let (w₂, e₂, s₂, a₂) =
            transition_accepts c keeps w₁ next r₂ (subst (λ s. s ⟶ next) (sym at) onward) in
          (w₂, rw (ran, e₂) refl, IsAside-trans kept.1 a₂, inl s₂)
      split (raised x) e =
          let ran : component part w ≡ (w₁, raised x) = λ i. (w₁, e i) in
          let (w₂, e₂, s₂, a₂) =
            transition_accepts c keeps w₁ failed r₃ (subst (λ s. s ⟶ failed) (sym at) fails) in
          (w₂, rw (ran, e₂) refl, IsAside-trans kept.1 a₂, inr s₂)

  -- A stage shows the state that it begins in, and the one that it ends in.
  stage_lem :
      (part : Option Component) (here next : StoryState) (r₁ r₂ r₃ : String) (w : World)
      → w.story.state ⟶ here
      → here ⟶ next
      → here ⟶ failed
      → MaybeKeeps part
      → (w' : World) × (stage c part here next r₁ r₂ r₃ w ≡ (w', ok tt))
        × (Shows w w' next (here ∷ next ∷ []) ⊎ Shows w w' failed (here ∷ failed ∷ []))
  unfolding stage emit_event
  stage_lem part here next r₁ r₂ r₃ w begins onward fails k =
      let (w₁, e₁, s₁, a₁) = transition_accepts c keeps w here r₁ begins in
      let (w₂, e₂, a₂, s₂) = stage_try part here next r₂ r₃ (emitted w₁) s₁ onward fails k in
      (emitted w₂, rw (e₁, e₂) refl, either a₁ s₁ a₂ s₂)

  -- A story that is new is analyzed, and comes to `planning` or `failed`.
  pub run_analysis_lem :
      (w : World)
      → w.story.state ≡ received
      → MaybeKeeps c.analyzer
      → (w' : World) × (run_analysis c w ≡ (w', ok tt))
        × (Shows w w' planning (analyzing ∷ planning ∷ [])
            ⊎ Shows w w' failed (analyzing ∷ failed ∷ []))
  run_analysis_lem w h k =
      let (w', e, s) =
        stage_lem c.analyzer analyzing planning "Starting analysis" "Analysis complete"
          "Analysis failed" w (subst (λ s. s ⟶ analyzing) (sym h) accept) plan fail_analyzing k in
      (w', run_analysis-stage w ∙ e, s)

  pub deploy_lem :
      (w : World)
      → w.story.state ≡ testing
      → MaybeKeeps c.deployer
      → (w' : World) × (deploy c w ≡ (w', ok tt))
        × (Shows w w' verifying (deploying ∷ verifying ∷ [])
            ⊎ Shows w w' failed (deploying ∷ failed ∷ []))
  deploy_lem w h k =
      let (w', e, s) =
        stage_lem c.deployer deploying verifying "Starting deployment" "Deployment complete"
          "Deployment failed" w (subst (λ s. s ⟶ deploying) (sym h) Diagram.deploy) verify
          fail_deploying k in
      (w', deploy-stage w ∙ e, s)
