-- ===== src/Orchestrator/Keeps.antt =====
-- What a transition does to the world of the orchestrator, and what is asked of its components.
use fastcoder.Base.{◌+◌, String, ◌≡◌, refl, ap, ◌∙◌, Option, none, some}
use fastcoder.Story.{StoryState, Story}
use fastcoder.StateMachine
use fastcoder.StateMachine.{StateMachine, StateTransition, track, run_callbacks, move}
use fastcoder.StateMachine.Diagram.{
  ◌⟶◌, KeepsStory, run_callbacks_keep, transition_accepted, transition_refused,
}
use fastcoder.Orchestrator.{
  Result, ok, raised, value_error, World, Component, Context, transition, moved, component,
}

-- A component changes neither the story's state nor its identity, whether it raises or not.
pub record KeepsState (f : Component) : Type 0 where
  pub state : (s : Story) → (f s).0.state ≡ s.state
  pub id : (s : Story) → (f s).0.id ≡ s.id

abbrev pub MaybeKeeps : Option Component → Type 0
MaybeKeeps none = Unit
MaybeKeeps (some f) = KeepsState f

-- Two worlds that differ in the story and its history at most.
pub record IsAside (w w' : World) : Type 0 where
  pub events : w'.events ≡ w.events
  pub policy : w'.policy ≡ w.policy
  pub gates : w'.gates ≡ w.gates
  pub id : w'.story.id ≡ w.story.id

transition-moved :
    (c : Context) (w : World) (target : StoryState) (reason : String)
    → transition c target reason w
      ≡ moved w (StateMachine.transition c.call (c.clock w.ticks) w.machine w.story target reason)
unfolding transition
transition-moved c w target reason = refl

-- A refused transition raises, and leaves the story and its history as they were.
pub transition_refuses :
    (c : Context) (w : World) (target : StoryState) (reason : String)
    → ¬ (w.story.state ⟶ target)
    → transition c target reason w ≡ (record w { ticks = w.ticks + 1 }, raised value_error)
transition_refuses c w target reason n =
    rw
      (
        transition-moved,
        transition_refused c.call (c.clock w.ticks) w.machine w.story target reason n,
      )
      refl

module _ (c : Context) (keeps : KeepsStory c.call) where
  pub transition_accepts :
      (w : World) (target : StoryState) (reason : String)
      → w.story.state ⟶ target
      → (w' : World) × (transition c target reason w ≡ (w', ok tt))
        × (w'.story.state ≡ target)
        × IsAside w w'
  transition_accepts w target reason e = (
    result.0,
    transition-moved c w target reason ∙ ap (moved w) accepted,
    kept.0,
    record { events = refl; policy = refl; gates = refl; id = kept.1 },
  )
    where
      t : StateTransition
      t = record {
        from_state = w.story.state;
        to_state = target;
        timestamp = c.clock w.ticks;
        reason = reason;
      }

      after : StateMachine × Story × Option StateMachine.Error
      after = (
        track w.machine w.story.id t,
        run_callbacks c.call w.machine.callbacks (move target (c.clock w.ticks) w.story) t,
        none,
      )

      result : World × Result (Unit {0})
      result = moved w after

      accepted :
          StateMachine.transition c.call (c.clock w.ticks) w.machine w.story target reason ≡ after
      accepted = transition_accepted c.call (c.clock w.ticks) w.machine w.story target reason e

      kept : (after.1.state ≡ target) × (after.1.id ≡ w.story.id)
      kept =
          run_callbacks_keep c.call keeps w.machine.callbacks
            (move target (c.clock w.ticks) w.story) t

-- A component leaves all but the story, and of it the state and the identity.
pub component_keeps :
    (o : Option Component) (w : World)
    → MaybeKeeps o
    → ((component o w).0.story.state ≡ w.story.state) × IsAside w (component o w).0
unfolding component
component_keeps none w k = (refl, record { events = refl; policy = refl; gates = refl; id = refl })
component_keeps (some f) w k =
    (k.state w.story, record { events = refl; policy = refl; gates = refl; id = k.id w.story })
