-- ===== src/Orchestrator/Ends.antt =====
-- Rules for what holds when an action of the orchestrator returns.
use fastcoder.Base.{String, ◌≡◌, refl, subst, ap, Bool, true, false, if◌then◌else◌}
use fastcoder.Story.{StoryState, failed, Story}
use fastcoder.StateMachine.Diagram.{KeepsStory, dec_⟶}
use fastcoder.Orchestrator.{
  Result, ok, raised, Exn, value_error, World, M, bind_result, catch_result, ◌>>=◌, try, Context,
  transition, emit_event,
}
use fastcoder.Orchestrator.Stages.{Flow, proceed, returned, finish, fail}
use fastcoder.Orchestrator.Keeps.{transition_accepts, transition_refuses}

-- What holds of the world and the value if an action returns; an action may raise.
pub record Ends {A : Type 0} (Q : World → A → Type 0) (x : World × Result A) : Type 0 where
  pub holds : (a : A) → x.1 ≡ ok a → Q x.0 a

pub Ends-ok : {A : Type 0} (Q : World → A → Type 0) (w : World) (a : A) → Q w a → Ends Q (w, ok a)
Ends-ok {A} Q w a h = record { holds = λ b e. subst (Q w) (ok_injective a b e) h }
  where
    value : A → Result A → A
    value d (ok x) = x
    value d (raised y) = d

    ok_injective : (x y : A) → ok x ≡ ok y → x ≡ y
    ok_injective x y e = ap (value x) e

pub Ends-raised : {A : Type 0} (Q : World → A → Type 0) (w : World) (e : Exn) → Ends Q (w, raised e)
Ends-raised Q w e = record { holds = λ b q. cc }

pub Ends-bind :
    {A B : Type 0} (P : World → A → Type 0) (Q : World → B → Type 0) (x : World × Result A)
    (f : A → M B)
    → Ends P x
    → ((w : World) (a : A) → P w a → Ends Q (f a w))
    → Ends Q (bind_result x f)
Ends-bind P Q (w, ok a) f h k = k w a (h.holds a refl)
Ends-bind P Q (w, raised e) f h k = Ends-raised Q w e

-- Of the body only what holds if it returns is known, and of the handler what it always does.
pub Ends-try :
    {A : Type 0} (Q : World → A → Type 0) (x : World × Result A) (handler : M A)
    → Ends Q x
    → ((w : World) → Ends Q (handler w))
    → Ends Q (catch_result x handler)
Ends-try Q (w, ok a) handler h k = h
Ends-try Q (w, raised e) handler h k = k w

pub Ends-if :
    {A : Type 0} (Q : World → A → Type 0) (b : Bool) (m n : M A) (w : World)
    → (b ≡ true → Ends Q (m w))
    → (b ≡ false → Ends Q (n w))
    → Ends Q ((if b then m else n) w)
Ends-if Q true m n w f g = f refl
Ends-if Q false m n w f g = g refl

-- After an action of which nothing is known.
pub Ends-after :
    {A B : Type 0} (Q : World → B → Type 0) (x : World × Result A) (f : A → M B)
    → ((w : World) (a : A) → Ends Q (f a w))
    → Ends Q (bind_result x f)
Ends-after Q (w, ok a) f k = k w a
Ends-after Q (w, raised e) f k = Ends-raised Q w e

abbrev pub In : {A : Type 0} → StoryState → World → A → Type 0
In state w a = w.story.state ≡ state

pub transition-Ends :
    (c : Context)
    → KeepsStory c.call
    → (w : World) (target : StoryState) (reason : String)
    → Ends (In target) (transition c target reason w)
transition-Ends c keeps w target reason = elim (dec_⟶ w.story.state target) [
  | yes e ↦
      let (w', ran, at, aside) = transition_accepts c keeps w target reason e in
      rw ran (Ends-ok (In target) w' tt at)
  | no n ↦ rw (transition_refuses c w target reason n) (Ends-raised (In target) _ value_error)
]

module _ (c : Context) (keeps : KeepsStory c.call) where
  -- An action that begins with a transition, of the target state.
  pub Ends-transition :
      {B : Type 0} (Q : World → B → Type 0) (target : StoryState) (reason : String) (w : World)
      (f : Unit {0} → M B)
      → ((w' : World) → w'.story.state ≡ target → Ends Q (f tt w'))
      → Ends Q (bind_result (transition c target reason w) f)
  Ends-transition Q target reason w f k =
      Ends-bind (In target) Q (transition c target reason w) f
        (transition-Ends c keeps w target reason) (λ w' a h. k w' h)

  pub emit_event-Ends :
      (P : Story → Type 0) (w : World) → P w.story → Ends (λ w' u. P w'.story) (emit_event w)
  unfolding emit_event
  emit_event-Ends P w h = Ends-ok _ _ tt h

  pub fail-Ends : (w : World) (reason : String) → Ends (In {A = Flow} failed) (fail c reason w)
  unfolding fail
  fail-Ends w reason =
      Ends-transition (In failed) failed reason w _ (λ w' h. Ends-ok (In failed) w' proceed h)

  pub finish-Ends :
      (P : Story → Type 0) (flow : Flow) (w : World)
      → P w.story
      → Ends (λ w' u. P w'.story) (finish flow w)
  unfolding finish
  finish-Ends P proceed w h = Ends-ok _ _ tt h
  finish-Ends P returned w h = Ends-ok _ _ tt h

  -- The `try` of a stage whose handler fails the story, and its last statement.
  pub Ends-stage :
      (P : Story → Type 0) (body : M Flow) (reason : String) (w : World)
      → ((s : Story) → s.state ≡ failed → P s)
      → Ends (λ w' f. P w'.story) (body w)
      → Ends (λ w' u. P w'.story) ((do flow ← try body (fail c reason); finish flow) w)
  Ends-stage P body reason w over h =
      Ends-bind (λ w' f. P w'.story) _ (try body (fail c reason) w) finish
        (Ends-try _ (body w) (fail c reason) h
          (λ w₁. record { holds = λ a e. over _ ((fail-Ends w₁ reason).holds a e) }))
        (λ w₁ flow k. finish-Ends P flow w₁ k)
