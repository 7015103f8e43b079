-- ===== src/StateMachine/History.antt =====
-- The history that `transition` keeps in state_machine.py, over runs of requests.
use fastcoder.Base.{
  ℕ, ◌+◌, ◌≤◌, ◌<◌, String, ◌≡◌, refl, sym, subst, ◌∙◌, ◌≢◌, List, [], ◌∷◌, ◌++◌, arith, ite,
  string_discrete,
}
use fastcoder.Base.Dict.{get-put}
use fastcoder.Story.{
  StoryState, StoryState-discrete, received, analyzing, planning, coding, reviewing, testing,
  deploying, verifying, done, failed, Story,
}
use fastcoder.StateMachine.{
  StateMachine, Behaviour, StateTransition, get_history, move, track, transition, new,
}
use fastcoder.StateMachine.Diagram.{
  ◌⟶◌, accept, KeepsStory, run_callbacks_keep, transition_accepted, transition_refused, dec_⟶,
}
use mathlib.Core.List.Memᴰ
use mathlib.Core.List.{Memᴰ}

-- The entries lead from one state to the next along edges of the diagram.
pub data Chain : StoryState → List StateTransition → StoryState → Type 0 where
  start : {s : StoryState} → Chain s [] s
  step :
      {r s u : StoryState} {h : List StateTransition} (t : StateTransition)
      → Chain r h s
      → t.from_state ≡ s
      → t.to_state ≡ u
      → s ⟶ u
      → Chain r (h ++ t ∷ []) u

get_history-track :
    (m : StateMachine) (i j : String) (t : StateTransition)
    → get_history (track m i t) j
      ≡ ite (string_discrete i j) (get_history m i ++ t ∷ []) (get_history m j)
unfolding get_history track
get_history-track m i j t = simp get-put (ground arith)

-- What the machine remembers of a story ends in the state that the story is in.
pub Tracks : StateMachine → Story → Type 0
Tracks m s = Chain received (get_history m s.id) s.state

get_history-track_self :
    (m : StateMachine) (i : String) (t : StateTransition)
    → get_history (track m i t) i ≡ get_history m i ++ t ∷ []
get_history-track_self m i t = rw get_history-track (ground arith)

new-Tracks : (s : Story) → s.state ≡ received → Tracks new s
unfolding Tracks new get_history
new-Tracks s h = rw h start

module _ (call : Behaviour) (keeps : KeepsStory call) where
  -- An accepted transition adds itself to the story's history.
  accepted-Tracks :
      (now : ℕ) (m : StateMachine) (s : Story) (target : StoryState) (reason : String)
      → Tracks m s
      → s.state ⟶ target
      → let (m', s', e) = transition call now m s target reason in Tracks m' s' × (s'.id ≡ s.id)
  unfolding Tracks
  accepted-Tracks now m s target reason h e =
      rw (transition_accepted call now m s target reason e) (
        let t : StateTransition = record {
          from_state = s.state;
          to_state = target;
          timestamp = now;
          reason = reason;
        } in
        let (ks, ki) = run_callbacks_keep call keeps m.callbacks (move target now s) t in
        (rw (ki, ks, get_history-track_self m s.id t) (step t h refl refl e), ki))

  pub transition-Tracks :
      (now : ℕ) (m : StateMachine) (s : Story) (target : StoryState) (reason : String)
      → Tracks m s
      → let (m', s', e) = transition call now m s target reason in Tracks m' s' × (s'.id ≡ s.id)
  transition-Tracks now m s target reason h = elim (dec_⟶ s.state target) [
    | yes e ↦ accepted-Tracks now m s target reason h e
    | no n ↦ rw (transition_refused call now m s target reason n) (h, refl)
  ]

-- A request to `transition`.
pub record Request : Type 0 where
  pub now : ℕ
  pub target : StoryState
  pub reason : String

unfoldable pub run : Behaviour → List Request → StateMachine → Story → StateMachine × Story
run call [] m s = (m, s)
run call (r ∷ rs) m s =
    let (m', s', e) = transition call r.now m s r.target r.reason in run call rs m' s'

run-Tracks :
    (call : Behaviour)
    → KeepsStory call
    → (rs : List Request) (m : StateMachine) (s : Story) → Tracks m s
    → let (m', s') = run call rs m s in Tracks m' s' × (s'.id ≡ s.id)
unfolding run
run-Tracks call keeps [] m s h = (h, refl)
run-Tracks call keeps (r ∷ rs) m s h =
    let (m', s', e) = transition call r.now m s r.target r.reason in
    let (h', i) = transition-Tracks call keeps r.now m s r.target r.reason h in
    let (h'', i') = run-Tracks call keeps rs m' s' h' in (h'', i' ∙ i)

-- After any requests, refused ones included, the history of a new story leads from `received`,
-- edge by edge, to the state that the story is in, if the callbacks leave its state and identity
-- alone.
pub run-new-Chain :
    (call : Behaviour)
    → KeepsStory call
    → (rs : List Request) (s : Story) → s.state ≡ received
    → let (m', s') = run call rs new s in Chain received (get_history m' s.id) s'.state
unfolding Tracks
run-new-Chain call keeps rs s h =
    let (t, i) = run-Tracks call keeps rs new s (new-Tracks s h) in
    let (m', s') = run call rs new s in subst (λ j. Chain received (get_history m' j) s'.state) i t

-- How far along the pipeline a state stands.
rank : StoryState → ℕ
rank received = 0
rank analyzing = 1
rank planning = 2
rank coding = 3
rank reviewing = 4
rank testing = 5
rank deploying = 6
rank verifying = 7
rank done = 8
rank failed = 0

rank_step : {s t : StoryState} → s ⟶ t → rank t ≤ rank s + 1
unfolding rank
rank_step accept = omega arith
rank_step _ = omega arith

rank_injective : {s t u : StoryState} → s ⟶ t → u ≢ failed → rank u ≡ rank s → u ≡ s
unfolding rank
rank_injective accept h e = ground arith
rank_injective _ h e = ground arith

passes :
    (s : StoryState) {u : StoryState} {h : List StateTransition}
    → s ≢ failed
    → Chain received h u
    → rank s < rank u
    → (t : StateTransition) × Memᴰ t h × (t.from_state ≡ s)
passes s n start below = absurd (unfold rank in omega arith)
passes s n (step {s = m} {h = h} t c from to e) below = elim (StoryState-discrete s m) [
  | yes here ↦ (t, Memᴰ.append_right h (Memᴰ.head refl), from ∙ sym here)
  | no away ↦
      let apart : rank s ≢ rank m = λ same. away (rank_injective e n same) in
      let (found, mem, eq) = passes s n c (omega (arith, rank_step e, apart)) in
      (found, Memᴰ.append_left (t ∷ []) mem, eq)
]

-- A story whose history leads to `done` has left each state but `done` and `failed` on the way: no
-- stage of the pipeline can be skipped.
pub done_needs_every_stage :
    (s : StoryState) {h : List StateTransition}
    → s ≢ done
    → s ≢ failed
    → Chain received h done
    → (t : StateTransition) × Memᴰ t h × (t.from_state ≡ s)
done_needs_every_stage s d f c = passes s f c (below s d f)
  where
    below : (s : StoryState) → s ≢ done → s ≢ failed → rank s < rank done
    below received d f = unfold rank in omega arith
    below done d f = absurd (d refl)
    below failed d f = absurd (f refl)
    below _ d f = unfold rank in omega arith
