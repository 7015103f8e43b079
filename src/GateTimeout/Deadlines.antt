-- ===== src/GateTimeout/Deadlines.antt =====
-- What `check_timeouts` of orchestrator/gate_timeout.py reports after any calls.
use fastcoder.Base.{
  ℕ, ◌+◌, ◌*◌, ◌≤◌, String, ◌≡◌, refl, ap, sym, subst, ◌∙◌, ◌↔◌, ⊎_elim, ite, ite_ind, Bool, true,
  false, List, [], ◌∷◌, Memᴰ, Option, none, some, arith, leb, leb→le, le→leb, if◌then◌else◌, if_ind,
  string_discrete,
}
use mathlib.Core.List.Memᴰ
use mathlib.Core.Option.{some-injective}
use fastcoder.Base.Dict
use fastcoder.Base.Dict.{
  Dict, get-put, get-remove, IsUnique, put-IsUnique, remove-IsUnique, get-eq-some_of_mem,
}
use fastcoder.Approval.{Key, Key-discrete, without_story}
use fastcoder.Approval.Decisions.{get-without_story}
use fastcoder.GateTimeout.{
  GateTimeout, GateTimeoutManager, is_expired, minutes_or, make_timeout, start_timeout,
  expired_among, check_timeouts, get_timeout, cancel_timeout, clear_story_timeouts,
}

pub data Op : Type 0 where
  starting : ℕ → Key → Option ℕ → Op
  cancelling : Key → Op
  clearing : String → Op

unfoldable pub apply : GateTimeoutManager → Op → GateTimeoutManager
unfolding start_timeout cancel_timeout clear_story_timeouts
apply m (starting now key minutes) = (start_timeout now key minutes m).0
apply m (cancelling key) = (cancel_timeout key m).0
apply m (clearing story_id) = (clear_story_timeouts story_id m).0

unfoldable pub run : GateTimeoutManager → List Op → GateTimeoutManager
unfolding apply
run m [] = m
run m (op ∷ ops) = run (apply m op) ops

-- The deadline of a gate, told by the calls alone.
abbrev pub deadline : ℕ → Key → Option ℕ → Op → Option ℕ
deadline default key o (starting now k minutes) =
    ite (Key-discrete k key) (some (now + minutes_or minutes default * 60000000)) o
deadline default key o (cancelling k) = ite (Key-discrete k key) none o
deadline default key o (clearing story_id) = ite (string_discrete key.0 story_id) none o

abbrev pub deadline_after : ℕ → Key → Option ℕ → List Op → Option ℕ
deadline_after default key o [] = o
deadline_after default key o (op ∷ ops) = deadline_after default key (deadline default key o op) ops

-- The deadline that is filed.
abbrev filed : Option GateTimeout → Option ℕ
filed none = none
filed (some t) = some t.timeout_at

filed-apply :
    (m : GateTimeoutManager) (op : Op) (key : Key)
    → filed (get_timeout key (apply m op))
      ≡ deadline m.default_timeout_minutes key (filed (get_timeout key m)) op
unfolding apply get_timeout start_timeout cancel_timeout clear_story_timeouts make_timeout
filed-apply m (starting now k minutes) key =
    ground (arith, get-put Key-discrete k key (make_timeout now k minutes m) m.timeouts)
filed-apply m (cancelling k) key = ground (arith, get-remove Key-discrete k key m.timeouts)
filed-apply m (clearing story_id) key = ground (arith, get-without_story story_id key m.timeouts)

default-apply :
    (m : GateTimeoutManager) (op : Op)
    → (apply m op).default_timeout_minutes ≡ m.default_timeout_minutes
unfolding apply start_timeout cancel_timeout clear_story_timeouts
default-apply m (starting now k minutes) = refl
default-apply m (cancelling k) = refl
default-apply m (clearing story_id) = refl

filed-run :
    (m : GateTimeoutManager) (ops : List Op) (key : Key)
    → filed (get_timeout key (run m ops))
      ≡ deadline_after m.default_timeout_minutes key (filed (get_timeout key m)) ops
unfolding run
filed-run m [] key = refl
filed-run m (op ∷ ops) key =
    filed-run (apply m op) ops key
    ∙ ap (λ d. deadline_after d key (filed (get_timeout key (apply m op))) ops) (default-apply m op)
    ∙ ap (λ o. deadline_after m.default_timeout_minutes key o ops) (filed-apply m op key)

without_story-IsUnique :
    {V : Type 0} (story_id : String) (d : Dict Key V)
    → IsUnique Key-discrete d
    → IsUnique Key-discrete (without_story story_id d)
unfolding without_story
without_story-IsUnique story_id [] u = tt
without_story-IsUnique story_id ((k, v) ∷ d) (fresh, u) =
    ite_ind (IsUnique Key-discrete) (string_discrete k.0 story_id)
      (λ _. without_story-IsUnique story_id d u)
      (λ n. (ground (arith, get-without_story story_id k d), without_story-IsUnique story_id d u))

apply-IsUnique :
    (m : GateTimeoutManager) (op : Op)
    → IsUnique Key-discrete m.timeouts
    → IsUnique Key-discrete (apply m op).timeouts
unfolding apply start_timeout cancel_timeout clear_story_timeouts
apply-IsUnique m (starting now k minutes) u = put-IsUnique Key-discrete k _ m.timeouts u
apply-IsUnique m (cancelling k) u = remove-IsUnique Key-discrete k m.timeouts u
apply-IsUnique m (clearing story_id) u = without_story-IsUnique story_id m.timeouts u

run-IsUnique :
    (m : GateTimeoutManager) (ops : List Op)
    → IsUnique Key-discrete m.timeouts
    → IsUnique Key-discrete (run m ops).timeouts
unfolding run
run-IsUnique m [] u = u
run-IsUnique m (op ∷ ops) u = run-IsUnique (apply m op) ops (apply-IsUnique m op u)

module _ (now : ℕ) (key : Key) where
  -- The gate's deadline is filed and has passed.
  abbrev IsDue : Option GateTimeout → Type 0
  IsDue none = ⊥
  IsDue (some t) = t.timeout_at ≤ now

  IsDue-later :
      (j : Key) (t : GateTimeout) (d : Dict Key GateTimeout)
      → Dict.get Key-discrete j d ≡ none
      → IsDue (Dict.get Key-discrete key d)
      → IsDue (ite (Key-discrete j key) (some t) (Dict.get Key-discrete key d))
  IsDue-later j t d fresh due =
      ite_ind IsDue (Key-discrete j key)
        (λ same.
          absurd
            (subst (λ o. IsDue o) (ap (λ k. Dict.get Key-discrete k d) (sym same) ∙ fresh) due))
        (λ _. due)

  IsDue-expired_among :
      (d : Dict Key GateTimeout)
      → IsUnique Key-discrete d
      → Memᴰ key (expired_among now d)
      → IsDue (Dict.get Key-discrete key d)
  unfolding expired_among Dict.get is_expired
  IsDue-expired_among [] u m = absurd (Memᴰ.not-nil m)
  IsDue-expired_among ((j, t) ∷ d) (fresh, u) m =
      by_test (leb t.timeout_at now) refl (IsDue-expired_among d u) m
    where
      by_test :
          (b : Bool)
          → leb t.timeout_at now ≡ b
          → (Memᴰ key (expired_among now d) → IsDue (Dict.get Key-discrete key d))
          → Memᴰ key (if b then j ∷ expired_among now d else expired_among now d)
          → IsDue (ite (Key-discrete j key) (some t) (Dict.get Key-discrete key d))
      by_test false e rest m = IsDue-later j t d fresh (rest m)
      by_test true e rest m =
          ⊎_elim
            (λ same.
              ite_ind IsDue (Key-discrete j key) (λ _. leb→le t.timeout_at now e)
                (λ n. absurd (n (sym same))))
            (λ i. IsDue-later j t d fresh (rest i)) (Memᴰ.cases_cons m)

  expired_among-due :
      (d : Dict Key GateTimeout)
      → IsDue (Dict.get Key-discrete key d)
      → Memᴰ key (expired_among now d)
  unfolding expired_among Dict.get is_expired
  expired_among-due [] due = absurd due
  expired_among-due ((j, t) ∷ d) due = by_key (Key-discrete j key) (expired_among-due d) due
    where
      by_key :
          (same : Dec (j ≡ key))
          → (IsDue (Dict.get Key-discrete key d) → Memᴰ key (expired_among now d))
          → IsDue (ite same (some t) (Dict.get Key-discrete key d))
          → Memᴰ key (if leb t.timeout_at now then j ∷ expired_among now d else expired_among now d)
      by_key (yes same) rest due =
          if_ind (Memᴰ key) (leb t.timeout_at now) (λ _. Memᴰ.head (sym same))
            (λ e. absurd (cc (sym e ∙ le→leb t.timeout_at now due)))
      by_key (no n) rest due =
          if_ind (Memᴰ key) (leb t.timeout_at now) (λ _. Memᴰ.tail (rest due)) (λ _. rest due)

  IsDue-iff : (o : Option GateTimeout) → IsDue o ↔ ((t : ℕ) × (filed o ≡ some t) × (t ≤ now))
  IsDue-iff none = (λ due. absurd due, λ (t, e, le). cc)
  IsDue-iff (some g) =
      (λ due. (g.timeout_at, refl, due), λ (t, e, le). omega (arith, some-injective _ _ e, le))

-- A manager that begins with no timeouts reports a gate at a time exactly if, going by the calls
-- alone, the gate has a deadline and the deadline has come: the last call on it was a start (a
-- timeout of 0 minutes counting as the default), not a cancellation nor a clearing of its story.
pub check_timeouts-run :
    (m : GateTimeoutManager) (ops : List Op) (now : ℕ) (key : Key)
    → m.timeouts ≡ []
    → Memᴰ key (check_timeouts now (run m ops))
      ↔ ((t : ℕ) × (deadline_after m.default_timeout_minutes key none ops ≡ some t) × (t ≤ now))
unfolding check_timeouts get_timeout Dict.get
check_timeouts-run m ops now key empty =
    let d = (run m ops).timeouts in
    let unique = run-IsUnique m ops (subst (IsUnique Key-discrete) (sym empty) tt) in
    let before = ap (λ e. filed (Dict.get Key-discrete key e)) empty in
    let same =
      filed-run m ops key ∙ ap (λ o. deadline_after m.default_timeout_minutes key o ops) before in
    let due = IsDue-iff now key (Dict.get Key-discrete key d) in
    (
      λ i. let (t, e, le) = due.0 (IsDue-expired_among now key d unique i) in (t, sym same ∙ e, le),
      λ (t, e, le). expired_among-due now key d (due.1 (t, same ∙ e, le)),
    )
