-- ===== src/Approval/Decisions.antt =====
-- The gates of approval_gate.py over any sequence of operations.
use fastcoder.Base.{
  ℕ, String, ◌≡◌, refl, ap, ◌∙◌, Bool, true, false, List, [], ◌∷◌, Option, none, some, arith, ite,
  elem, string_discrete,
}
use fastcoder.Base.Dict
use fastcoder.Base.Dict.{Dict, get-put, get-remove}
use fastcoder.Approval.{
  Key, Key-discrete, GateStatus, pass, pending, blocked, ApprovalDecision, GateResult,
  ApprovalGateManager, valid_gates, is_enabled, get_decision, check_gate, clear_pending, approve,
  reject, without_story, clear_all_for_story, new,
}
use mathlib.Core.Option

pub data Op : Type 0 where
  check : ℕ → Key → Op
  approval : ℕ → Key → String → String → Op
  rejection : ℕ → Key → String → String → Op
  clearing : Key → Op
  clearing_story : String → Op

abbrev pub manager_of :
    ApprovalGateManager → Option (ApprovalGateManager × GateResult) → ApprovalGateManager
manager_of m none = m
manager_of m (some (m', r)) = m'

unfoldable pub apply : ApprovalGateManager → Op → ApprovalGateManager
unfolding check_gate approve reject clear_pending clear_all_for_story
apply m (check now key) = manager_of m (check_gate now m key.1 key.0)
apply m (approval now key by comment) = approve now m key by comment
apply m (rejection now key reason by) = reject now m key reason by
apply m (clearing key) = clear_pending m key
apply m (clearing_story story_id) = clear_all_for_story m story_id

unfoldable pub run : ApprovalGateManager → List Op → ApprovalGateManager
unfolding apply
run m [] = m
run m (op ∷ ops) = run (apply m op) ops

pub get-without_story :
    {V : Type 0} (story_id : String) (key : Key) (d : List (Key × V))
    → Dict.get Key-discrete key (without_story story_id d)
      ≡ ite (string_discrete key.0 story_id) none (Dict.get Key-discrete key d)
unfolding Dict.get without_story
get-without_story story_id key [] = ground arith
get-without_story story_id key ((k, v) ∷ d) = ground (arith, get-without_story story_id key d)

-- What was last decided of a gate, if the story's decisions were not cleared since.
last_decision : Key → Option Bool → Op → Option Bool
last_decision key o (check now k) = o
last_decision key o (approval now k by comment) = ite (Key-discrete k key) (some true) o
last_decision key o (rejection now k reason by) = ite (Key-discrete k key) (some false) o
last_decision key o (clearing k) = o
last_decision key o (clearing_story story_id) = ite (string_discrete key.0 story_id) none o

unfoldable pub decided : Key → Option Bool → List Op → Option Bool
unfolding last_decision
decided key o [] = o
decided key o (op ∷ ops) = decided key (last_decision key o op) ops

outcome : ApprovalGateManager → Key → Option Bool
outcome m key = Option.map (λ (d : ApprovalDecision). d.approved) (get_decision m key)

outcome-apply :
    (m : ApprovalGateManager) (op : Op) (key : Key)
    → outcome (apply m op) key ≡ last_decision key (outcome m key) op
unfolding outcome apply last_decision
outcome-apply m (check now k) key = ground arith
outcome-apply m (approval now k by comment) key = rw get-put (ground arith)
outcome-apply m (rejection now k reason by) key = rw get-put (ground arith)
outcome-apply m (clearing k) key = refl
outcome-apply m (clearing_story story_id) key = rw get-without_story (ground arith)

gates-apply : (m : ApprovalGateManager) (op : Op) → (apply m op).approval_gates ≡ m.approval_gates
unfolding apply
gates-apply m (check now k) = ground arith
gates-apply m (approval now k by comment) = refl
gates-apply m (rejection now k reason by) = refl
gates-apply m (clearing k) = refl
gates-apply m (clearing_story story_id) = refl

gates-run :
    (ops : List Op) (m : ApprovalGateManager) → (run m ops).approval_gates ≡ m.approval_gates
unfolding run
gates-run [] m = refl
gates-run (op ∷ ops) m = gates-run ops (apply m op) ∙ gates-apply m op

outcome-run :
    (ops : List Op) (m : ApprovalGateManager) (key : Key)
    → outcome (run m ops) key ≡ decided key (outcome m key) ops
unfolding run decided
outcome-run [] m key = refl
outcome-run (op ∷ ops) m key =
    outcome-run ops (apply m op) key ∙ ap (λ o. decided key o ops) (outcome-apply m op key)

-- The status of a gate: it passes if it is disabled, and follows the decision if there is one.
abbrev pub verdict : Bool → Option Bool → GateStatus
verdict false _ = pass
verdict true (some true) = pass
verdict true (some false) = blocked
verdict true none = pending

abbrev pub status_of : Option (ApprovalGateManager × GateResult) → Option GateStatus
status_of none = none
status_of (some (m, r)) = some r.status

check_gate-verdict :
    (now : ℕ) (m : ApprovalGateManager) (key : Key)
    → elem string_discrete key.1 valid_gates ≡ true
    → status_of (check_gate now m key.1 key.0) ≡ some (verdict (is_enabled m key.1) (outcome m key))
unfolding check_gate outcome
check_gate-verdict now m key valid = rw valid (ground arith)

-- After any operations on any gates, checking a known gate gives the status that the last decision
-- on it calls for: it passes if the gate is disabled or was approved, is blocked if it was rejected,
-- and is pending if nothing was decided since the story was last cleared.
pub check_gate-run :
    (gates : Dict String Bool) (ops : List Op) (now : ℕ) (key : Key)
    → elem string_discrete key.1 valid_gates ≡ true
    → status_of (check_gate now (run (new gates) ops) key.1 key.0)
      ≡ some (verdict (is_enabled (new gates) key.1) (decided key none ops))
check_gate-run gates ops now key valid =
    let m = run (new gates) ops in
    let known : outcome m key ≡ decided key none ops =
      outcome-run ops (new gates) key
      ∙ ap (λ o. decided key o ops) (unfold outcome new get_decision Dict.get in refl) in
    let same : is_enabled m key.1 ≡ is_enabled (new gates) key.1 =
      unfold is_enabled in
      ap (λ (d : Dict String Bool). Option.get_or (Dict.get string_discrete key.1 d) false)
        (gates-run ops (new gates)) in
    rw (check_gate-verdict now m key valid, known, same) refl
