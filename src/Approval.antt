-- ===== src/Approval.antt =====
-- orchestrator/approval_gate.py: the gates that a story waits at. The messages and the metadata of
-- the results are left out; callbacks are known by a number, and `notified` records what they were
-- called with (they are given the pending approval alone, and their exceptions are swallowed).
pub mod Decisions
pub mod Checks
mod Examples
use fastcoder.Base.{
  ℕ, String, Bool, true, false, List, [], ◌∷◌, ◌++◌, Option, none, some, elem, remove_first,
  if◌then◌else◌, string_discrete, ℕ_discrete, ◌≡◌, ite, ◌||◌,
}
use fastcoder.Base.Dict
use fastcoder.Base.Dict.{Dict}
use mathlib.Core.Option.{get_or}

-- `(story_id, gate_name)`
abbrev pub Key : Type 0
Key = String × String

dec_pair : (j k : Key) → Dec (j.0 ≡ k.0) → Dec (j.1 ≡ k.1) → Dec (j ≡ k)
dec_pair j k (yes p) (yes q) = yes (λ i. (p i, q i))
dec_pair j k (no p) _ = no (λ e. p (λ i. (e i).0))
dec_pair j k (yes p) (no q) = no (λ e. q (λ i. (e i).1))

unfoldable pub Key-discrete : Discrete Key
unfolding dec_pair string_discrete
Key-discrete j k = dec_pair j k (string_discrete j.0 k.0) (string_discrete j.1 k.1)

pub data GateStatus : Type 0 where
  pass pending blocked : GateStatus

pub record PendingApproval : Type 0 where
  pub story_id : String
  pub gate_name : String
  pub requested_at : ℕ
  pub requested_by : String

pub record ApprovalDecision : Type 0 where
  pub story_id : String
  pub gate_name : String
  pub approved : Bool
  pub decided_at : ℕ
  pub decided_by : String
  pub comment : String

pub record GateResult : Type 0 where
  pub gate_name : String
  pub status : GateStatus
  pub required_approval : Bool

pub record ApprovalGateManager : Type 0 where
  pub approval_gates : Dict String Bool
  pub pending_approvals : Dict Key PendingApproval
  pub decisions : Dict Key ApprovalDecision
  pub callbacks : List ℕ
  pub notified : List (ℕ × PendingApproval)

abbrev pub valid_gates : List String
valid_gates =
    "pre_code" ∷ "pre_deploy" ∷ "pre_production" ∷ "budget_exceeded" ∷ "ambiguity_detected" ∷ []

-- The defaults of `SafetyConfig.approval_gates`.
abbrev pub default_gates : Dict String Bool
default_gates =
    ("pre_code", false)
    ∷ ("pre_deploy", true)
    ∷ ("pre_production", true)
    ∷ ("budget_exceeded", true)
    ∷ ("ambiguity_detected", true)
    ∷ []

unfoldable pub new : Dict String Bool → ApprovalGateManager
new gates = record {
  approval_gates = gates;
  pending_approvals = [];
  decisions = [];
  callbacks = [];
  notified = [];
}

unfoldable pub is_enabled : ApprovalGateManager → String → Bool
unfolding Dict.get string_discrete
is_enabled m gate_name = get_or (Dict.get string_discrete gate_name m.approval_gates) false

unfoldable pub get_decision : ApprovalGateManager → Key → Option ApprovalDecision
unfolding Dict.get Key-discrete
get_decision m key = Dict.get Key-discrete key m.decisions

unfoldable pub get_pending : ApprovalGateManager → Key → Option PendingApproval
unfolding Dict.get Key-discrete
get_pending m key = Dict.get Key-discrete key m.pending_approvals

abbrev pub gate_result : String → GateStatus → Bool → GateResult
gate_result gate_name status required = record {
  gate_name = gate_name;
  status = status;
  required_approval = required;
}

-- `for callback in self._callbacks: callback(pending)`
unfoldable pub notify : List ℕ → PendingApproval → List (ℕ × PendingApproval)
notify [] p = []
notify (c ∷ cs) p = (c, p) ∷ notify cs p

request : ℕ → ApprovalGateManager → Key → ApprovalGateManager
unfolding notify Dict.put Key-discrete
request now m key =
    let p : PendingApproval = record {
      story_id = key.0;
      gate_name = key.1;
      requested_at = now;
      requested_by = "orchestrator";
    } in
    record m {
      pending_approvals = Dict.put Key-discrete key p m.pending_approvals;
      notified = m.notified ++ notify m.callbacks p;
    }

-- The checks of an enabled gate: a decision comes first, then a pending approval.
consult :
    ℕ
    → ApprovalGateManager
    → Key
    → Option ApprovalDecision
    → Option PendingApproval
    → ApprovalGateManager × GateResult
unfolding request
consult now m key (some d) _ = (m, gate_result key.1 (if d.approved then pass else blocked) false)
consult now m key none (some p) = (m, gate_result key.1 pending true)
consult now m key none none = (request now m key, gate_result key.1 pending true)

-- `none` stands for the `ValueError` of an unknown gate.
unfoldable pub check_gate :
    ℕ → ApprovalGateManager → String → String → Option (ApprovalGateManager × GateResult)
unfolding elem is_enabled get_decision get_pending consult string_discrete
check_gate now m gate_name story_id =
    let key : Key = (story_id, gate_name) in
    if elem string_discrete gate_name valid_gates
    then (if is_enabled m gate_name
        then some (consult now m key (get_decision m key) (get_pending m key))
        else some (m, gate_result gate_name pass false))
    else none

unfoldable pub clear_pending : ApprovalGateManager → Key → ApprovalGateManager
unfolding Dict.remove Key-discrete
clear_pending m key = record m {
  pending_approvals = Dict.remove Key-discrete key m.pending_approvals;
}

unfoldable pub decide : ℕ → ApprovalGateManager → Key → Bool → String → String → ApprovalGateManager
unfolding clear_pending Dict.put
decide now m key approved decided_by comment =
    clear_pending
      (record m {
        decisions =
            Dict.put Key-discrete key
              (record {
                story_id = key.0;
                gate_name = key.1;
                approved = approved;
                decided_at = now;
                decided_by = decided_by;
                comment = comment;
              })
              m.decisions;
      })
      key

unfoldable pub approve : ℕ → ApprovalGateManager → Key → String → String → ApprovalGateManager
unfolding decide
approve now m key decided_by comment = decide now m key true decided_by comment

unfoldable pub reject : ℕ → ApprovalGateManager → Key → String → String → ApprovalGateManager
unfolding decide
reject now m key reason decided_by = decide now m key false decided_by reason

-- The entries whose key is of the story, and the dictionary without them.
unfoldable pub of_story : {V : Type 0} → String → List (Key × V) → List V
unfolding string_discrete
of_story story_id [] = []
of_story story_id ((k, v) ∷ d) =
    let rest = of_story story_id d in ite (string_discrete k.0 story_id) (v ∷ rest) rest

unfoldable pub without_story : {V : Type 0} → String → List (Key × V) → List (Key × V)
unfolding string_discrete
without_story story_id [] = []
without_story story_id ((k, v) ∷ d) =
    let rest = without_story story_id d in ite (string_discrete k.0 story_id) rest ((k, v) ∷ rest)

unfoldable pub get_pending_approvals : ApprovalGateManager → String → List PendingApproval
unfolding of_story
get_pending_approvals m story_id = of_story story_id m.pending_approvals

any_of_story : String → Dict Key PendingApproval → Bool
unfolding string_discrete
any_of_story story_id [] = false
any_of_story story_id ((k, p) ∷ d) =
    ite (string_discrete p.story_id story_id) true (any_of_story story_id d)

unfoldable pub has_pending_approvals : ApprovalGateManager → String → Bool
unfolding any_of_story
has_pending_approvals m story_id = any_of_story story_id m.pending_approvals

unfoldable pub register_callback : ApprovalGateManager → ℕ → ApprovalGateManager
register_callback m c = record m { callbacks = m.callbacks ++ c ∷ [] }

unfoldable pub unregister_callback : ApprovalGateManager → ℕ → ApprovalGateManager
unfolding elem remove_first ℕ_discrete
unregister_callback m c =
    if elem ℕ_discrete c m.callbacks
    then record m { callbacks = remove_first ℕ_discrete c m.callbacks }
    else m

unfoldable pub clear_all_for_story : ApprovalGateManager → String → ApprovalGateManager
unfolding without_story
clear_all_for_story m story_id = record m {
  pending_approvals = without_story story_id m.pending_approvals;
  decisions = without_story story_id m.decisions;
}
