-- ===== src/Quality.antt =====
-- quality/__init__.py: the policy of the quality gates and its evaluation. What the runner of a gate
-- does is an argument. Messages, details and durations of the whole are left out; coverages are
-- whole percents.
pub mod Templates
pub mod Policy
mod Examples
use fastcoder.Base.{
  ℕ, ◌*◌, String, Bool, true, false, not, ◌&&◌, ◌||◌, List, [], ◌∷◌, map, Option, none, some, ltb,
  if◌then◌else◌, length,
}

pub data GateType : Type 0 where
  lint type_check unit_test integration_test e2e_test sast dependency_audit secret_detection
        coverage_delta performance_budget migration_safety :
      GateType

pub data GateOutcome : Type 0 where
  passed failed warning skipped error : GateOutcome

pub data EnforcementLevel : Type 0 where
  required warning_only optional disabled : EnforcementLevel

pub record GateThreshold : Type 0 where
  pub gate_type : GateType
  pub enforcement : EnforcementLevel
  pub min_coverage : Option ℕ
  pub max_findings : Option ℕ
  pub max_severity : Option String
  pub timeout_seconds : ℕ

pub record GateResult : Type 0 where
  pub gate_type : GateType
  pub outcome : GateOutcome
  pub enforcement : EnforcementLevel
  pub findings_count : ℕ
  pub duration_ms : ℕ

pub record QualityGatePolicy : Type 0 where
  pub name : String
  pub gates : List GateThreshold
  pub fail_fast : Bool
  pub parallel_execution : Bool

pub record PolicyEvaluationResult : Type 0 where
  pub policy_name : String
  pub results : List GateResult
  pub all_required_passed : Bool
  pub has_warnings : Bool
  pub recommended_action : String

-- What comes of awaiting a runner: its result, a TimeoutError, or another exception.
pub data Answer : Type 0 where
  returned : GateResult → Answer
  timed_out raised : Answer

-- What a runner finds out, with the number of findings and how long it took.
pub data Check : Type 0 where
  finished : GateOutcome → ℕ → ℕ → Check
  out_of_time broken : Check

-- `self._runners`
abbrev pub Runners : Type 0
Runners = GateType → Option (GateThreshold → Answer)

abbrev pub is_disabled : EnforcementLevel → Bool
is_disabled disabled = true
is_disabled _ = false

abbrev pub is_required : EnforcementLevel → Bool
is_required required = true
is_required _ = false

abbrev pub is_failed : GateOutcome → Bool
is_failed failed = true
is_failed _ = false

abbrev pub is_warning : GateOutcome → Bool
is_warning warning = true
is_warning _ = false

-- `outcome in (PASSED, SKIPPED, WARNING)`
abbrev pub is_good : GateOutcome → Bool
is_good passed = true
is_good skipped = true
is_good warning = true
is_good _ = false

-- `GateResult(gate_type=..., outcome=..., enforcement=..., duration_ms=...)`
abbrev pub result : GateType → GateOutcome → EnforcementLevel → ℕ → GateResult
result gate_type outcome enforcement duration_ms = record {
  gate_type = gate_type;
  outcome = outcome;
  enforcement = enforcement;
  findings_count = 0;
  duration_ms = duration_ms;
}

-- The enforcement in the result of a gate's runner: secret detection "cannot be overridden".
unfoldable pub enforced : GateType → EnforcementLevel → EnforcementLevel
enforced secret_detection enforcement = required
enforced _ enforcement = enforcement

unfoldable pub run_gate : GateType → GateThreshold → Check → Answer
unfolding enforced
run_gate gate_type threshold (finished outcome findings duration_ms) =
    returned
      (record (result gate_type outcome (enforced gate_type threshold.enforcement) duration_ms) {
        findings_count = findings;
      })
run_gate gate_type threshold out_of_time = timed_out
run_gate gate_type threshold broken = raised

-- The runners that the engine registers, one for each type of gate, for what they find out.
unfoldable pub registered : (GateType → GateThreshold → Check) → Runners
unfolding run_gate
registered checks gate_type =
    some (λ threshold. run_gate gate_type threshold (checks gate_type threshold))

unfoldable pub answered : GateType → GateThreshold → Answer → GateResult
answered gate_type threshold (returned r) = r
answered gate_type threshold timed_out =
    result gate_type error threshold.enforcement (threshold.timeout_seconds * 1000)
answered gate_type threshold raised = result gate_type error threshold.enforcement 0

unfoldable pub run_with : GateType → GateThreshold → Option (GateThreshold → Answer) → GateResult
unfolding answered
run_with gate_type threshold none = result gate_type error threshold.enforcement 0
run_with gate_type threshold (some runner) = answered gate_type threshold (runner threshold)

unfoldable pub evaluate_single : Runners → GateType → GateThreshold → GateResult
unfolding run_with
evaluate_single runners gate_type threshold =
    if is_disabled threshold.enforcement
    then result gate_type skipped threshold.enforcement 0
    else run_with gate_type threshold (runners gate_type)

unfoldable pub tasks_of : List GateThreshold → List (GateType × GateThreshold)
tasks_of [] = []
tasks_of (threshold ∷ gates) =
    let tasks = tasks_of gates in
    if is_disabled threshold.enforcement then tasks else (threshold.gate_type, threshold) ∷ tasks

-- `asyncio.gather` returns the results in the order of the tasks. `evaluate_single` catches each
-- exception, so that none is among them.
unfoldable pub gathered : Runners → List (GateType × GateThreshold) → List GateResult
unfolding evaluate_single
gathered runners [] = []
gathered runners ((gate_type, threshold) ∷ tasks) =
    evaluate_single runners gate_type threshold ∷ gathered runners tasks

abbrev pub stops : Bool → GateThreshold → GateResult → Bool
stops fail_fast threshold r =
    fail_fast && (is_required threshold.enforcement && is_failed r.outcome)

unfoldable pub sequential : Runners → Bool → List (GateType × GateThreshold) → List GateResult
unfolding evaluate_single
sequential runners fail_fast [] = []
sequential runners fail_fast ((gate_type, threshold) ∷ tasks) =
    let r = evaluate_single runners gate_type threshold in
    let rest = sequential runners fail_fast tasks in
    r ∷ (if stops fail_fast threshold r then [] else rest)

unfoldable pub run_gates : Runners → QualityGatePolicy → List GateResult
unfolding tasks_of gathered sequential
run_gates runners policy =
    let tasks = tasks_of policy.gates in
    if policy.parallel_execution && ltb 1 (length tasks)
    then gathered runners tasks
    else sequential runners policy.fail_fast tasks

unfoldable pub all_required_good : List GateResult → Bool
all_required_good [] = true
all_required_good (r ∷ rs) =
    (not (is_required r.enforcement) || is_good r.outcome) && all_required_good rs

unfoldable pub any_warning : List GateResult → Bool
any_warning [] = false
any_warning (r ∷ rs) = is_warning r.outcome || any_warning rs

-- Whether `required_failures` has any.
unfoldable pub any_required_failure : List GateResult → Bool
any_required_failure [] = false
any_required_failure (r ∷ rs) =
    (is_required r.enforcement && is_failed r.outcome) || any_required_failure rs

abbrev pub recommend : Bool → Bool → String
recommend required_failures has_warnings =
    if required_failures then "block" else if has_warnings then "review" else "merge"

-- The evaluation's result, for the gates' results.
unfoldable pub evaluated : String → List GateResult → PolicyEvaluationResult
unfolding all_required_good any_warning any_required_failure
evaluated name results = record {
  policy_name = name;
  results = results;
  all_required_passed = all_required_good results;
  has_warnings = any_warning results;
  recommended_action = recommend (any_required_failure results) (any_warning results);
}

unfoldable pub evaluate : Runners → QualityGatePolicy → PolicyEvaluationResult
unfolding run_gates evaluated
evaluate runners policy = evaluated policy.name (run_gates runners policy)
