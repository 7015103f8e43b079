-- ===== src/Quality/Examples.antt =====
-- Runs of the policies.
use fastcoder.Base.{◌≡◌, refl, true, false, ◌↔◌, none, some, length}
use fastcoder.Quality.{
  GateType, GateThreshold, Check, finished, registered, failed, QualityGatePolicy, timed_out,
  Runners, run_gates, any_warning, any_required_failure, evaluate,
}
use fastcoder.Quality.Templates.{strict_policy, from_template}
use fastcoder.Quality.Policy.{verdict, any_required_error, evaluate_agrees, evaluate_merges_errors}

-- Every gate runs out of time.
abbrev slow : Runners
slow gate_type = some (λ threshold. timed_out)

-- Every gate fails, with one finding.
abbrev one_finding : GateType → GateThreshold → Check
one_finding gate_type threshold = finished failed 1 10

abbrev failing : Runners
failing = registered one_finding

evaluate_merges_errors_example : (verdict (evaluate slow strict_policy) ≡ ("merge", false)) ↔ (
    (any_required_error (run_gates slow strict_policy) ≡ true)
    × (any_required_failure (run_gates slow strict_policy) ≡ false)
    × (any_warning (run_gates slow strict_policy) ≡ false))
evaluate_merges_errors_example = evaluate_merges_errors slow strict_policy

-- If every gate of the strict policy runs out of time, a merge is recommended.
slow-merge : verdict (evaluate slow strict_policy) ≡ ("merge", false)
unfolding evaluate
slow-merge = refl

-- The strict policy, with its gates one after the other
abbrev one_by_one : QualityGatePolicy
one_by_one = record strict_policy { parallel_execution = false }

evaluate_agrees_example :
    verdict (evaluate failing one_by_one) ≡ verdict (evaluate failing strict_policy)
evaluate_agrees_example = evaluate_agrees one_finding one_by_one strict_policy refl

-- One after the other, they stop at the first; at once, the strict policy's `fail_fast` does nothing.
stopped : length (run_gates failing one_by_one) ≡ 1
unfolding run_gates registered
stopped = refl

not_stopped : length (run_gates failing strict_policy) ≡ 11
unfolding run_gates registered
not_stopped = refl

unknown_template : from_template "lenient" ≡ none
unfolding from_template
unknown_template = refl
