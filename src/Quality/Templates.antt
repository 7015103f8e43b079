-- ===== src/Quality/Templates.antt =====
-- The policies that quality/__init__.py has built in.
use fastcoder.Base.{ℕ, String, true, false, List, [], ◌∷◌, Option, none, some, ite, string_discrete}
use fastcoder.Quality.{
  GateType, lint, type_check, unit_test, integration_test, e2e_test, sast, dependency_audit,
  secret_detection, coverage_delta, performance_budget, migration_safety, EnforcementLevel,
  required, warning_only, optional, GateThreshold, QualityGatePolicy,
}

-- `GateThreshold(gate_type=..., enforcement=..., timeout_seconds=...)`
abbrev gate : GateType → EnforcementLevel → ℕ → GateThreshold
gate gate_type enforcement timeout_seconds = record {
  gate_type = gate_type;
  enforcement = enforcement;
  min_coverage = none;
  max_findings = none;
  max_severity = none;
  timeout_seconds = timeout_seconds;
}

abbrev pub default_gates : List GateThreshold
default_gates =
    record (gate lint required 120) { max_findings = some 0 }
    ∷ record (gate type_check required 180) { max_findings = some 0 }
    ∷ record (gate unit_test required 300) { min_coverage = some 80 }
    ∷ gate integration_test required 600
    ∷ gate e2e_test optional 900
    ∷ record (gate sast required 240) { max_severity = some "medium" }
    ∷ record (gate dependency_audit required 180) { max_severity = some "critical" }
    ∷ record (gate secret_detection required 120) { max_findings = some 0 }
    ∷ record (gate coverage_delta required 180) { min_coverage = some 0 }
    ∷ gate performance_budget optional 300
    ∷ gate migration_safety optional 240
    ∷ []

abbrev pub default_policy : QualityGatePolicy
default_policy = record {
  name = "default";
  gates = default_gates;
  fail_fast = false;
  parallel_execution = true;
}

abbrev pub strict_gates : List GateThreshold
strict_gates =
    record (gate lint required 120) { max_findings = some 0 }
    ∷ record (gate type_check required 180) { max_findings = some 0 }
    ∷ record (gate unit_test required 300) { min_coverage = some 95 }
    ∷ gate integration_test required 600
    ∷ gate e2e_test required 900
    ∷ record (gate sast required 240) { max_severity = some "low" }
    ∷ record (gate dependency_audit required 180) { max_severity = some "medium" }
    ∷ record (gate secret_detection required 120) { max_findings = some 0 }
    ∷ record (gate coverage_delta required 180) { min_coverage = some 0 }
    ∷ gate performance_budget required 300
    ∷ gate migration_safety required 240
    ∷ []

abbrev pub strict_policy : QualityGatePolicy
strict_policy = record {
  name = "strict";
  gates = strict_gates;
  fail_fast = true;
  parallel_execution = true;
}

abbrev pub standard_gates : List GateThreshold
standard_gates =
    record (gate lint required 120) { max_findings = some 0 }
    ∷ record (gate type_check required 180) { max_findings = some 0 }
    ∷ record (gate unit_test required 300) { min_coverage = some 80 }
    ∷ gate integration_test required 600
    ∷ gate e2e_test warning_only 900
    ∷ record (gate sast required 240) { max_severity = some "medium" }
    ∷ record (gate dependency_audit required 180) { max_severity = some "critical" }
    ∷ record (gate secret_detection required 120) { max_findings = some 0 }
    ∷ record (gate coverage_delta required 180) { min_coverage = some 0 }
    ∷ gate performance_budget optional 300
    ∷ gate migration_safety optional 240
    ∷ []

abbrev pub standard_policy : QualityGatePolicy
standard_policy = record {
  name = "standard";
  gates = standard_gates;
  fail_fast = false;
  parallel_execution = true;
}

abbrev pub minimal_gates : List GateThreshold
minimal_gates =
    record (gate lint required 120) { max_findings = some 0 }
    ∷ record (gate unit_test required 300) { min_coverage = some 70 }
    ∷ record (gate secret_detection required 120) { max_findings = some 0 }
    ∷ []

abbrev pub minimal_policy : QualityGatePolicy
minimal_policy = record {
  name = "minimal";
  gates = minimal_gates;
  fail_fast = false;
  parallel_execution = true;
}

-- `none` where it raises a ValueError.
unfoldable pub from_template : String → Option QualityGatePolicy
unfolding string_discrete
from_template name = ite (string_discrete name "strict") (some strict_policy) (
    ite (string_discrete name "standard") (some standard_policy)
      (ite (string_discrete name "minimal") (some minimal_policy) none))
