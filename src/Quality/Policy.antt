-- ===== src/Quality/Policy.antt =====
-- What the evaluation of a policy in quality/__init__.py depends on, and what it recommends.
use fastcoder.Base.{
  String, ◌≡◌, refl, sym, ◌∙◌, ap, subst, Bool, true, false, not, ◌&&◌, ◌||◌, List, [], ◌∷◌, ltb,
  length, arith, if_ind, ◌⊎◌, inl, inr, ◌↔◌,
}
use text.Mathlib.Text.{◌==◌}
use text.Mathlib.TextEquality.{eq_iff}
use fastcoder.Quality.{
  lint, type_check, unit_test, integration_test, e2e_test, sast, dependency_audit, secret_detection,
  coverage_delta, performance_budget, migration_safety, Check, finished, out_of_time, broken,
  enforced, run_gate, registered, answered, run_with, is_disabled, EnforcementLevel, GateType,
  GateOutcome, passed, failed, warning, skipped, error, GateThreshold, GateResult,
  QualityGatePolicy, Runners, is_required, is_failed, is_good, evaluate_single, tasks_of, gathered,
  stops, sequential, run_gates, all_required_good, any_warning, any_required_failure, recommend,
  evaluated, evaluate, PolicyEvaluationResult,
}

-- A gate that is required gives a required result, whatever comes of its runner.
abbrev KeepsRequired : Runners → Type 0
KeepsRequired runners =
    (gate_type : GateType) (threshold : GateThreshold)
    → is_required threshold.enforcement ≡ true
    → is_required (evaluate_single runners gate_type threshold).enforcement ≡ true

failed-not_good : (outcome : GateOutcome) → is_failed outcome ≡ true → is_good outcome ≡ false
failed-not_good failed h = refl
failed-not_good passed h = cc
failed-not_good warning h = cc
failed-not_good skipped h = cc
failed-not_good error h = cc

-- Results have a required failure, and do not let the policy pass.
abbrev Blocks : List GateResult → Type 0
Blocks rs = (any_required_failure rs ≡ true) × (all_required_good rs ≡ false)

Blocks-head :
    (r : GateResult) (rs : List GateResult)
    → is_required r.enforcement ≡ true
    → is_failed r.outcome ≡ true
    → Blocks (r ∷ rs)
unfolding any_required_failure all_required_good
Blocks-head r rs h f = (ground arith, ground (arith, failed-not_good r.outcome f))

Blocks-tail : (r : GateResult) (rs : List GateResult) → Blocks rs → Blocks (r ∷ rs)
unfolding any_required_failure all_required_good
Blocks-tail r rs (f, g) = (ground arith, ground arith)

module _ (runners : Runners) (keeps : KeepsRequired runners) where
  stops-Blocks :
      (fail_fast : Bool) (gate_type : GateType) (threshold : GateThreshold) (rs : List GateResult)
      → stops fail_fast threshold (evaluate_single runners gate_type threshold) ≡ true
      → Blocks (evaluate_single runners gate_type threshold ∷ rs)
  stops-Blocks true gate_type threshold rs h =
      Blocks-head (evaluate_single runners gate_type threshold) rs
        (keeps gate_type threshold (ground arith)) (ground arith)
  stops-Blocks false gate_type threshold rs h = cc

  -- Either no gate is left out, or a required one has failed.
  sequential-cases :
      (fail_fast : Bool) (tasks : List (GateType × GateThreshold))
      → (sequential runners fail_fast tasks ≡ gathered runners tasks)
        ⊎ (Blocks (sequential runners fail_fast tasks) × Blocks (gathered runners tasks))
  unfolding sequential gathered
  sequential-cases fail_fast [] = inl refl
  sequential-cases fail_fast ((gate_type, threshold) ∷ tasks) =
      let r = evaluate_single runners gate_type threshold in
      let whole = gathered runners tasks in
      if_ind (λ rest. (r ∷ rest ≡ r ∷ whole) ⊎ (Blocks (r ∷ rest) × Blocks (r ∷ whole)))
        (stops fail_fast threshold r)
        (λ h. inr (
          stops-Blocks fail_fast gate_type threshold [] h,
          stops-Blocks fail_fast gate_type threshold whole h,
        ))
        (λ _. further r (sequential-cases fail_fast tasks))
    where
      further :
          (r : GateResult) {rest whole : List GateResult}
          → (rest ≡ whole) ⊎ (Blocks rest × Blocks whole)
          → (r ∷ rest ≡ r ∷ whole) ⊎ (Blocks (r ∷ rest) × Blocks (r ∷ whole))
      further r (inl e) = inl (ap (λ l. r ∷ l) e)
      further r {rest} {whole} (inr (b, c)) = inr (Blocks-tail r rest b, Blocks-tail r whole c)

  run_gates-cases :
      (policy : QualityGatePolicy)
      → (run_gates runners policy ≡ gathered runners (tasks_of policy.gates))
        ⊎ (Blocks (run_gates runners policy) × Blocks (gathered runners (tasks_of policy.gates)))
  unfolding run_gates
  run_gates-cases policy =
      let whole = gathered runners (tasks_of policy.gates) in
      if_ind (λ rs. (rs ≡ whole) ⊎ (Blocks rs × Blocks whole))
        (policy.parallel_execution && ltb 1 (length (tasks_of policy.gates))) (λ _. inl refl)
        (λ _. sequential-cases policy.fail_fast (tasks_of policy.gates))

-- What the merge hangs on.
abbrev pub Verdict : Type 0
Verdict = String × Bool

abbrev verdict_of : String → Bool → Verdict
verdict_of recommended passed_all = (recommended, passed_all)

abbrev pub verdict : PolicyEvaluationResult → Verdict
verdict r = (r.recommended_action, r.all_required_passed)

Blocks-verdict :
    (name : String) (rs : List GateResult)
    → Blocks rs
    → verdict (evaluated name rs) ≡ ("block", false)
unfolding evaluated
Blocks-verdict name rs (f, g) =
    ap (λ failure. (recommend failure (any_warning rs), all_required_good rs)) f
    ∙ ap (λ all. ("block", all)) g

same_verdict :
    (name other : String) (rs whole : List GateResult)
    → (rs ≡ whole) ⊎ (Blocks rs × Blocks whole)
    → verdict (evaluated name rs) ≡ verdict (evaluated other whole)
unfolding evaluated
same_verdict name other rs whole (inl e) =
    ap (λ l. (recommend (any_required_failure l) (any_warning l), all_required_good l)) e
same_verdict name other rs whole (inr (b, c)) =
    Blocks-verdict name rs b ∙ sym (Blocks-verdict other whole c)

enforced_required :
    (gate_type : GateType) (e : EnforcementLevel)
    → is_required e ≡ true
    → is_required (enforced gate_type e) ≡ true
unfolding enforced
enforced_required lint e h = h
enforced_required type_check e h = h
enforced_required unit_test e h = h
enforced_required integration_test e h = h
enforced_required e2e_test e h = h
enforced_required sast e h = h
enforced_required dependency_audit e h = h
enforced_required secret_detection e h = refl
enforced_required coverage_delta e h = h
enforced_required performance_budget e h = h
enforced_required migration_safety e h = h

answered_required :
    (gate_type : GateType) (threshold : GateThreshold) (check : Check)
    → is_required threshold.enforcement ≡ true
    → is_required (answered gate_type threshold (run_gate gate_type threshold check)).enforcement
      ≡ true
unfolding answered run_gate
answered_required gate_type threshold (finished outcome n d) h =
    enforced_required gate_type threshold.enforcement h
answered_required gate_type threshold out_of_time h = h
answered_required gate_type threshold broken h = h

registered-KeepsRequired :
    (checks : GateType → GateThreshold → Check) → KeepsRequired (registered checks)
unfolding evaluate_single run_with registered
registered-KeepsRequired checks gate_type threshold h =
    if_ind (λ (r : GateResult). is_required r.enforcement ≡ true)
      (is_disabled threshold.enforcement) (λ _. h)
      (λ _. answered_required gate_type threshold (checks gate_type threshold) h)

-- The recommendation, and whether all required gates passed, hang on the gates of the policy and on
-- what their runners find out only: running the gates at once or one after the other, and stopping at
-- the first required failure or not, makes no difference to either.
pub evaluate_agrees :
    (checks : GateType → GateThreshold → Check) (p q : QualityGatePolicy)
    → p.gates ≡ q.gates
    → verdict (evaluate (registered checks) p) ≡ verdict (evaluate (registered checks) q)
unfolding evaluate
evaluate_agrees checks p q same =
    let runners = registered checks in
    let keeps = registered-KeepsRequired checks in
    same_verdict p.name "" (run_gates runners p) (gathered runners (tasks_of p.gates))
      (run_gates-cases runners keeps p)
    ∙ ap (λ gates. verdict (evaluated "" (gathered runners (tasks_of gates)))) same
    ∙ sym (
        same_verdict q.name "" (run_gates runners q) (gathered runners (tasks_of q.gates))
          (run_gates-cases runners keeps q))

abbrev pub is_error : GateOutcome → Bool
is_error error = true
is_error _ = false

abbrev pub any_required_error : List GateResult → Bool
any_required_error [] = false
any_required_error (r ∷ rs) =
    (is_required r.enforcement && is_error r.outcome) || any_required_error rs

required_cases :
    (rs : List GateResult)
    → all_required_good rs ≡ not (any_required_failure rs || any_required_error rs)
unfolding all_required_good any_required_failure
required_cases [] = refl
required_cases (r ∷ rs) =
    of_outcome (is_required r.enforcement) r.outcome (any_required_failure rs)
      (any_required_error rs) (required_cases rs)
  where
    of_outcome :
        (need : Bool) (outcome : GateOutcome) (failure wrong : Bool) {all : Bool}
        → all ≡ not (failure || wrong)
        → ((not need || is_good outcome) && all)
          ≡ not (((need && is_failed outcome) || failure) || ((need && is_error outcome) || wrong))
    of_outcome false outcome failure wrong h = h
    of_outcome true passed failure wrong h = h
    of_outcome true failed failure wrong h = refl
    of_outcome true warning failure wrong h = h
    of_outcome true skipped failure wrong h = h
    of_outcome true error true wrong h = refl
    of_outcome true error false wrong h = refl

false-not_true : ¬ (false ≡ true)
false-not_true e = cc

-- Texts that compare as different are different.
apart : (s t : String) → (s == t) ≡ false → ¬ (s ≡ t)
apart s t differ same = false-not_true (sym differ ∙ (eq_iff s t).1 same)

-- What the three tests on the results make of the verdict.
recommend-merge_iff :
    (failure wrong warned : Bool)
    → (verdict_of (recommend failure warned) (not (failure || wrong)) ≡ ("merge", false))
      ↔ ((wrong ≡ true) × (failure ≡ false) × (warned ≡ false))
recommend-merge_iff true wrong warned =
    (λ h. absurd (apart "block" "merge" refl (ap (λ v. v.0) h)), λ h. absurd (ground (arith, h.1)))
recommend-merge_iff false wrong true =
    (λ h. absurd (apart "review" "merge" refl (ap (λ v. v.0) h)), λ h. absurd (ground (arith, h.2)))
recommend-merge_iff false true false = (λ h. (refl, refl, refl), λ h. refl)
recommend-merge_iff false false false =
    (λ h. absurd (ground (arith, ap (λ v. v.1) h)), λ h. absurd (ground (arith, h.0)))

-- A merge is recommended although not all required gates passed exactly where a required gate ended
-- in an error (a timeout, an exception, no runner), none failed, and no gate gave a warning.
pub evaluate_merges_errors :
    (runners : Runners) (policy : QualityGatePolicy)
    → (verdict (evaluate runners policy) ≡ ("merge", false)) ↔ (
        (any_required_error (run_gates runners policy) ≡ true)
        × (any_required_failure (run_gates runners policy) ≡ false)
        × (any_warning (run_gates runners policy) ≡ false))
unfolding evaluate evaluated
evaluate_merges_errors runners policy =
    let rs = run_gates runners policy in
    subst
      (λ all.
        (verdict_of (recommend (any_required_failure rs) (any_warning rs)) all ≡ ("merge", false))
        ↔ ((any_required_error rs ≡ true)
            × (any_required_failure rs ≡ false)
            × (any_warning rs ≡ false)))
      (sym (required_cases rs))
      (recommend-merge_iff (any_required_failure rs) (any_required_error rs) (any_warning rs))
