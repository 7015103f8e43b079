-- ===== src/Orchestrator/Delivery.antt =====
-- The stages `_run_deployment` to `_generate_evidence_bundle` of orchestrator/__init__.py, and the
-- two gates that end a round of the coding loop.
use fastcoder.Base.{
  ◌+◌, String, Bool, true, false, List, [], ◌∷◌, Option, none, some, if◌then◌else◌, last?,
}
use fastcoder.Story.{coding, deploying, verifying, failed, Iteration}
use fastcoder.Approval
use fastcoder.Approval.{GateResult, ApprovalGateManager, pass, pending, blocked, GateStatus}
use fastcoder.Orchestrator.{
  Result, ok, raised, value_error, component_error, World, M, ◌>>=◌, ◌>>◌, pure, try, Context,
  QualityResult, get_story, emit_event, transition, component, when,
}
use fastcoder.Orchestrator.Stages.{Flow, proceed, returned, finish, should_retry, lift_option}

abbrev pub gate_outcome :
    World → Option (ApprovalGateManager × GateResult) → World × Result GateStatus
gate_outcome w none = (w, raised value_error)
gate_outcome w (some (g, r)) = (record w { gates = g }, ok r.status)

-- `await self.approval_gate_manager.check_gate(gate_name, story)`
unfoldable pub check_gate : Context → String → M GateStatus
unfolding Approval.check_gate
check_gate c gate_name w =
    gate_outcome (record w { ticks = w.ticks + 1 })
      (Approval.check_gate (c.clock w.ticks) w.gates gate_name w.story.id)

unfoldable pub deploy : Context → M (Unit {0})
unfolding transition component emit_event
deploy c = do
  transition c deploying "Starting deployment"
  emit_event
  try (do component c.deployer; transition c verifying "Deployment complete")
      (transition c failed "Deployment failed")
  emit_event

unfoldable pub run_deployment_with : Context → GateStatus → M (Unit {0})
unfolding deploy
run_deployment_with c pending = emit_event
run_deployment_with c blocked = do transition c failed "Deployment blocked by gate"; emit_event
run_deployment_with c pass = deploy c

unfoldable pub run_deployment : Context → M (Unit {0})
unfolding check_gate run_deployment_with
run_deployment c = do status ← check_gate c "pre_deploy"; run_deployment_with c status

unfoldable pub run_verification : Context → M (Unit {0})
unfolding transition component emit_event
run_verification c = do
  transition c verifying "Starting verification"
  emit_event
  try (component c.verifier) (transition c failed "Verification failed")
  emit_event

-- `[c.file_path for c in story.iterations[-1].changes if c.file_path]`: the changes are the paths
-- that are not empty.
abbrev pub changed_files : Option Iteration → List String
changed_files none = []
changed_files (some i) = i.changes

-- `if post_mortem: await post_mortem.analyze_gate_failure(...)`
unfoldable pub analyze_gate_failure : Context → String → M (Unit {0})
analyze_gate_failure c gate w = elim c.post_mortem_engine [
  | none ↦ (w, ok tt)
  | some analyze ↦ (w, if analyze gate w.story then raised component_error else ok tt)
]

unfoldable pub analyze_all : Context → List String → M (Unit {0})
unfolding analyze_gate_failure
analyze_all c [] = pure tt
analyze_all c (g ∷ gs) = do analyze_gate_failure c g; analyze_all c gs

unfoldable pub send_back : Context → String → M (Unit {0})
unfolding should_retry transition
send_back c what = do
  retry ← should_retry
  if retry then transition c coding what else transition c failed "Retry limit exceeded"

-- `story.iterations[-1].security_scan_result = result`, which raises if the field is refused.
unfoldable pub store_result : Context → M (Unit {0})
store_result c w = (w, if c.stores_results then ok tt else raised value_error)

unfoldable pub scan : Context → (List String → Option Bool) → List String → M Flow
unfolding store_result analyze_gate_failure send_back
scan c scan_files [] = pure returned
scan c scan_files (f ∷ fs) = do
  passed ← lift_option (scan_files (f ∷ fs))
  store_result c
  if passed then pure proceed else (do
    analyze_gate_failure c "sast"
    send_back c "Security scan found findings"
    pure proceed)

unfoldable pub run_security_scan : Context → M (Unit {0})
unfolding scan finish
run_security_scan c = elim c.security_scanner [
  | none ↦ pure tt
  | some scan_files ↦ do
    s ← get_story
    flow ← try (scan c scan_files (changed_files (last? s.iterations))) (pure proceed)
    finish flow
]

abbrev pub has_iterations : List Iteration → Bool
has_iterations [] = false
has_iterations _ = true

unfoldable pub evaluate :
    Context → (List String → Option QualityResult) → List String → M (Unit {0})
unfolding store_result analyze_all send_back when
evaluate c engine files = do
  result ← lift_option (engine files)
  s ← get_story
  when (has_iterations s.iterations) (store_result c)
  if result.all_required_passed
      then pure tt
      else (do analyze_all c result.failed_gates; send_back c "Quality gates failed")

unfoldable pub run_quality_gates : Context → M (Unit {0})
unfolding evaluate emit_event
run_quality_gates c = elim c.quality_gate_engine [
  | none ↦ pure tt
  | some engine ↦ do
    s ← get_story
    try (evaluate c engine (changed_files (last? s.iterations))) (pure tt)
    emit_event
]

-- The bundle is kept on the story beside the modelled fields.
unfoldable pub generate_evidence_bundle : Context → M (Unit {0})
unfolding component
generate_evidence_bundle c = try (component c.evidence_generator) (pure tt)
