-- ===== src/Orchestrator/Scans.antt =====
-- The security scan and the quality gates of orchestrator/__init__.py, when an iteration refuses
-- the results that they store on it.
use fastcoder.Base.{
  ◌≡◌, refl, ap, Bool, true, false, List, [], ◌∷◌, String, Option, none, some, last?, if◌then◌else◌,
}
use fastcoder.Orchestrator.{
  ok, raised, value_error, World, M, bind_result, catch_result, ◌>>◌, pure, try, Context,
  QualityResult, emit_event, when,
}
use fastcoder.Orchestrator.Stages.{proceed, finish}
use fastcoder.Orchestrator.Delivery.{
  store_result, scan, run_security_scan, changed_files, evaluate, run_quality_gates, has_iterations,
  analyze_all, send_back,
}

caught :
    (m : M (Unit {0})) (rest : M (Unit {0})) (w : World)
    → m w ≡ (w, raised value_error)
    → try (do m; rest) (pure tt) w ≡ (w, ok tt)
caught m rest w e = ap (λ x. catch_result (bind_result x (λ _. rest)) (pure tt)) e

module _ (c : Context) (refuses : c.stores_results ≡ false) where
  store_result_refuses : (w : World) → store_result c w ≡ (w, raised value_error)
  unfolding store_result
  store_result_refuses w = rw refuses refl

  -- What the `try` and the last statement of a scan leave: the story, and no exception.
  scan_done :
      (scan_files : List String → Option Bool) (files : List String) (w : World)
      → let (w', r) = bind_result (try (scan c scan_files files) (pure proceed) w) finish in
        (w'.story ≡ w.story) × (r ≡ ok tt)
  unfolding scan finish emit_event
  scan_done scan_files [] w = (refl, refl)
  scan_done scan_files (f ∷ fs) w = by_result (scan_files (f ∷ fs)) refl
    where
      by_result :
          (o : Option Bool)
          → scan_files (f ∷ fs) ≡ o
          → let (w', r) = bind_result (try (scan c scan_files (f ∷ fs)) (pure proceed) w) finish in
            (w'.story ≡ w.story) × (r ≡ ok tt)
      by_result none e = rw e (refl, refl)
      by_result (some passed) e = rw (e, store_result_refuses w) (refl, refl)

  -- When an iteration refuses the result of a scan, the security scan raises nothing and
  -- leaves the story as it was, whatever it has found: it is neither sent back nor failed.
  pub run_security_scan_silent :
      (w : World)
      → ((run_security_scan c w).0.story ≡ w.story) × ((run_security_scan c w).1 ≡ ok tt)
  unfolding run_security_scan
  run_security_scan_silent w = by_scanner c.security_scanner refl
    where
      by_scanner :
          (o : Option (List String → Option Bool))
          → c.security_scanner ≡ o
          → ((run_security_scan c w).0.story ≡ w.story) × ((run_security_scan c w).1 ≡ ok tt)
      by_scanner none e = rw e (refl, refl)
      by_scanner (some f) e = rw e (scan_done f (changed_files (last? w.story.iterations)) w)

  stored :
      (w : World)
      → has_iterations w.story.iterations ≡ true
      → when (has_iterations w.story.iterations) (store_result c) w ≡ (w, raised value_error)
  unfolding when
  stored w h = rw h (store_result_refuses w)

  evaluate_refuses :
      (engine : List String → Option QualityResult) (files : List String) (w : World)
      → has_iterations w.story.iterations ≡ true
      → try (evaluate c engine files) (pure tt) w ≡ (w, ok tt)
  unfolding evaluate
  evaluate_refuses engine files w h = by_result (engine files) refl
    where
      by_result :
          (o : Option QualityResult)
          → engine files ≡ o
          → try (evaluate c engine files) (pure tt) w ≡ (w, ok tt)
      by_result none e = rw e refl
      by_result (some r) e = rw e (
          caught (when (has_iterations w.story.iterations) (store_result c))
            (if r.all_required_passed
              then pure tt
              else (do analyze_all c r.failed_gates; send_back c "Quality gates failed"))
            w (stored w h))

  -- When an iteration refuses the result of the quality gates and the story has an
  -- iteration, the quality gates leave the story alone and raise nothing.
  pub run_quality_gates_silent :
      (w : World)
      → has_iterations w.story.iterations ≡ true
      → ((run_quality_gates c w).0.story ≡ w.story) × ((run_quality_gates c w).1 ≡ ok tt)
  unfolding run_quality_gates emit_event
  run_quality_gates_silent w h = by_engine c.quality_gate_engine refl
    where
      by_engine :
          (o : Option (List String → Option QualityResult))
          → c.quality_gate_engine ≡ o
          → ((run_quality_gates c w).0.story ≡ w.story) × ((run_quality_gates c w).1 ≡ ok tt)
      by_engine none e = rw e (refl, refl)
      by_engine (some f) e =
          rw (e, evaluate_refuses f (changed_files (last? w.story.iterations)) w h) (refl, refl)
