-- ===== src/Convergence/Meaning.antt =====
-- What the verdict of `check` in convergence_detector.py means, said of the iterations.
use fastcoder.Base.{
  ℕ, zero, suc, ◌≤◌, ◌<◌, ◌-◌, String, ◌≡◌, refl, sym, subst, ◌∙◌, ap, inl, inr, true, false, List,
  [], ◌∷◌, Option, none, some, arith, length, drop, last_n, Bool-cases,
}
use fastcoder.Story.{Story, Iteration}
use fastcoder.Convergence.{
  ConvergenceDetector, ConvergenceResult, Status, progressing, oscillating, stuck, diverging,
  error_fingerprints, error_counts, check_oscillation, check_stuck, check_diverging, check, or_else,
  no_iterations, continue, analyzed,
}
use fastcoder.Convergence.Oscillation.{count, check_oscillation_lem}
use fastcoder.Convergence.Trends.{
  IsStuck, IsDiverging, check_stuck_iff, check_diverging_iff, check_stuck-status,
  check_diverging-status,
}

-- What each verdict says of the recent iterations.
abbrev pub Meaning : ConvergenceDetector → List Iteration → Status → Type 0
Meaning d is progressing =
    ((fp : String) → count fp (error_fingerprints is) ≤ 1) × (¬ IsStuck d is) × (¬ IsDiverging is)
Meaning d is oscillating = (fp : String) × (2 ≤ count fp (error_fingerprints is))
Meaning d is stuck = ((fp : String) → count fp (error_fingerprints is) ≤ 1) × IsStuck d is
Meaning d is diverging =
    ((fp : String) → count fp (error_fingerprints is) ≤ 1) × (¬ IsStuck d is) × IsDiverging is

abbrev progress : List Iteration → ConvergenceResult
progress recent = record {
  status = progressing;
  confidence = 80;
  recommended_action = continue;
  metrics = analyzed (length (error_fingerprints recent)) (length recent);
}

module _ (d : ConvergenceDetector) (is : List Iteration) (p : ConvergenceResult) where
  -- The chain of the three checks, with the default result `p` at its end.
  choice : Option ConvergenceResult → Option ConvergenceResult → Option ConvergenceResult → Status
  choice o₁ o₂ o₃ = (or_else o₁ (or_else o₂ (or_else o₃ p))).status

  choice-Meaning :
      (o₁ o₂ o₃ : Option ConvergenceResult)
      → p.status ≡ progressing
      → check_oscillation (error_fingerprints is) ≡ o₁
      → check_stuck d (error_counts is) ≡ o₂
      → check_diverging (error_counts is) ≡ o₃
      → Meaning d is (choice o₁ o₂ o₃)
  unfolding choice
  choice-Meaning (some r) o₂ o₃ e e₁ e₂ e₃ =
      let (fp, many, eq) = (check_oscillation_lem (error_fingerprints is)).0 r e₁ in
      let status : oscillating ≡ r.status = ground arith in subst (Meaning d is) status (fp, many)
  choice-Meaning none (some r) o₃ e e₁ e₂ e₃ =
      subst (Meaning d is) (sym (check_stuck-status d (error_counts is) e₂)) (
        (check_oscillation_lem (error_fingerprints is)).1 e₁,
        (check_stuck_iff d is).0 (λ n. ground arith),
      )
  choice-Meaning none none (some r) e e₁ e₂ e₃ =
      subst (Meaning d is) (sym (check_diverging-status (error_counts is) e₃)) (
        (check_oscillation_lem (error_fingerprints is)).1 e₁,
        λ h. (check_stuck_iff d is).1 h e₂,
        (check_diverging_iff is).0 (λ n. ground arith),
      )
  choice-Meaning none none none e e₁ e₂ e₃ = subst (Meaning d is) (sym e) (
    (check_oscillation_lem (error_fingerprints is)).1 e₁,
    λ h. (check_stuck_iff d is).1 h e₂,
    λ h. (check_diverging_iff is).1 h e₃,
  )

last_n-nil : (n : ℕ) → last_n {A = Iteration} n [] ≡ []
unfolding last_n
last_n-nil zero = refl
last_n-nil (suc n) = drop-nil (0 - suc n)
  where
    drop-nil : (m : ℕ) → drop {A = Iteration} m [] ≡ []
    drop-nil zero = refl
    drop-nil (suc m) = refl

-- With no iterations the three checks find nothing.
choice-nil :
    (d : ConvergenceDetector) (p : ConvergenceResult)
    → 0 < d.stuck_threshold
    → choice d [] p
        (check_oscillation (error_fingerprints []))
        (check_stuck d (error_counts []))
        (check_diverging (error_counts []))
      ≡ p.status
unfolding choice check_oscillation check_stuck check_diverging error_fingerprints error_counts
choice-nil d p h = ground arith

nil_of_no_iterations : (is : List Iteration) → no_iterations is ≡ true → is ≡ []
nil_of_no_iterations [] e = refl
nil_of_no_iterations (i ∷ is) e = cc

check_nil :
    (d : ConvergenceDetector) (s : Story)
    → no_iterations s.iterations ≡ true
    → (check d s).status ≡ progressing
unfolding check
check_nil d s e = rw e refl

check_cons :
    (d : ConvergenceDetector) (s : Story)
    → no_iterations s.iterations ≡ false
    → let is = last_n d.window_size s.iterations in
      (check d s).status
      ≡ choice d is
          (progress is)
          (check_oscillation (error_fingerprints is))
          (check_stuck d (error_counts is))
          (check_diverging (error_counts is))
unfolding check choice
check_cons d s e = rw e refl

check-choice :
    (d : ConvergenceDetector) (s : Story)
    → 0 < d.stuck_threshold
    → (p : ConvergenceResult) × (p.status ≡ progressing)
      × (let is = last_n d.window_size s.iterations in
          (check d s).status
          ≡ choice d is p
              (check_oscillation (error_fingerprints is))
              (check_stuck d (error_counts is))
              (check_diverging (error_counts is)))
check-choice d s h = (
  progress (last_n d.window_size s.iterations),
  refl,
  elim (Bool-cases (no_iterations s.iterations)) [
    | inl e ↦
        let none_yet : s.iterations ≡ [] = nil_of_no_iterations s.iterations e in
        let nothing : last_n d.window_size s.iterations ≡ [] =
          ap (last_n d.window_size) none_yet ∙ last_n-nil d.window_size in
        check_nil d s e ∙ sym (rw nothing (choice-nil d (progress []) h))
    | inr e ↦ check_cons d s e
  ],
)

-- The verdict of `check`, for a threshold of at least 1, read off the iterations in the window: oscillating if a fingerprint
-- repeats, else stuck if the last iterations up to the threshold all failed, else diverging if the
-- later half has more failures, and else progressing. The four exclude one another.
pub check-Meaning :
    (d : ConvergenceDetector) (s : Story)
    → 0 < d.stuck_threshold
    → Meaning d (last_n d.window_size s.iterations) (check d s).status
check-Meaning d s h =
    let is = last_n d.window_size s.iterations in
    let (p, e, eq) = check-choice d s h in
    subst (Meaning d is) (sym eq) (choice-Meaning d is p _ _ _ e refl refl refl)
