-- ===== src/Convergence/Examples.antt =====
-- Verdicts on a few stories.
use fastcoder.Base.{String, ◌≡◌, refl, List, [], ◌∷◌, none, some, arith, last_n}
use fastcoder.Story.{Story, Iteration, coding}
use fastcoder.Convergence.{default_detector, check, oscillating, stuck}
use fastcoder.Convergence.Meaning.{Meaning, check-Meaning}

abbrev failing : String → Iteration
failing fp = record {
  stage = "coding";
  changes = [];
  test_results = none;
  review_results = none;
  error_context = some (record { fingerprint = fp });
}

abbrev story : List Iteration → Story
story is = record {
  id = "s1";
  state = coding;
  iterations = is;
  cost_budget_usd = 5000000;
  metadata = record { updated_at = 0; completed_at = none; total_cost_usd = 0 };
}

abbrev unlike : List Iteration
unlike = failing "a" ∷ failing "b" ∷ failing "c" ∷ []

unlike_stuck : (check default_detector (story unlike)).status ≡ stuck
unfolding check
unlike_stuck = refl

alike_oscillating :
    (check default_detector (story (failing "a" ∷ failing "b" ∷ failing "a" ∷ []))).status
    ≡ oscillating
unfolding check
alike_oscillating = refl

check-Meaning_example :
    Meaning default_detector (last_n 4 unlike) (check default_detector (story unlike)).status
check-Meaning_example = check-Meaning default_detector (story unlike) (omega arith)
