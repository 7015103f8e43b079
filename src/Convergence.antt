-- ===== src/Convergence.antt =====
-- orchestrator/convergence_detector.py: whether the iterations of a story make progress. Of the
-- result the status, the recommended action and the metrics are modelled; the confidence is a
-- whole number of hundredths.
pub mod Oscillation
pub mod Trends
pub mod Meaning
mod Examples
use fastcoder.Base.{
  ℕ, suc, ◌+◌, ◌*◌, ◌-◌, ◌/◌, min, String, Bool, true, false, ◌&&◌, List, [], ◌∷◌, Option, none,
  some, ltb, leb, ◌==◌, if◌then◌else◌, length, take, drop, last_n, string_discrete,
}
use fastcoder.Base.Dict
use fastcoder.Base.Dict.{Dict}
use fastcoder.Story.{Story, Iteration, ErrorContext}
use mathlib.Core.Option.{get_or}
use text.Mathlib.Text.{◌==◌ as str_eq}

pub data Status : Type 0 where
  progressing oscillating stuck diverging : Status

pub data Action : Type 0 where
  continue enrich_context replan escalate : Action

pub data Metrics : Type 0 where
  no_metrics : Metrics
  analyzed : ℕ → ℕ → Metrics
  oscillation : String → ℕ → Metrics
  stuck_for : ℕ → Metrics
  trend : ℕ → ℕ → Metrics

pub record ConvergenceResult : Type 0 where
  pub status : Status
  pub confidence : ℕ
  pub recommended_action : Action
  pub metrics : Metrics

pub record ConvergenceDetector : Type 0 where
  pub window_size : ℕ
  pub stuck_threshold : ℕ

abbrev pub default_detector : ConvergenceDetector
default_detector = record { window_size = 4; stuck_threshold = 3 }

-- The body of the first loop of `check`: what an iteration adds to `error_fingerprints`, where an
-- empty fingerprint counts for nothing, and what it adds to `error_counts`.
abbrev pub fingerprint_of : Option ErrorContext → List String → List String
fingerprint_of none fps = fps
fingerprint_of (some c) fps = if str_eq c.fingerprint "" then fps else c.fingerprint ∷ fps

abbrev pub error_count_of : Option ErrorContext → ℕ
error_count_of none = 0
error_count_of (some c) = 1

unfoldable pub error_fingerprints : List Iteration → List String
error_fingerprints [] = []
error_fingerprints (i ∷ is) = fingerprint_of i.error_context (error_fingerprints is)

unfoldable pub error_counts : List Iteration → List ℕ
error_counts [] = []
error_counts (i ∷ is) = error_count_of i.error_context ∷ error_counts is

-- `fingerprint_counts[fp] = fingerprint_counts.get(fp, 0) + 1`, over the list.
unfoldable pub fingerprint_counts : Dict String ℕ → List String → Dict String ℕ
unfolding Dict.get Dict.put string_discrete
fingerprint_counts d [] = d
fingerprint_counts d (fp ∷ fps) =
    fingerprint_counts
      (Dict.put string_discrete fp (get_or (Dict.get string_discrete fp d) 0 + 1) d) fps

abbrev pub oscillating_result : String → ℕ → ConvergenceResult
oscillating_result fp count = record {
  status = oscillating;
  confidence = 85 + min 15 (count * 5);
  recommended_action = enrich_context;
  metrics = oscillation fp count;
}

unfoldable pub first_repeated : Dict String ℕ → Option ConvergenceResult
first_repeated [] = none
first_repeated ((fp, count) ∷ d) =
    if leb 2 count then some (oscillating_result fp count) else first_repeated d

unfoldable pub check_oscillation : List String → Option ConvergenceResult
unfolding fingerprint_counts first_repeated
check_oscillation fps =
    if ltb (length fps) 2 then none else first_repeated (fingerprint_counts [] fps)

-- `all(recent_errors)`: no entry is 0.
unfoldable pub all_nonzero : List ℕ → Bool
all_nonzero [] = true
all_nonzero (n ∷ ns) = ltb 0 n && all_nonzero ns

unfoldable pub check_stuck : ConvergenceDetector → List ℕ → Option ConvergenceResult
unfolding all_nonzero last_n
check_stuck d counts =
    if ltb (length counts) d.stuck_threshold
    then none
    else (if all_nonzero (last_n d.stuck_threshold counts)
        then some (record {
          status = stuck;
          confidence = 90;
          recommended_action = replan;
          metrics = stuck_for d.stuck_threshold;
        })
        else none)

unfoldable pub sum : List ℕ → ℕ
sum [] = 0
sum (n ∷ ns) = n + sum ns

abbrev pub is_empty : List ℕ → Bool
is_empty [] = true
is_empty _ = false

unfoldable pub check_diverging : List ℕ → Option ConvergenceResult
unfolding sum
check_diverging counts =
    let mid = length counts / 2 in
    let first_half = take mid counts in
    let second_half = drop mid counts in
    if ltb (length counts) 2
    then none
    else (if is_empty first_half
        then none
        else (if is_empty second_half
            then none
            else (if ltb (sum first_half) (sum second_half)
                then some (record {
                  status = diverging;
                  confidence = 70;
                  recommended_action = escalate;
                  metrics = trend (sum first_half) (sum second_half);
                })
                else none)))

abbrev pub or_else : Option ConvergenceResult → ConvergenceResult → ConvergenceResult
or_else (some r) _ = r
or_else none r = r

abbrev pub no_iterations : List Iteration → Bool
no_iterations [] = true
no_iterations _ = false

unfoldable pub check : ConvergenceDetector → Story → ConvergenceResult
unfolding last_n error_fingerprints error_counts check_oscillation check_stuck check_diverging
check d story =
    let recent = last_n d.window_size story.iterations in
    let fps = error_fingerprints recent in
    let counts = error_counts recent in
    let started : ConvergenceResult = record {
      status = progressing;
      confidence = 100;
      recommended_action = continue;
      metrics = no_metrics;
    } in
    let progress : ConvergenceResult = record {
      status = progressing;
      confidence = 80;
      recommended_action = continue;
      metrics = analyzed (length fps) (length recent);
    } in
    if no_iterations story.iterations
    then started
    else or_else (check_oscillation fps)
        (or_else (check_stuck d counts) (or_else (check_diverging counts) progress))
