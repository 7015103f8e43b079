-- ===== src/Errors/Escalation.antt =====
-- What recovery.py does with an error as it comes again: the fixes that are remembered, and how the
-- attempts at an error without one escalate.
use fastcoder.Base.{
  ℕ, String, ◌≡◌, refl, ◌∙◌, ap, Bool, false, List, [], ◌∷◌, Option, none, some, ite, ◌==◌, leb,
  string_discrete, arith, subst, ite_ind,
}
use fastcoder.Base.Dict
use fastcoder.Base.Dict.{get-put}
use fastcoder.Errors.{
  ErrorCategory, syntax_error, type_error, import_error, logic_error, integration_error,
  environment_error, flaky_error, architectural_error, unknown, direct_fix, ErrorClassification,
  Texts, get_recovery_strategy, get_fix_attempts, calculate_confidence, generate_fingerprint,
  classify,
}
use fastcoder.Errors.Recovery.{
  known_fix, RecoveryAction, action, RecoveryManager, record_fix, fix_of, lookup_fix, escalation,
  enriched, strategy_for, get_strategy, known_or, handle_error,
}

-- The category that `classify` gives an error.
unfoldable pub category_of : Texts → String → String → String → ErrorCategory
unfolding classify
category_of texts error_type message stack_trace =
    (classify texts error_type message stack_trace).category

-- Whether the attempt is left to a human: beyond the typical ones, but for integration errors.
abbrev pub gives_up : ErrorCategory → ℕ → Bool
gives_up integration_error attempt = false
gives_up syntax_error attempt = leb 2 attempt
gives_up architectural_error attempt = leb 2 attempt
gives_up type_error attempt = leb 3 attempt
gives_up import_error attempt = leb 3 attempt
gives_up environment_error attempt = leb 3 attempt
gives_up unknown attempt = leb 3 attempt
gives_up logic_error attempt = leb 4 attempt
gives_up flaky_error attempt = leb 4 attempt

-- Whether the story is to be planned anew.
abbrev pub plans_anew : ErrorCategory → ℕ → Bool
plans_anew architectural_error attempt = leb 2 attempt
plans_anew _ attempt = false

-- Whether the attempt is made with a stronger model.
abbrev pub switches : ErrorCategory → ℕ → Bool
switches integration_error attempt = leb 3 attempt
switches logic_error attempt = attempt == 3
switches unknown attempt = attempt == 2
switches _ attempt = false

-- The action escalates as the tables above say.
abbrev pub IsTabled : ErrorCategory → ℕ → RecoveryAction → Type 0
IsTabled category attempt a =
    (a.escalate ≡ gives_up category attempt)
    × (a.replan ≡ plans_anew category attempt)
    × (a.switch_to_top_tier ≡ switches category attempt)

strategy_for-IsTabled :
    (category : ErrorCategory) (error_type fingerprint : String) (attempt : ℕ)
    → IsTabled category attempt (
        strategy_for none
          (record {
            category = category;
            recovery_strategy = get_recovery_strategy category;
            typical_fix_attempts = get_fix_attempts category;
            fingerprint = fingerprint;
            confidence = calculate_confidence error_type category;
          })
          attempt)
unfolding strategy_for escalation enriched get_fix_attempts calculate_confidence
strategy_for-IsTabled syntax_error t f n = (ground arith, ground arith, ground arith)
strategy_for-IsTabled type_error t f n = (ground arith, ground arith, ground arith)
strategy_for-IsTabled import_error t f n = (ground arith, ground arith, ground arith)
strategy_for-IsTabled logic_error t f n = (ground arith, ground arith, ground arith)
strategy_for-IsTabled integration_error t f n = (ground arith, ground arith, ground arith)
strategy_for-IsTabled environment_error t f n = (ground arith, ground arith, ground arith)
strategy_for-IsTabled flaky_error t f n = (ground arith, ground arith, ground arith)
strategy_for-IsTabled architectural_error t f n = (ground arith, ground arith, ground arith)
strategy_for-IsTabled unknown t f n = (ground arith, ground arith, ground arith)

-- A fix that is recorded for a fingerprint, with a story's id.
abbrev pub Record : Type 0
Record = String × String × String

unfoldable pub record_all : List Record → RecoveryManager → RecoveryManager
unfolding record_fix
record_all [] m = m
record_all ((fingerprint, fix, story_id) ∷ l) m =
    record_all l (record_fix fingerprint fix story_id m)

-- The last of the fixes recorded for the fingerprint, or else the one given.
unfoldable pub last_fix : String → List Record → Option String → Option String
last_fix fingerprint [] known = known
last_fix fingerprint ((other, fix, story_id) ∷ l) known =
    last_fix fingerprint l (ite (string_discrete other fingerprint) (some fix) known)

lookup_fix-record_fix :
    (fingerprint other fix story_id : String) (m : RecoveryManager)
    → lookup_fix fingerprint (record_fix other fix story_id m)
      ≡ ite (string_discrete other fingerprint) (some fix) (lookup_fix fingerprint m)
unfolding lookup_fix record_fix
lookup_fix-record_fix fingerprint other fix story_id m =
    ap fix_of (get-put string_discrete other fingerprint (fix, story_id) m)
    ∙ under (string_discrete other fingerprint)
  where
    under :
        (same : Dec (other ≡ fingerprint))
        → fix_of (ite same (some (fix, story_id)) (Dict.get string_discrete fingerprint m))
          ≡ ite same (some fix) (fix_of (Dict.get string_discrete fingerprint m))
    under (yes e) = refl
    under (no n) = refl

lookup_fix-record_all :
    (fingerprint : String) (l : List Record) (m : RecoveryManager)
    → lookup_fix fingerprint (record_all l m) ≡ last_fix fingerprint l (lookup_fix fingerprint m)
unfolding record_all last_fix
lookup_fix-record_all fingerprint [] m = refl
lookup_fix-record_all fingerprint ((other, fix, story_id) ∷ l) m =
    lookup_fix-record_all fingerprint l (record_fix other fix story_id m)
    ∙ ap (last_fix fingerprint l) (lookup_fix-record_fix fingerprint other fix story_id m)

-- What is done where a fix is remembered, and where none is.
abbrev pub IsRemedy : Option String → ErrorCategory → ℕ → RecoveryAction → Type 0
IsRemedy (some fix) category attempt a = a ≡ action direct_fix (known_fix fix)
IsRemedy none category attempt a = IsTabled category attempt a

known_or-IsRemedy :
    (known : Option String) (c : ErrorClassification) (attempt : ℕ)
    → IsTabled c.category attempt (strategy_for none c attempt)
    → IsRemedy known c.category attempt (known_or known c (strategy_for known c attempt)).1
unfolding known_or strategy_for
known_or-IsRemedy none c attempt tabled = tabled
known_or-IsRemedy (some fix) c attempt tabled =
    ite_ind (λ (r : ErrorClassification × RecoveryAction). r.1 ≡ action direct_fix (known_fix fix))
      (string_discrete fix "") (λ _. refl) (λ _. refl)

met-IsRemedy :
    (c : ErrorClassification) (attempt : ℕ) (m : RecoveryManager) (known : Option String)
    → lookup_fix c.fingerprint m ≡ known
    → IsTabled c.category attempt (strategy_for none c attempt)
    → IsRemedy known c.category attempt
        (known_or (lookup_fix c.fingerprint m) c (get_strategy c attempt m)).1
unfolding get_strategy
met-IsRemedy c attempt m known found tabled =
    subst
      (λ fix.
        IsRemedy fix c.category attempt
          (known_or (lookup_fix c.fingerprint m) c
            (strategy_for (lookup_fix c.fingerprint m) c attempt)).1)
      found (known_or-IsRemedy (lookup_fix c.fingerprint m) c attempt tabled)

-- After any fixes have been recorded, an error is met as its category, the attempt and the last fix
-- recorded for its fingerprint call for: with that fix if there is one, at any attempt. If there is
-- none, it is left to a human from the attempt after the typical ones on unless it is an integration
-- error, a new plan is asked for only for architectural errors from the second attempt on, and a
-- stronger model only for integration errors from the third attempt on, for logic errors at the
-- third, and for unknown errors at the second.
pub handle_error_lem :
    (texts : Texts) (error_type message stack_trace : String) (attempt : ℕ) (l : List Record)
    → IsRemedy
        (last_fix (generate_fingerprint texts error_type message "") l none)
        (category_of texts error_type message stack_trace)
        attempt
        (handle_error texts error_type message stack_trace attempt (record_all l [])).1
unfolding handle_error classify category_of lookup_fix
handle_error_lem texts error_type message stack_trace attempt l =
    met-IsRemedy (classify texts error_type message stack_trace) attempt (record_all l [])
      (last_fix (generate_fingerprint texts error_type message "") l none)
      (lookup_fix-record_all (generate_fingerprint texts error_type message "") l [])
      (strategy_for-IsTabled (category_of texts error_type message stack_trace) error_type
        (generate_fingerprint texts error_type message "") attempt)
