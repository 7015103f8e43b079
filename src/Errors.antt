-- ===== src/Errors.antt =====
-- errors/classifier.py and errors/recovery.py: what an error is, and what is to be done about it. The
-- functions of re, hashlib and of Python's texts are parameters, in `Texts`. Confidences are
-- hundredths.
pub mod Recovery
pub mod Escalation
mod Examples
use Prim.Native.Char.{Char, code}
use Prim.Native.String.{[] as ε, ◌∷◌ as ◌∷ₛ◌, ◌++◌ as append}
use fastcoder.Base.{
  ℕ, zero, suc, ◌+◌, String, Bool, true, false, not, ◌&&◌, ◌||◌, List, [], ◌∷◌, ◌++◌, Option, none,
  some, ite, ◌==◌, ltb, leb, if◌then◌else◌, elem, string_discrete,
}

pub data ErrorCategory : Type 0 where
  syntax_error type_error import_error logic_error integration_error environment_error flaky_error
        architectural_error unknown :
      ErrorCategory

pub data RecoveryStrategy : Type 0 where
  direct_fix include_types consult_symbol_table include_broad_context load_api_specs
        environment_repair rerun replan escalate_to_human :
      RecoveryStrategy

pub record ErrorClassification : Type 0 where
  pub category : ErrorCategory
  pub recovery_strategy : RecoveryStrategy
  pub typical_fix_attempts : ℕ
  pub fingerprint : String
  pub confidence : ℕ

-- `search pattern text` and `sub pattern replacement text` of re, `lower` and `strip` of texts, and
-- the first 16 digits of the hexadecimal SHA-256.
pub record Texts : Type 0 where
  pub search : String → String → Bool
  pub sub : String → String → String → String
  pub lower : String → String
  pub strip : String → String
  pub sha256_16 : String → String

-- `PATTERN_MAP`, in its order.
abbrev pub pattern_map : List (ErrorCategory × List String)
pattern_map =
    (
      syntax_error,
      "SyntaxError" ∷ "IndentationError" ∷ "invalid syntax" ∷ "unexpected" ∷ "expected.*received"
          ∷ "Missing closing" ∷ [],
    )
    ∷ (
      type_error,
      "TypeError" ∷ "TS2\\d{3}" ∷ "is not compatible with" ∷ "Argument of type"
          ∷ "Property.*does not exist" ∷ "Cannot assign" ∷ "Type.*is not assignable" ∷ [],
    )
    ∷ (
      import_error,
      "ImportError" ∷ "ModuleNotFoundError" ∷ "Cannot find module" ∷ "No module named"
          ∷ "cannot find name" ∷ "import.*not found" ∷ [],
    )
    ∷ (
      logic_error,
      "AssertionError" ∷ "Expected.*but got" ∷ "assertion failed" ∷ "test failed" ∷ "expected value"
          ∷ [],
    )
    ∷ (
      environment_error,
      "ENOENT" ∷ "EACCES" ∷ "EADDRINUSE" ∷ "FileNotFoundError" ∷ "PermissionError" ∷ "OSError"
          ∷ "Environment variable" ∷ [],
    )
    ∷ (
      flaky_error,
      "timeout" ∷ "network" ∷ "connection refused" ∷ "temporary failure" ∷ "rate limited" ∷ [],
    )
    ∷ (
      integration_error,
      "connection error" ∷ "database error" ∷ "API error" ∷ "service unavailable"
          ∷ "health check failed" ∷ [],
    )
    ∷ (
      architectural_error,
      "circular dependency" ∷ "incompatible design" ∷ "breaking change" ∷ "cannot modify" ∷ [],
    )
    ∷ []

unfoldable pub get_recovery_strategy : ErrorCategory → RecoveryStrategy
get_recovery_strategy syntax_error = direct_fix
get_recovery_strategy type_error = include_types
get_recovery_strategy import_error = consult_symbol_table
get_recovery_strategy logic_error = include_broad_context
get_recovery_strategy integration_error = load_api_specs
get_recovery_strategy environment_error = environment_repair
get_recovery_strategy flaky_error = rerun
get_recovery_strategy architectural_error = replan
get_recovery_strategy unknown = direct_fix

unfoldable pub get_fix_attempts : ErrorCategory → ℕ
get_fix_attempts syntax_error = 1
get_fix_attempts type_error = 2
get_fix_attempts import_error = 2
get_fix_attempts logic_error = 3
get_fix_attempts environment_error = 2
get_fix_attempts flaky_error = 3
get_fix_attempts integration_error = 2
get_fix_attempts architectural_error = 1
get_fix_attempts unknown = 2

abbrev pub standard_types : List String
standard_types = "SyntaxError" ∷ "TypeError" ∷ "ImportError" ∷ "ValueError" ∷ []

unfoldable pub calculate_confidence : String → ErrorCategory → ℕ
unfolding elem string_discrete
calculate_confidence error_type unknown = 30
calculate_confidence error_type _ =
    if elem string_discrete error_type standard_types then 95 else 75

-- What follows the last slash of `s`, or else `last`.
unfoldable pub after_slash : String → String → String
after_slash ε last = last
after_slash (c ∷ₛ s) last =
    let past = after_slash s s in
    let on = after_slash s last in if code c == code "/" then past else on

-- `file.split("/")[-1]`, behind the separator, where there is a file
unfoldable pub file_part : String → String
unfolding after_slash
file_part ε = ""
file_part (c ∷ₛ s) = append "|" (after_slash (c ∷ₛ s) (c ∷ₛ s))

module _ (texts : Texts) where
  unfoldable pub any_match : String → List String → Bool
  any_match full_text [] = false
  any_match full_text (pattern ∷ patterns) =
      texts.search pattern full_text || any_match full_text patterns

  unfoldable pub category_among : String → List (ErrorCategory × List String) → ErrorCategory
  unfolding any_match
  category_among full_text [] = unknown
  category_among full_text ((category, patterns) ∷ rest) =
      let later = category_among full_text rest in
      if any_match full_text patterns then category else later

  unfoldable pub normalize_message : String → String
  normalize_message message =
      let a = texts.sub "(?:line|at|:)\\s*\\d+" "" message in
      let b = texts.sub "got\\s+['\"]?[^'\"\\s]+['\"]?" "got <value>" a in
      let c = texts.sub "expected\\s+['\"]?[^'\"\\s]+['\"]?" "expected <type>" b in
      let d = texts.sub "(/[^\\s]+)+" "<path>" c in
      let e = texts.sub "https?://[^\\s]+" "<url>" d in
      texts.strip (texts.sub "[a-f0-9]{8,}" "<hash>" e)

  -- An empty `file` is none.
  unfoldable pub generate_fingerprint : String → String → String → String
  unfolding normalize_message file_part
  generate_fingerprint error_type message file =
      texts.sha256_16
        (append error_type (append "|" (append (normalize_message message) (file_part file))))

  unfoldable pub classify : String → String → String → ErrorClassification
  unfolding category_among get_recovery_strategy get_fix_attempts generate_fingerprint
      calculate_confidence
  classify error_type message stack_trace =
      let full_text =
        texts.lower (append error_type (append " " (append message (append " " stack_trace)))) in
      let category = category_among full_text pattern_map in
      record {
        category = category;
        recovery_strategy = get_recovery_strategy category;
        typical_fix_attempts = get_fix_attempts category;
        fingerprint = generate_fingerprint error_type message "";
        confidence = calculate_confidence error_type category;
      }
