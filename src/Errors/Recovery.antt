-- ===== src/Errors/Recovery.antt =====
-- errors/recovery.py. The dictionaries that `additional_context` can be are a data type.
use fastcoder.Base.{
  ℕ, zero, suc, String, Bool, true, false, ◌&&◌, ◌||◌, Option, none, some, ite, ltb, leb,
  if◌then◌else◌, string_discrete,
}
use fastcoder.Base.Dict
use fastcoder.Base.Dict.{Dict}
use fastcoder.Errors.{
  ErrorCategory, logic_error, integration_error, architectural_error, RecoveryStrategy, direct_fix,
  load_api_specs, replan, escalate_to_human, ErrorClassification, Texts, classify,
}

-- `{}`, the context of a level, and `{"known_fix": fix}`
pub data Context : Type 0 where
  nothing : Context
  level : ℕ → Context
  known_fix : String → Context

pub record RecoveryAction : Type 0 where
  pub strategy : RecoveryStrategy
  pub additional_context : Context
  pub switch_to_top_tier : Bool
  pub replan : Bool
  pub escalate : Bool
  pub max_retries : ℕ

-- `RecoveryAction(strategy=..., additional_context=...)`
abbrev pub action : RecoveryStrategy → Context → RecoveryAction
action strategy context = record {
  strategy = strategy;
  additional_context = context;
  switch_to_top_tier = false;
  replan = false;
  escalate = false;
  max_retries = 1;
}

-- The field `fingerprint_db` of the manager: a fix and a story's id for each fingerprint.
abbrev pub RecoveryManager : Type 0
RecoveryManager = Dict String (String × String)

unfoldable pub record_fix : String → String → String → RecoveryManager → RecoveryManager
unfolding Dict.put string_discrete
record_fix fingerprint fix story_id m = Dict.put string_discrete fingerprint (fix, story_id) m

abbrev pub fix_of : Option (String × String) → Option String
fix_of none = none
fix_of (some (fix, _)) = some fix

unfoldable pub lookup_fix : String → RecoveryManager → Option String
unfolding Dict.get string_discrete
lookup_fix fingerprint m = fix_of (Dict.get string_discrete fingerprint m)

-- Beyond the typical attempts.
unfoldable pub escalation : ErrorCategory → RecoveryAction
escalation architectural_error = record (action replan nothing) { replan = true; escalate = true }
escalation integration_error = record (action load_api_specs nothing) {
  switch_to_top_tier = true;
  max_retries = 2;
}
escalation _ = record (action escalate_to_human nothing) { escalate = true }

-- `category in [LOGIC_ERROR, INTEGRATION_ERROR]`
abbrev pub is_complex : ErrorCategory → Bool
is_complex logic_error = true
is_complex integration_error = true
is_complex _ = false

abbrev pub level_of : ℕ → Context
level_of zero = nothing
level_of (suc zero) = level 1
level_of (suc (suc zero)) = level 2
level_of (suc (suc (suc n))) = level 3

-- Whether the second or a later attempt is made with a stronger model.
abbrev pub stronger : ErrorCategory → ℕ → ℕ → Bool
stronger category confidence attempt =
    (leb 2 attempt && ltb confidence 70) || (leb 3 attempt && is_complex category)

unfoldable pub enriched : ErrorClassification → ℕ → RecoveryAction
enriched c attempt = record (action c.recovery_strategy (level_of attempt)) {
  switch_to_top_tier = stronger c.category c.confidence attempt;
}

unfoldable pub strategy_for : Option String → ErrorClassification → ℕ → RecoveryAction
unfolding escalation enriched
strategy_for (some fix) c attempt = action direct_fix (known_fix fix)
strategy_for none c attempt =
    if ltb c.typical_fix_attempts attempt then escalation c.category else enriched c attempt

unfoldable pub get_strategy : ErrorClassification → ℕ → RecoveryManager → RecoveryAction
unfolding strategy_for lookup_fix
get_strategy c attempt m = strategy_for (lookup_fix c.fingerprint m) c attempt

-- `if known_fix`: an empty text is no fix here.
unfoldable pub known_or :
    Option String → ErrorClassification → RecoveryAction → ErrorClassification × RecoveryAction
unfolding string_discrete
known_or none c otherwise = (c, otherwise)
known_or (some fix) c otherwise =
    ite (string_discrete fix "") (c, otherwise)
      (record c { confidence = 95 }, action direct_fix (known_fix fix))

unfoldable pub handle_error :
    Texts → String → String → String → ℕ → RecoveryManager → ErrorClassification × RecoveryAction
unfolding classify known_or lookup_fix get_strategy
handle_error texts error_type message stack_trace attempt m =
    let c = classify texts error_type message stack_trace in
    known_or (lookup_fix c.fingerprint m) c (get_strategy c attempt m)
