-- ===== src/GateTimeout.antt =====
-- orchestrator/gate_timeout.py: the deadlines of pending gates, and what is to be done when they
-- pass. Times are whole microseconds, timeouts whole minutes from 0 up; each reading of the clock is
-- an argument.
pub mod Deadlines
mod Examples
use fastcoder.Base.{
  ℕ, zero, suc, ◌+◌, ◌-◌, ◌*◌, String, Bool, true, false, List, [], ◌∷◌, Option, none, some, ite,
  leb, if◌then◌else◌, length, map, elem, string_discrete,
}
use fastcoder.Base.Dict
use fastcoder.Base.Dict.{Dict}
use fastcoder.Approval.{Key, Key-discrete, without_story}

pub record GateTimeout : Type 0 where
  pub story_id : String
  pub gate_name : String
  pub timeout_at : ℕ
  pub escalation_action : String
  pub created_at : ℕ

unfoldable pub is_expired : ℕ → GateTimeout → Bool
is_expired now t = leb t.timeout_at now

unfoldable pub remaining : ℕ → GateTimeout → Option ℕ
remaining now t = if leb t.timeout_at now then none else some (t.timeout_at - now)

pub record GateTimeoutManager : Type 0 where
  pub default_timeout_minutes : ℕ
  pub escalation_action : String
  pub timeouts : Dict Key GateTimeout

abbrev pub valid_escalation_actions : List String
valid_escalation_actions = "auto_reject" ∷ "auto_approve" ∷ "escalate" ∷ []

-- `none` is the `ValueError` for an action that is not valid.
unfoldable pub new : ℕ → String → Option GateTimeoutManager
unfolding elem string_discrete
new minutes action =
    if elem string_discrete action valid_escalation_actions
    then some
        (record { default_timeout_minutes = minutes; escalation_action = action; timeouts = [] })
    else none

-- `timeout_minutes or self.default_timeout_minutes`
unfoldable pub minutes_or : Option ℕ → ℕ → ℕ
minutes_or none default = default
minutes_or (some zero) default = default
minutes_or (some (suc n)) default = suc n

-- The clock is read once for the deadline and the time of creation.
unfoldable pub make_timeout : ℕ → Key → Option ℕ → GateTimeoutManager → GateTimeout
unfolding minutes_or
make_timeout now key timeout_minutes m = record {
  story_id = key.0;
  gate_name = key.1;
  timeout_at = now + minutes_or timeout_minutes m.default_timeout_minutes * 60000000;
  escalation_action = m.escalation_action;
  created_at = now;
}

unfoldable pub start_timeout :
    ℕ → Key → Option ℕ → GateTimeoutManager → GateTimeoutManager × GateTimeout
unfolding make_timeout Dict.put Key-discrete
start_timeout now key timeout_minutes m =
    let timeout = make_timeout now key timeout_minutes m in
    (record m { timeouts = Dict.put Key-discrete key timeout m.timeouts }, timeout)

unfoldable pub expired_among : ℕ → Dict Key GateTimeout → List Key
unfolding is_expired
expired_among now [] = []
expired_among now ((key, t) ∷ d) =
    let rest = expired_among now d in if is_expired now t then key ∷ rest else rest

unfoldable pub check_timeouts : ℕ → GateTimeoutManager → List Key
unfolding expired_among
check_timeouts now m = expired_among now m.timeouts

unfoldable pub get_timeout : Key → GateTimeoutManager → Option GateTimeout
unfolding Dict.get Key-discrete
get_timeout key m = Dict.get Key-discrete key m.timeouts

abbrev pub some? : Option GateTimeout → Bool
some? none = false
some? (some _) = true

-- Nothing changes where there is no such timeout.
unfoldable pub cancel_timeout : Key → GateTimeoutManager → GateTimeoutManager × Bool
unfolding get_timeout Dict.remove Key-discrete
cancel_timeout key m =
    (record m { timeouts = Dict.remove Key-discrete key m.timeouts }, some? (get_timeout key m))

remaining_of : ℕ → Option GateTimeout → Option ℕ
unfolding remaining
remaining_of now none = none
remaining_of now (some t) = remaining now t

unfoldable pub get_remaining : ℕ → Key → GateTimeoutManager → Option ℕ
unfolding remaining_of get_timeout
get_remaining now key m = remaining_of now (get_timeout key m)

action_of : String → Option GateTimeout → String
action_of default none = default
action_of default (some t) = t.escalation_action

unfoldable pub get_escalation_action : Key → GateTimeoutManager → String
unfolding action_of get_timeout
get_escalation_action key m = action_of m.escalation_action (get_timeout key m)

unfoldable pub get_all_timeouts : GateTimeoutManager → List GateTimeout
get_all_timeouts m = map (λ e. e.1) m.timeouts

unfoldable pub of_story : String → List GateTimeout → List GateTimeout
unfolding string_discrete
of_story story_id [] = []
of_story story_id (t ∷ ts) =
    let rest = of_story story_id ts in ite (string_discrete t.story_id story_id) (t ∷ rest) rest

unfoldable pub get_story_timeouts : String → GateTimeoutManager → List GateTimeout
unfolding of_story get_all_timeouts
get_story_timeouts story_id m = of_story story_id (get_all_timeouts m)

unfoldable pub clear_story_timeouts : String → GateTimeoutManager → GateTimeoutManager × ℕ
unfolding without_story
clear_story_timeouts story_id m =
    let kept = without_story story_id m.timeouts in
    (record m { timeouts = kept }, length m.timeouts - length kept)
