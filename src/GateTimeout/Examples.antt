-- ===== src/GateTimeout/Examples.antt =====
-- Runs of the timeouts of gates.
use fastcoder.Base.{ℕ, ◌≤◌, ◌≡◌, refl, ◌↔◌, List, [], ◌∷◌, Memᴰ, none, some}
use fastcoder.Approval.{Key}
use fastcoder.GateTimeout.{GateTimeoutManager, check_timeouts}
use fastcoder.GateTimeout.Deadlines.{
  Op, starting, cancelling, clearing, run, deadline_after, check_timeouts-run,
}

abbrev manager : GateTimeoutManager
manager = record { default_timeout_minutes = 60; escalation_action = "auto_reject"; timeouts = [] }

abbrev key : Key
key = ("s1", "pre_deploy")

abbrev ops : List Op
ops =
    starting 0 key (some 5)
    ∷ starting 10 ("s2", "pre_code") none
    ∷ cancelling ("s2", "pre_code")
    ∷ clearing "s3"
    ∷ []

check_timeouts-run_example :
    Memᴰ key (check_timeouts 300000000 (run manager ops))
    ↔ ((t : ℕ) × (deadline_after 60 key none ops ≡ some t) × (t ≤ 300000000))
check_timeouts-run_example = check_timeouts-run manager ops 300000000 key refl
