-- ===== src/Approval/Examples.antt =====
-- Runs of the approval gates.
use fastcoder.Base.{◌≡◌, refl, List, [], ◌∷◌, none, some}
use fastcoder.Approval.{Key, pass, pending, default_gates, new, is_enabled, check_gate}
use fastcoder.Approval.Decisions.{
  Op, check, approval, rejection, clearing_story, run, decided, verdict, status_of, check_gate-run,
}

abbrev key : Key
key = ("s1", "pre_deploy")

abbrev ops : List Op
ops = check 1 key ∷ rejection 2 key "no tests" "ann" ∷ approval 3 key "ann" "" ∷ []

ops_pass : status_of (check_gate 4 (run (new default_gates) ops) "pre_deploy" "s1") ≡ some pass
unfolding run new check_gate
ops_pass = refl

cleared_pending :
    status_of (
      check_gate 4
        (run (new default_gates) (approval 3 key "ann" "" ∷ clearing_story "s1" ∷ []))
        "pre_deploy"
        "s1")
    ≡ some pending
unfolding run new check_gate
cleared_pending = refl

check_gate-run_example :
    status_of (check_gate 4 (run (new default_gates) ops) "pre_deploy" "s1")
    ≡ some (verdict (is_enabled (new default_gates) "pre_deploy") (decided key none ops))
check_gate-run_example = check_gate-run default_gates ops 4 key (unfold check_gate in refl)
