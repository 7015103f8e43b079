-- ===== src/Approval/Checks.antt =====
-- Asking a gate of approval_gate.py, and what its manager keeps true.
use fastcoder.Base.{
  ℕ, String, ◌≡◌, refl, ◌≢◌, ap, sym, subst, ◌∙◌, Bool, true, false, List, [], ◌∷◌, Option, none,
  some, arith, ite, Bool-cases, elem, string_discrete, inl, inr,
}
use fastcoder.Base.Dict
use fastcoder.Base.Dict.{Dict, get-put, get-remove}
use fastcoder.Approval.{
  Key, Key-discrete, pass, PendingApproval, ApprovalDecision, GateResult, ApprovalGateManager,
  valid_gates, is_enabled, get_decision, get_pending, gate_result, check_gate, consult, request,
  new,
}
use mathlib.Core.Option.{some-injective}
use fastcoder.Approval.Decisions.{
  Op, check, approval, rejection, clearing, clearing_story, apply, run, manager_of,
  get-without_story,
}

abbrev requested : ℕ → Key → PendingApproval
requested now key = record {
  story_id = key.0;
  gate_name = key.1;
  requested_at = now;
  requested_by = "orchestrator";
}

get_pending-request :
    (now : ℕ) (m : ApprovalGateManager) (key k : Key)
    → get_pending (request now m key) k
      ≡ ite (Key-discrete key k) (some (requested now key)) (get_pending m k)
unfolding get_pending request
get_pending-request now m key k = get-put Key-discrete key k _ _

get_decision-request :
    (now : ℕ) (m : ApprovalGateManager) (key k : Key)
    → get_decision (request now m key) k ≡ get_decision m k
unfolding get_decision request
get_decision-request now m key k = refl

is_enabled-request :
    (now : ℕ) (m : ApprovalGateManager) (key : Key) (g : String)
    → is_enabled (request now m key) g ≡ is_enabled m g
unfolding is_enabled request
is_enabled-request now m key g = refl

-- The manager that the checks of an enabled gate leave, and their result.
consulted : ℕ → ApprovalGateManager → Key → ApprovalGateManager × GateResult
consulted now m key = consult now m key (get_decision m key) (get_pending m key)

consult_again :
    (now later : ℕ) (m : ApprovalGateManager) (key : Key) (o : Option ApprovalDecision)
    (q : Option PendingApproval)
    → get_decision m key ≡ o
    → get_pending m key ≡ q
    → let (m', r) = consult now m key o q in
      consult later m' key (get_decision m' key) (get_pending m' key) ≡ (m', r)
unfolding consult
consult_again now later m key (some d) q e f = rw e refl
consult_again now later m key none (some p) e f = rw (e, f) refl
consult_again now later m key none none e f =
    rw (get_decision-request now m key key, e, get_pending-request now m key key) (ground arith)

is_enabled-consult :
    (now : ℕ) (m : ApprovalGateManager) (key : Key) (o : Option ApprovalDecision)
    (q : Option PendingApproval) (g : String)
    → is_enabled (consult now m key o q).0 g ≡ is_enabled m g
unfolding consult
is_enabled-consult now m key (some d) q g = refl
is_enabled-consult now m key none (some p) g = refl
is_enabled-consult now m key none none g = is_enabled-request now m key g

check_gate_enabled :
    (now : ℕ) (m : ApprovalGateManager) (key : Key)
    → elem string_discrete key.1 valid_gates ≡ true
    → is_enabled m key.1 ≡ true
    → check_gate now m key.1 key.0 ≡ some (consulted now m key)
unfolding check_gate consulted
check_gate_enabled now m key valid enabled = rw (valid, enabled) refl

check_gate_disabled :
    (now : ℕ) (m : ApprovalGateManager) (key : Key)
    → elem string_discrete key.1 valid_gates ≡ true
    → is_enabled m key.1 ≡ false
    → check_gate now m key.1 key.0 ≡ some (m, gate_result key.1 pass false)
unfolding check_gate
check_gate_disabled now m key valid disabled = rw (valid, disabled) refl

check_gate_unknown :
    (now : ℕ) (m : ApprovalGateManager) (key : Key)
    → elem string_discrete key.1 valid_gates ≡ false
    → check_gate now m key.1 key.0 ≡ none
unfolding check_gate
check_gate_unknown now m key unknown = rw unknown refl

-- A known gate that is asked again answers as before, and changes nothing: the callbacks hear of a
-- pending approval once.
pub check_gate_again :
    (now later : ℕ) (m : ApprovalGateManager) (key : Key) {m' : ApprovalGateManager}
    {r : GateResult}
    → check_gate now m key.1 key.0 ≡ some (m', r)
    → check_gate later m' key.1 key.0 ≡ some (m', r)
check_gate_again now later m key {m'} {r} e =
    elim (Bool-cases (elem string_discrete key.1 valid_gates)) [
      | inr unknown ↦ absurd (ground (arith, check_gate_unknown now m key unknown))
      | inl valid ↦ elim (Bool-cases (is_enabled m key.1)) [
        | inr disabled ↦
            let found =
              some-injective _ _ (sym (check_gate_disabled now m key valid disabled) ∙ e) in
            subst (λ x. check_gate later x.0 key.1 key.0 ≡ some x) found
              (check_gate_disabled later m key valid disabled)
        | inl enabled ↦
            let found = some-injective _ _ (sym (check_gate_enabled now m key valid enabled) ∙ e) in
            subst (λ x. check_gate later x.0 key.1 key.0 ≡ some x) found (again valid enabled)
      ]
    ]
  where
    again :
        elem string_discrete key.1 valid_gates ≡ true
        → is_enabled m key.1 ≡ true
        → check_gate later (consulted now m key).0 key.1 key.0 ≡ some (consulted now m key)
    again valid enabled =
        unfold consulted in
        check_gate_enabled later (consulted now m key).0 key valid
          (is_enabled-consult now m key (get_decision m key) (get_pending m key) key.1 ∙ enabled)
        ∙ ap some (consult_again now later m key (get_decision m key) (get_pending m key) refl refl)

-- No gate of a story is both decided and pending, and a pending approval is filed under its story
-- and gate.
pub record IsExclusive (m : ApprovalGateManager) : Type 0 where
  pub exclusive : (k : Key) → get_decision m k ≢ none → get_pending m k ≡ none
  pub filed :
      (k : Key) (p : PendingApproval)
      → get_pending m k ≡ some p
      → (p.story_id ≡ k.0) × (p.gate_name ≡ k.1)

consult-IsExclusive :
    (now : ℕ) (m : ApprovalGateManager) (key : Key) (o : Option ApprovalDecision)
    (q : Option PendingApproval)
    → get_decision m key ≡ o
    → IsExclusive m
    → IsExclusive (consult now m key o q).0
unfolding consult
consult-IsExclusive now m key (some d) q e v = v
consult-IsExclusive now m key none (some p) e v = v
consult-IsExclusive now m key none none e v = record {
  exclusive = λ k.
      rw (get_decision-request now m key k, get_pending-request now m key k)
        (ground (arith, v.exclusive k));
  filed = λ k p. rw (get_pending-request now m key k) (ground (arith, v.filed k p));
}

check-IsExclusive :
    (now : ℕ) (m : ApprovalGateManager) (key : Key)
    → IsExclusive m
    → IsExclusive (manager_of m (check_gate now m key.1 key.0))
check-IsExclusive now m key v = elim (Bool-cases (elem string_discrete key.1 valid_gates)) [
  | inr unknown ↦ rw (check_gate_unknown now m key unknown) v
  | inl valid ↦ elim (Bool-cases (is_enabled m key.1)) [
    | inr disabled ↦ rw (check_gate_disabled now m key valid disabled) v
    | inl enabled ↦ rw (check_gate_enabled now m key valid enabled) (
        unfold consulted in
        consult-IsExclusive now m key (get_decision m key) (get_pending m key) refl v)
  ]
]

apply-IsExclusive : (m : ApprovalGateManager) (op : Op) → IsExclusive m → IsExclusive (apply m op)
unfolding apply
apply-IsExclusive m (check now key) v = check-IsExclusive now m key v
apply-IsExclusive m (approval now key by comment) v = record {
  exclusive = λ k. simp (get-put, get-remove) (ground (arith, v.exclusive k));
  filed = λ k p. simp get-remove (ground (arith, v.filed k p));
}
apply-IsExclusive m (rejection now key reason by) v = record {
  exclusive = λ k. simp (get-put, get-remove) (ground (arith, v.exclusive k));
  filed = λ k p. simp get-remove (ground (arith, v.filed k p));
}
apply-IsExclusive m (clearing key) v = record {
  exclusive = λ k. simp get-remove (ground (arith, v.exclusive k));
  filed = λ k p. simp get-remove (ground (arith, v.filed k p));
}
apply-IsExclusive m (clearing_story story_id) v = record {
  exclusive = λ k. simp get-without_story (ground (arith, v.exclusive k));
  filed = λ k p. simp get-without_story (ground (arith, v.filed k p));
}

run-IsExclusive :
    (ops : List Op) (m : ApprovalGateManager) → IsExclusive m → IsExclusive (run m ops)
unfolding run
run-IsExclusive [] m v = v
run-IsExclusive (op ∷ ops) m v = run-IsExclusive ops (apply m op) (apply-IsExclusive m op v)

-- After any operations no gate of a story is both decided and pending, and each pending approval is
-- filed under its own story and gate.
pub run-new-IsExclusive :
    (gates : Dict String Bool) (ops : List Op) → IsExclusive (run (new gates) ops)
run-new-IsExclusive gates ops = run-IsExclusive ops (new gates) fresh
  where
    fresh : IsExclusive (new gates)
    fresh = unfold new get_decision get_pending Dict.get in ground arith
