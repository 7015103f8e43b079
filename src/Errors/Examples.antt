-- ===== src/Errors/Examples.antt =====
-- Runs of the classification and the recovery.
use fastcoder.Base.{◌≡◌, refl, true, leb, List, [], ◌∷◌, none}
use Prim.Native.String.{count, find}
use fastcoder.Errors.{flaky_error, integration_error, Texts, generate_fingerprint, direct_fix}
use fastcoder.Errors.Escalation.{
  category_of, Record, record_all, last_fix, IsRemedy, handle_error_lem,
}
use fastcoder.Errors.Recovery.{handle_error, action, known_fix}

-- Patterns are plain texts here, and a fingerprint is the text itself.
abbrev texts : Texts
texts = record {
  search = λ pattern text. leb (find text pattern) (count text);
  sub = λ pattern replacement text. text;
  lower = λ text. text;
  strip = λ text. text;
  sha256_16 = λ text. text;
}

found : category_of texts "Exception" "the database error of before" "" ≡ integration_error
unfolding category_of
found = refl

-- The patterns are tried in their order: a lost connection to a database is a flaky error.
tried_in_order : category_of texts "Exception" "network: database error" "" ≡ flaky_error
unfolding category_of
tried_in_order = refl

-- Two fixes of one error, and one of another.
abbrev records : List Record
records =
    ("ImportError|No module named x", "pip install y", "s1")
    ∷ ("other", "nothing", "s2")
    ∷ ("ImportError|No module named x", "pip install x", "s3")
    ∷ []

handle_error_lem_example :
    IsRemedy
      (last_fix (generate_fingerprint texts "ImportError" "No module named x" "") records none)
      (category_of texts "ImportError" "No module named x" "")
      5
      (handle_error texts "ImportError" "No module named x" "" 5 (record_all records [])).1
handle_error_lem_example = handle_error_lem texts "ImportError" "No module named x" "" 5 records

-- It is met with the later fix, though the attempts are used up.
with_fix :
    (handle_error texts "ImportError" "No module named x" "" 5 (record_all records [])).1
    ≡ action direct_fix (known_fix "pip install x")
unfolding handle_error record_all
with_fix = refl

-- Without one, it is left to a human.
without_fix : (handle_error texts "ImportError" "No module named x" "" 5 []).1.escalate ≡ true
unfolding handle_error
without_fix = refl

-- Of the file only its name counts, without the directory.
name_only :
    generate_fingerprint texts "TypeError" "x" "src/a/b.py"
    ≡ generate_fingerprint texts "TypeError" "x" "b.py"
unfolding generate_fingerprint
name_only = refl
