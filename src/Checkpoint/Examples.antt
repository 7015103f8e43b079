-- ===== src/Checkpoint/Examples.antt =====
-- Runs of the checkpoints.
use fastcoder.Base.{ℕ, zero, suc, String, ap, ◌∙◌, ◌≡◌, refl, List, [], ◌∷◌, none, some}
use Prim.Native.String.{count, ◌∷◌ as ◌∷ₛ◌}
use Prim.Native.String.count
use mathlib.Core.Option
use fastcoder.Json.{Value, null, text, moment, object, field, end, written, value_of}
use fastcoder.Story.{Story, StoryState, coding, done}
use fastcoder.Checkpoint.{
  Contents, Directory, File, Codec, IsCodec, get_checkpoint_path, replace, load_checkpoint,
  cleanup_completed,
}
use fastcoder.Checkpoint.Storing.{Op, save, delete, run, after_all, load_checkpoint-run}

-- Two stories whose ids differ only there have one file.
one_path : get_checkpoint_path "team/1" ≡ get_checkpoint_path "team_1"
unfolding get_checkpoint_path replace
one_path = refl

-- A content is the data itself, and a time is written as so many strokes.
unfoldable strokes : ℕ → String
strokes zero = ""
strokes (suc n) = "|" ∷ₛ strokes n

count-strokes : (n : ℕ) → count (strokes n) ≡ n
unfolding strokes
count-strokes zero = count.nil
count-strokes (suc n) = count.cons "|" (strokes n) ∙ ap suc (count-strokes n)

-- A time inside of a value is written with its sign first.
abbrev stamp : ℕ → String
stamp n = "@" ∷ₛ strokes n

abbrev codec : Codec Value
codec = record {
  dumps = λ v. written stamp v;
  load = λ v. some v;
  isoformat = strokes;
  fromisoformat = λ s. some (count s);
  str = stamp;
}

codec-IsCodec : IsCodec codec
codec-IsCodec = record {
  load-dumps = λ v. refl;
  fromisoformat-isoformat = λ t. ap some (count-strokes t);
}

-- A story with a plan that was made at the time 1.
abbrev contents : Contents
contents = record {
  plan = some (object (field "created_at" (moment 1) end));
  dump_error = λ e. null;
  title = some "A title";
  project_id = "p1";
  priority = "high";
  total_tokens_used = 12;
}

abbrev story : String → StoryState → Story
story id state = record {
  id = id;
  state = state;
  iterations = [];
  cost_budget_usd = 100;
  metadata = record { updated_at = 0; completed_at = none; total_cost_usd = 0 };
}

abbrev ops : List Op
ops =
    save 1 contents (story "s1" coding)
    ∷ save 2 contents (story "s2" done)
    ∷ save 3 contents (story "s1" done)
    ∷ delete "s2"
    ∷ []

load_checkpoint-run_example :
    load_checkpoint codec "s1" (run codec [] ops)
    ≡ after_all codec.str (get_checkpoint_path "s1") (load_checkpoint codec "s1" []) ops
load_checkpoint-run_example = load_checkpoint-run codec codec-IsCodec "s1" [] ops

-- The plan's time is a text now.
plan_loaded :
    Option.map (λ c. c.plan_snapshot) (load_checkpoint codec "s1" (run codec [] ops))
    ≡ some (object (field "created_at" (text "@|") end))
unfolding load_checkpoint run written strokes
plan_loaded = refl

abbrev dir : Directory Value
dir = run codec [] ops

-- A file of a state alone is too little for a checkpoint, but is cleaned up, and a young one is not.
abbrev bare : File Value
bare = record { mtime = 0; content = object (field "state" (text "DONE") end) }

bare_deleted : cleanup_completed codec 90000000000 24 (("x", bare) ∷ []) ≡ ([], 1)
unfolding cleanup_completed value_of
bare_deleted = refl

bare_kept : cleanup_completed codec 86400000000 24 (("x", bare) ∷ []) ≡ (("x", bare) ∷ [], 0)
unfolding cleanup_completed value_of
bare_kept = refl
