-- ===== src/Checkpoint/Storing.antt =====
-- What is loaded after saves and deletions of orchestrator/checkpoint.py.
use fastcoder.Base.{
  ℕ, String, ◌≡◌, refl, ap, ◌∙◌, ite, List, [], ◌∷◌, Option, none, some, string_discrete, elem,
}
use mathlib.Core.Option
use fastcoder.Base.Dict
use fastcoder.Base.Dict.{get-put, get-remove}
use fastcoder.Story.{Story}
use fastcoder.Json.{object, written, value_of}
use fastcoder.Checkpoint.{
  StoryCheckpoint, Contents, from_fields, only_known, moment_of, built, Codec, IsCodec, File,
  Directory, get_checkpoint_path, checkpoint_of, to_dict, from_dict, save_checkpoint, read_file,
  load_checkpoint, delete_checkpoint,
}

-- A save, with the clock's reading and the contents, or a deletion.
pub data Op : Type 0 where
  save : ℕ → Contents → Story → Op
  delete : String → Op

module _ {L : Type 0} (codec : Codec L) where
  unfoldable pub apply : Directory L → Op → Directory L
  unfolding save_checkpoint delete_checkpoint
  apply dir (save now contents story) = save_checkpoint codec now contents story dir
  apply dir (delete story_id) = delete_checkpoint codec story_id dir

  unfoldable pub run : Directory L → List Op → Directory L
  unfolding apply
  run dir [] = dir
  run dir (op ∷ ops) = run (apply dir op) ops

-- What is loaded of a checkpoint that was saved: the datetimes in it have become texts, but for its
-- own timestamp.
abbrev pub as_loaded : (ℕ → String) → StoryCheckpoint → StoryCheckpoint
as_loaded str c = record {
  story_id = written str c.story_id;
  state = written str c.state;
  iteration = written str c.iteration;
  timestamp = c.timestamp;
  plan_snapshot = written str c.plan_snapshot;
  error_context = written str c.error_context;
  metadata = written str c.metadata;
}

-- The checkpoint of a path, told by the operations alone: `before` is what it was.
abbrev pub after : (ℕ → String) → String → Option StoryCheckpoint → Op → Option StoryCheckpoint
after str path before (save now contents story) =
    ite (string_discrete (get_checkpoint_path story.id) path)
      (some (as_loaded str (checkpoint_of now contents story))) before
after str path before (delete story_id) =
    ite (string_discrete (get_checkpoint_path story_id) path) none before

abbrev pub after_all :
    (ℕ → String) → String → Option StoryCheckpoint → List Op → Option StoryCheckpoint
after_all str path before [] = before
after_all str path before (op ∷ ops) = after_all str path (after str path before op) ops

module _ {L : Type 0} (codec : Codec L) (laws : IsCodec codec) where
  read_saved :
      (mtime : ℕ) (c : StoryCheckpoint)
      → read_file codec
          (some (record { mtime = mtime; content = codec.dumps (object (to_dict codec c)) }))
        ≡ some (as_loaded codec.str c)
  unfolding read_file from_dict to_dict Option.bind from_fields only_known value_of moment_of built
      written string_discrete elem
  read_saved mtime c =
      ap (λ o. Option.bind o (from_dict codec)) (laws.load-dumps (object (to_dict codec c)))
      ∙ rw (laws.fromisoformat-isoformat) refl

  read_put :
      {A : Type 0} (mtime : ℕ) (c : StoryCheckpoint) (o : Option (File L)) (d : Dec A)
      → let file : File L = record {
        mtime = mtime;
        content = codec.dumps (object (to_dict codec c));
      } in
        read_file codec (ite d (some file) o)
        ≡ ite d (some (as_loaded codec.str c)) (read_file codec o)
  read_put mtime c o (yes a) = read_saved mtime c
  read_put mtime c o (no n) = refl

  read_removed :
      {A : Type 0} (o : Option (File L)) (d : Dec A)
      → read_file codec (ite d none o) ≡ ite d none (read_file codec o)
  unfolding read_file
  read_removed o (yes a) = refl
  read_removed o (no n) = refl

  load-apply :
      (story_id : String) (dir : Directory L) (op : Op)
      → load_checkpoint codec story_id (apply codec dir op)
        ≡ after codec.str (get_checkpoint_path story_id) (load_checkpoint codec story_id dir) op
  unfolding load_checkpoint apply save_checkpoint delete_checkpoint
  load-apply story_id dir (save now contents story) =
      let path = get_checkpoint_path story.id in
      let c = checkpoint_of now contents story in
      ap (read_file codec) (
        get-put string_discrete path (get_checkpoint_path story_id)
          (record { mtime = now; content = codec.dumps (object (to_dict codec c)) }) dir)
      ∙ read_put now c (Dict.get string_discrete (get_checkpoint_path story_id) dir)
          (string_discrete path (get_checkpoint_path story_id))
  load-apply story_id dir (delete other) =
      let path = get_checkpoint_path other in
      ap (read_file codec) (get-remove string_discrete path (get_checkpoint_path story_id) dir)
      ∙ read_removed (Dict.get string_discrete (get_checkpoint_path story_id) dir)
          (string_discrete path (get_checkpoint_path story_id))

  -- With json and datetime as documented: after any saves and deletions, loading a story's checkpoint
  -- gives what the last operation on its file left: nothing after a deletion, what was there before
  -- where no operation was on its file, and after a save the snapshot that it took, with its timestamp,
  -- but with each datetime inside of the plan and of the error's context turned into its text.
  pub load_checkpoint-run :
      (story_id : String) (dir : Directory L) (ops : List Op)
      → load_checkpoint codec story_id (run codec dir ops)
        ≡ after_all codec.str
            (get_checkpoint_path story_id)
            (load_checkpoint codec story_id dir)
            ops
  unfolding run
  load_checkpoint-run story_id dir [] = refl
  load_checkpoint-run story_id dir (op ∷ ops) =
      load_checkpoint-run story_id (apply codec dir op) ops
      ∙ ap (λ o. after_all codec.str (get_checkpoint_path story_id) o ops)
          (load-apply story_id dir op)
