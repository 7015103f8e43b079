-- ===== src/Checkpoint.antt =====
-- orchestrator/checkpoint.py: a file for each story, with a snapshot of its execution. The directory
-- holds the checkpoint files by name; its reads and writes do not fail, but a file can hold what is
-- no checkpoint. json and datetime are parameters, in `Codec`.
pub mod Storing
pub mod Cleaning
mod Examples
use Prim.Native.Char.{Char, code}
use Prim.Native.String.{[] as ε, ◌∷◌ as ◌∷ₛ◌, ◌++◌ as append}
use fastcoder.Base.{
  ◌≡◌, ℕ, ◌+◌, ◌*◌, String, Bool, true, false, ◌&&◌, List, [], ◌∷◌, Option, none, some, ◌==◌, ltb,
  if◌then◌else◌, length, elem, string_discrete, last?,
}
use mathlib.Core.Option
use mathlib.Core.Option.{get_or}
use fastcoder.Base.Dict
use fastcoder.Base.Dict.{Dict}
use fastcoder.Json.{
  Value, null, boolean, number, text, moment, items, object, Fields, end, field, written, value_of,
}
use fastcoder.Story.{Story, Iteration, ErrorContext}
use fastcoder.Wal.{state_value}

-- Nothing checks the types of the fields but that of the timestamp.
pub record StoryCheckpoint : Type 0 where
  pub story_id : Value
  pub state : Value
  pub iteration : Value
  pub timestamp : ℕ
  pub plan_snapshot : Value
  pub error_context : Value
  pub metadata : Value

-- `dumps` with `default=str`, and `load`, of json, over the contents `L` of a file, where `none` is an
-- exception; `isoformat`, `fromisoformat`, where `none` is a `ValueError`, and `str` of datetime.
pub record Codec (L : Type 0) : Type 0 where
  pub dumps : Value → L
  pub load : L → Option Value
  pub isoformat : ℕ → String
  pub fromisoformat : String → Option ℕ
  pub str : ℕ → String

-- What json and datetime are documented to do.
pub record IsCodec {L : Type 0} (codec : Codec L) : Type 0 where
  pub load-dumps : (v : Value) → codec.load (codec.dumps v) ≡ some (written codec.str v)
  pub fromisoformat-isoformat : (t : ℕ) → codec.fromisoformat (codec.isoformat t) ≡ some t

pub record File (L : Type 0) : Type 0 where
  pub mtime : ℕ
  pub content : L

abbrev pub Directory : Type 0 → Type 0
Directory L = Dict String (File L)

-- `story_id.replace("/", "_").replace("\\", "_")`
unfoldable pub replace : Char → String → String
replace old ε = ε
replace old (c ∷ₛ s) = (if code c == code old then "_" else c) ∷ₛ replace old s

unfoldable pub get_checkpoint_path : String → String
unfolding replace
get_checkpoint_path story_id = append (replace "\\" (replace "/" story_id)) ".checkpoint.json"

-- What a save reads of a story, besides the fields of `Story`: the plan and the error's context as
-- `model_dump` gives them, and the metadata.
pub record Contents : Type 0 where
  pub plan : Option Value
  pub dump_error : ErrorContext → Value
  pub title : Option String
  pub project_id : String
  pub priority : String
  pub total_tokens_used : ℕ

abbrev pub text_or_null : Option String → Value
text_or_null none = null
text_or_null (some s) = text s

abbrev pub error_of : (ErrorContext → Value) → Option Iteration → Value
error_of dump none = null
error_of dump (some i) = get_or (Option.map dump i.error_context) null

-- `now` is in whole microseconds.
unfoldable pub checkpoint_of : ℕ → Contents → Story → StoryCheckpoint
unfolding state_value
checkpoint_of now contents story = record {
  story_id = text story.id;
  state = text (state_value story.state);
  iteration = number (length story.iterations);
  timestamp = now;
  plan_snapshot = get_or contents.plan null;
  error_context = error_of contents.dump_error (last? story.iterations);
  metadata = object (
      field "title" (text_or_null contents.title) (
        field "project_id" (text contents.project_id) (
          field "priority" (text contents.priority) (
            field "total_tokens_used" (number contents.total_tokens_used)
              (field "total_cost_usd" (number story.metadata.total_cost_usd) end)))));
}

abbrev pub terminal_states : List String
terminal_states = "DONE" ∷ "FAILED" ∷ []

-- The same two, in `cleanup_completed`.
abbrev pub cleaned_states : List String
cleaned_states = "DONE" ∷ "FAILED" ∷ []

-- `value in states`, where `none` is the `TypeError` of a value that has no hash.
unfoldable pub is_among : List String → Value → Option Bool
unfolding elem string_discrete
is_among states (text s) = some (elem string_discrete s states)
is_among states (items l) = none
is_among states (object fields) = none
is_among states _ = some false

-- `data["state"] in states`, where `none` is an exception.
unfoldable pub state_among : List String → Option Value → Option Bool
unfolding is_among value_of Option.bind
state_among states (some (object fields)) = Option.bind (value_of "state" fields) (is_among states)
state_among states _ = none

abbrev pub known_keys : List String
known_keys =
    "story_id" ∷ "state" ∷ "iteration" ∷ "timestamp" ∷ "plan_snapshot" ∷ "error_context"
    ∷ "metadata" ∷ []

-- Whether each key is a field of `StoryCheckpoint`.
unfoldable pub only_known : Fields → Bool
unfolding elem string_discrete
only_known end = true
only_known (field key v fields) = elem string_discrete key known_keys && only_known fields

-- `cls(**data)`, where `none` is the `TypeError` for a missing argument.
unfoldable pub built :
    Option Value → Option Value → Option Value → Option ℕ → Fields → Option StoryCheckpoint
unfolding value_of
built (some story_id) (some state) (some iteration) (some timestamp) fields = some (record {
  story_id = story_id;
  state = state;
  iteration = iteration;
  timestamp = timestamp;
  plan_snapshot = get_or (value_of "plan_snapshot" fields) null;
  error_context = get_or (value_of "error_context" fields) null;
  metadata = get_or (value_of "metadata" fields) (object end);
})
built _ _ _ _ fields = none

module _ {L : Type 0} (codec : Codec L) where
  unfoldable pub to_dict : StoryCheckpoint → Fields
  to_dict c = field "story_id" c.story_id (
      field "state" c.state (
        field "iteration" c.iteration (
          field "timestamp" (text (codec.isoformat c.timestamp)) (
            field "plan_snapshot" c.plan_snapshot
              (field "error_context" c.error_context (field "metadata" c.metadata end))))))

  unfoldable pub moment_of : Option Value → Option ℕ
  moment_of (some (text s)) = codec.fromisoformat s
  moment_of _ = none

  unfoldable pub from_fields : Fields → Option StoryCheckpoint
  unfolding only_known built moment_of value_of
  from_fields fields =
      if only_known fields
      then built (value_of "story_id" fields) (value_of "state" fields)
          (value_of "iteration" fields) (moment_of (value_of "timestamp" fields)) fields
      else none

  -- `none` is an exception.
  unfoldable pub from_dict : Value → Option StoryCheckpoint
  unfolding from_fields
  from_dict (object fields) = from_fields fields
  from_dict _ = none

  unfoldable pub save_checkpoint : ℕ → Contents → Story → Directory L → Directory L
  unfolding to_dict checkpoint_of get_checkpoint_path Dict.put string_discrete
  save_checkpoint now contents story dir =
      Dict.put string_discrete (get_checkpoint_path story.id)
        (record {
          mtime = now;
          content = codec.dumps (object (to_dict (checkpoint_of now contents story)));
        })
        dir

  unfoldable pub read_file : Option (File L) → Option StoryCheckpoint
  unfolding from_dict Option.bind
  read_file none = none
  read_file (some file) = Option.bind (codec.load file.content) from_dict

  unfoldable pub load_checkpoint : String → Directory L → Option StoryCheckpoint
  unfolding read_file get_checkpoint_path Dict.get string_discrete
  load_checkpoint story_id dir =
      read_file (Dict.get string_discrete (get_checkpoint_path story_id) dir)

  unfoldable pub delete_checkpoint : String → Directory L → Directory L
  unfolding get_checkpoint_path Dict.remove string_discrete
  delete_checkpoint story_id dir = Dict.remove string_discrete (get_checkpoint_path story_id) dir

  unfoldable pub add_checkpoint :
      Option StoryCheckpoint → List StoryCheckpoint → List StoryCheckpoint
  add_checkpoint none rest = rest
  add_checkpoint (some c) rest = c ∷ rest

  -- For whether the file's state is terminal.
  unfoldable pub offered :
      Option Bool → Option StoryCheckpoint → List StoryCheckpoint → List StoryCheckpoint
  unfolding add_checkpoint
  offered (some false) c rest = add_checkpoint c rest
  offered _ c rest = rest

  -- A file in the loop of `recover_incomplete`.
  unfoldable pub recovered : Option Value → List StoryCheckpoint → List StoryCheckpoint
  unfolding state_among from_dict offered Option.bind
  recovered loaded rest =
      offered (state_among terminal_states loaded) (Option.bind loaded from_dict) rest

  unfoldable pub recover_incomplete : Directory L → List StoryCheckpoint
  unfolding recovered
  recover_incomplete [] = []
  recover_incomplete ((_, file) ∷ dir) =
      recovered (codec.load file.content) (recover_incomplete dir)

  unfoldable pub is_finished : Option Value → Bool
  unfolding state_among
  is_finished loaded = get_or (state_among cleaned_states loaded) false

  -- `file.mtime < now - max_age_hours * 3600`, and the state in the file is terminal.
  unfoldable pub is_old : ℕ → ℕ → File L → Bool
  unfolding is_finished
  is_old now max_age_hours file =
      ltb (file.mtime + max_age_hours * 3600000000) now && is_finished (codec.load file.content)

  unfoldable pub cleanup_completed : ℕ → ℕ → Directory L → Directory L × ℕ
  unfolding is_old
  cleanup_completed now max_age_hours [] = ([], 0)
  cleanup_completed now max_age_hours ((name, file) ∷ dir) =
      let (rest, deleted_count) = cleanup_completed now max_age_hours dir in
      if is_old now max_age_hours file
      then (rest, deleted_count + 1)
      else ((name, file) ∷ rest, deleted_count)
