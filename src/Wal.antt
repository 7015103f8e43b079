-- ===== src/Wal.antt =====
-- orchestrator/wal.py: the write-ahead log of the transitions of stories. A file is its lines and
-- the text after the last line feed, both empty where there is no file; reads and writes of it do
-- not fail. json, hashlib and datetime are parameters, in `Codec`, with the type of the texts that
-- json writes. The metadata of an entry is one JSON text.
pub mod Entries
pub mod Grouping
pub mod Recovery
pub mod Truncation
pub mod Lines
pub mod Damage
mod Examples
use fastcoder.Base.{
  ℕ, zero, suc, String, Bool, true, false, List, [], ◌∷◌, ◌++◌, Option, none, some, ◌+◌,
  if◌then◌else◌, ite, elem, string_discrete, last?,
}
use fastcoder.Base.Dict
use fastcoder.Base.Dict.{Dict}
use fastcoder.Story.{
  StoryState, received, analyzing, planning, coding, reviewing, testing, deploying, verifying, done,
  failed,
}
use mathlib.Core.Option
use mathlib.Core.Option.{get_or}
use Prim.Native.String.{◌++◌ as str_append}
use text.Mathlib.Text.{◌==◌ as str_eq}

pub record WalEntry : Type 0 where
  pub story_id : String
  pub timestamp : ℕ
  pub state_from : StoryState
  pub state_to : StoryState
  pub metadata : String
  pub checksum : String

-- A JSON object, by the keys that are read; a missing key is `none`.
pub record Document : Type 0 where
  pub story_id : Option String
  pub timestamp : Option String
  pub state_from : Option String
  pub state_to : Option String
  pub metadata : Option String
  pub checksum : Option String

-- What `json.loads` makes of a line: a `JSONDecodeError`, another value than an object, an object.
pub data Json : Type 0 where
  malformed not_object : Json
  object : Document → Json

-- `dumps` and `loads` of json, over lines of the type `L`; `isoformat` and `fromisoformat` of
-- datetime, where `none` is a `ValueError`; the hexadecimal SHA-256 of a text; and of lines, the
-- empty one, the test for it, the line with another behind it, and `strip`.
pub record Codec (L : Type 0) : Type 0 where
  pub dumps : Document → L
  pub loads : L → Json
  pub isoformat : ℕ → String
  pub fromisoformat : String → Option ℕ
  pub sha256 : String → String
  pub empty : L
  pub is_empty : L → Bool
  pub join : L → L → L
  pub strip : L → L

unfoldable pub state_value : StoryState → String
state_value received = "RECEIVED"
state_value analyzing = "ANALYZING"
state_value planning = "PLANNING"
state_value coding = "CODING"
state_value reviewing = "REVIEWING"
state_value testing = "TESTING"
state_value deploying = "DEPLOYING"
state_value verifying = "VERIFYING"
state_value done = "DONE"
state_value failed = "FAILED"

abbrev pub states : List StoryState
states =
    received ∷ analyzing ∷ planning ∷ coding ∷ reviewing ∷ testing ∷ deploying ∷ verifying ∷ done
    ∷ failed ∷ []

unfoldable pub state_among : List StoryState → String → Option StoryState
unfolding state_value
state_among [] value = none
state_among (s ∷ ss) value = if str_eq (state_value s) value then some s else state_among ss value

-- `StoryState(value)`, where `none` is a `ValueError`.
unfoldable pub state_of : String → Option StoryState
unfolding state_among
state_of value = state_among states value

-- What a line gives: an entry, or a `ValueError` (a `JSONDecodeError` is one), a `KeyError`, or a
-- `TypeError`.
pub data Parsed : Type 0 where
  entry : WalEntry → Parsed
  value_error key_error type_error : Parsed

abbrev pub converted : {A : Type 0} → Option A → (A → Parsed) → Parsed
converted none rest = value_error
converted (some a) rest = rest a

-- `data[key]`, and what is made of the value.
abbrev pub required : {A : Type 0} → Option String → (String → Option A) → (A → Parsed) → Parsed
required none convert rest = key_error
required (some text) convert rest = converted (convert text) rest

pub record WriteAheadLog (L : Type 0) : Type 0 where
  pub lines : List L
  pub tail : L
  pub checkpointed_stories : List String

abbrev pub Entries : Type 0
Entries = Dict String (List WalEntry)

-- `if entry.story_id not in all_entries: ... = []`, then `all_entries[entry.story_id].append(entry)`
unfoldable pub add_entry : WalEntry → Entries → Entries
add_entry e d =
    Dict.put string_discrete e.story_id
      (get_or (Dict.get string_discrete e.story_id d) [] ++ e ∷ []) d

abbrev pub is_open : Option WalEntry → Bool
is_open none = false
is_open (some e) = elim e.state_to [ done ↦ false | failed ↦ false | _ ↦ true ]

-- The loop that filters to incomplete stories.
unfoldable pub incomplete : Entries → List WalEntry
incomplete [] = []
incomplete ((story_id, entries) ∷ d) =
    (if is_open (last? entries) then entries else []) ++ incomplete d

unfoldable pub checkpoint : {L : Type 0} → WriteAheadLog L → String → WriteAheadLog L
checkpoint log story_id = record log { checkpointed_stories = story_id ∷ log.checkpointed_stories }

-- A line of the loop of `truncate`: the lines that remain, and how many were removed.
unfoldable pub keep : {L : Type 0} → List String → L → Parsed → List L × ℕ → Option (List L × ℕ)
keep checkpointed line (entry e) (lines, n) =
    some
      (if elem string_discrete e.story_id checkpointed then (lines, n + 1) else (line ∷ lines, n))
keep checkpointed line value_error (lines, n) = some (line ∷ lines, n)
keep checkpointed line key_error rest = none
keep checkpointed line type_error rest = none

module _ {L : Type 0} (codec : Codec L) where
  -- `calculate_checksum`
  unfoldable pub calculate_checksum : WalEntry → String
  unfolding state_value
  calculate_checksum e = codec.sha256 (
      str_append e.story_id (
        str_append "|" (
          str_append (codec.isoformat e.timestamp) (
            str_append "|" (
              str_append (state_value e.state_from) (
                str_append "|"
                  (str_append (state_value e.state_to) (str_append "|" e.metadata))))))))

  unfoldable pub verify_checksum : WalEntry → Bool
  verify_checksum e = str_eq e.checksum (calculate_checksum e)

  unfoldable pub to_json_line : WalEntry → L
  to_json_line e = codec.dumps (record {
    story_id = some e.story_id;
    timestamp = some (codec.isoformat e.timestamp);
    state_from = some (state_value e.state_from);
    state_to = some (state_value e.state_to);
    metadata = some e.metadata;
    checksum = some e.checksum;
  })

  unfoldable pub from_json_dict : Document → Parsed
  from_json_dict d = required d.story_id some λ story_id.
      required d.timestamp codec.fromisoformat λ timestamp.
        required d.state_from state_of λ state_from. required d.state_to state_of λ state_to.
          entry (record {
            story_id = story_id;
            timestamp = timestamp;
            state_from = state_from;
            state_to = state_to;
            metadata = get_or d.metadata "{}";
            checksum = get_or d.checksum "";
          })

  abbrev pub of_json : Json → Parsed
  of_json malformed = value_error
  of_json not_object = type_error
  of_json (object d) = from_json_dict d

  -- `WALEntry.from_json_dict(json.loads(line))`
  unfoldable pub parse : L → Parsed
  parse line = of_json (codec.loads line)

  abbrev pub new : WriteAheadLog L
  new = record { lines = []; tail = codec.empty; checkpointed_stories = [] }

  -- The lines that a loop over the file sees: the last one may lack its line feed.
  abbrev pub file_lines : WriteAheadLog L → List L
  file_lines log = log.lines ++ log.tail ∷ []

  abbrev pub sealed : WalEntry → WalEntry
  sealed e = record e { checksum = calculate_checksum e }

  -- The line is written behind what the file ends in.
  unfoldable pub append : WriteAheadLog L → WalEntry → WriteAheadLog L
  append log e = record log {
    lines = log.lines ++ codec.join log.tail (to_json_line (sealed e)) ∷ [];
    tail = codec.empty;
  }

  -- The body of the loop of `recover` on what a line gives. `none` is an exception that is not caught.
  unfoldable pub absorb : Parsed → Entries → Option Entries
  absorb (entry e) d = some (if verify_checksum e then add_entry e d else d)
  absorb value_error d = some d
  absorb key_error d = some d
  absorb type_error d = none

  unfoldable pub absorb_line : L → Entries → Option Entries
  absorb_line line d =
      if codec.is_empty (codec.strip line) then some d else absorb (parse (codec.strip line)) d

  unfoldable pub collect : List L → Entries → Option Entries
  collect [] d = some d
  collect (line ∷ lines) d = Option.bind (absorb_line line d) (collect lines)

  unfoldable pub recover : WriteAheadLog L → Option (List WalEntry)
  recover log = Option.map incomplete (collect (file_lines log) [])

  unfoldable pub keep_line : List String → L → List L × ℕ → Option (List L × ℕ)
  keep_line checkpointed line rest =
      if codec.is_empty (codec.strip line)
      then some rest
      else keep checkpointed (codec.strip line) (parse (codec.strip line)) rest

  unfoldable pub remaining : List String → List L → Option (List L × ℕ)
  remaining checkpointed [] = some ([], 0)
  remaining checkpointed (line ∷ lines) =
      Option.bind (remaining checkpointed lines) (keep_line checkpointed line)

  -- The file is written only if something was removed.
  unfoldable pub rewrite : WriteAheadLog L → List L × ℕ → WriteAheadLog L × ℕ
  rewrite log (lines, zero) = (log, 0)
  rewrite log (lines, suc n) = (record log { lines = lines; tail = codec.empty }, suc n)

  unfoldable pub truncate : WriteAheadLog L → Option (WriteAheadLog L × ℕ)
  truncate log = Option.map (rewrite log) (remaining log.checkpointed_stories (file_lines log))

  -- A line of the loop of `get_entries`.
  unfoldable pub select : String → Parsed → List WalEntry → Option (List WalEntry)
  select story_id (entry e) rest = some (
      ite (string_discrete e.story_id story_id) (if verify_checksum e then e ∷ rest else rest) rest)
  select story_id value_error rest = some rest
  select story_id key_error rest = none
  select story_id type_error rest = none

  unfoldable pub select_line : String → L → List WalEntry → Option (List WalEntry)
  select_line story_id line rest =
      if codec.is_empty (codec.strip line)
      then some rest
      else select story_id (parse (codec.strip line)) rest

  unfoldable pub entries_among : String → List L → Option (List WalEntry)
  entries_among story_id [] = some []
  entries_among story_id (line ∷ lines) =
      Option.bind (entries_among story_id lines) (select_line story_id line)

  unfoldable pub get_entries : WriteAheadLog L → String → Option (List WalEntry)
  get_entries log story_id = entries_among story_id (file_lines log)
