-- ===== src/Wal/Examples.antt =====
-- A log over a codec whose lines are lists of documents: a list of one can be read.
use fastcoder.Base.{
  ℕ, zero, suc, String, ◌≡◌, refl, ap, ◌∙◌, Bool, true, false, List, [], ◌∷◌, ◌++◌, map, none, some,
  sym, inl, inr, elem, string_discrete,
}
use fastcoder.Story.{coding, planning, done, verifying}
use fastcoder.Wal.{
  WalEntry, Document, Json, malformed, object, Codec, WriteAheadLog, append, new, recover, truncate,
  get_entries, sealed, parse, from_json_dict, to_json_line, state_value, calculate_checksum,
  remaining, rewrite, keep_line, keep, state_of, entries_among, select_line, select,
  verify_checksum,
}
use fastcoder.Wal.Entries.{IsCodec}
use fastcoder.Wal.Grouping.{of_story, recoverable}
use fastcoder.Wal.Recovery.{append_all, recover-append_all}
use fastcoder.Wal.Truncation.{get_entries-truncate}
use fastcoder.Wal.Damage.{recover-append-torn, truncate-lacking, recover-damaged}
use fastcoder.Wal.Lines.{not_json, IsIllFormed}
use mathlib.Core.Option
use mathlib.Core.Option.{none-ne-some, some-injective}
use Prim.Native.String.{count, ◌∷◌ as ◌∷ₛ◌}
use Prim.Native.String.count

abbrev Line : Type 0
Line = List Document

abbrev read : Line → Json
read (d ∷ []) = object d
read _ = malformed

abbrev none_in : Line → Bool
none_in [] = true
none_in (d ∷ ds) = false

unfoldable marks : ℕ → String
marks zero = ""
marks (suc n) = "a" ∷ₛ marks n

count-marks : (n : ℕ) → count (marks n) ≡ n
unfolding marks
count-marks zero = count.nil
count-marks (suc n) = count.cons "a" (marks n) ∙ ap suc (count-marks n)

abbrev codec : Codec Line
codec = record {
  dumps = λ d. d ∷ [];
  loads = read;
  isoformat = marks;
  fromisoformat = λ s. some (count s);
  sha256 = λ s. s;
  empty = [];
  is_empty = none_in;
  join = λ a b. a ++ b;
  strip = λ l. l;
}

codec-IsCodec : IsCodec codec
codec-IsCodec = record {
  loads-dumps = λ d. refl;
  fromisoformat-isoformat = λ n. ap some (count-marks n);
  strip-dumps = λ d. refl;
  is_empty-dumps = λ d. refl;
  join-empty = λ l. refl;
  strip-empty = refl;
  is_empty-empty = refl;
  strip-strip = λ l. refl;
}

abbrev moves_to_coding : WalEntry
moves_to_coding = record {
  story_id = "s1";
  timestamp = 2;
  state_from = planning;
  state_to = coding;
  metadata = "{}";
  checksum = "";
}

abbrev is_done : WalEntry
is_done = record {
  story_id = "s2";
  timestamp = 3;
  state_from = verifying;
  state_to = done;
  metadata = "{}";
  checksum = "";
}

abbrev two : List WalEntry
two = moves_to_coding ∷ is_done ∷ []

recover-append_all_example :
    Option.map (of_story "s1") (recover codec (append_all codec (new codec) two))
    ≡ some (recoverable (of_story "s1" (map (sealed codec) two)))
recover-append_all_example = recover-append_all codec codec-IsCodec two "s1"

abbrev keyless : Document
keyless = record {
  story_id = none;
  timestamp = none;
  state_from = none;
  state_to = none;
  metadata = none;
  checksum = none;
}

-- A line of two documents cannot be read.
abbrev torn : Line
torn = keyless ∷ keyless ∷ []

abbrev with_torn : WriteAheadLog Line
with_torn = record { lines = torn ∷ []; tail = []; checkpointed_stories = [] }

recover-damaged_example : recover codec with_torn ≡ recover codec (new codec)
recover-damaged_example =
    recover-damaged codec with_torn (new codec) [] ([] ∷ []) torn refl refl (not_json refl)

abbrev cut_off : WriteAheadLog Line
cut_off = record { lines = []; tail = keyless ∷ []; checkpointed_stories = [] }

recover-append-torn_example :
    recover codec (append codec cut_off moves_to_coding)
    ≡ recover codec (record cut_off { tail = [] })
recover-append-torn_example =
    recover-append-torn codec cut_off moves_to_coding (unfold parse to_json_line in refl)

-- Everything is there but the state that the story leaves.
abbrev from_nowhere : Document
from_nowhere = record keyless {
  story_id = some "s1";
  timestamp = some "aa";
  state_to = some "CODING";
}

from_nowhere-fit : ¬ IsIllFormed codec from_nowhere
from_nowhere-fit (inl (text, e, f)) = none-ne-some _ (sym f)
from_nowhere-fit (inr (inl (text, e, f))) = none-ne-some _ e
from_nowhere-fit (inr (inr (text, e, f))) =
    none-ne-some _ (sym f ∙ ap state_of (sym (some-injective _ _ e)) ∙ known)
  where
    known : state_of "CODING" ≡ some coding
    known = unfold state_of state_value in refl

abbrev with_lacking : WriteAheadLog Line
with_lacking = record { lines = (from_nowhere ∷ []) ∷ []; tail = []; checkpointed_stories = [] }

truncate-lacking_example :
    (recover codec with_lacking ≡ recover codec (new codec))
    × (truncate codec with_lacking ≡ none)
    × ((s : String) → get_entries codec with_lacking s ≡ none)
truncate-lacking_example =
    truncate-lacking codec with_lacking (new codec) [] ([] ∷ []) (from_nowhere ∷ []) from_nowhere
      refl refl refl refl (inr (inr (inl refl))) from_nowhere-fit

abbrev line_of : WalEntry → Line
line_of e = to_json_line codec (sealed codec e)

abbrev full : WriteAheadLog Line
full = record {
  lines = line_of moves_to_coding ∷ torn ∷ line_of is_done ∷ [];
  tail = [];
  checkpointed_stories = "s2" ∷ [];
}

-- The line of the other story goes; the one that cannot be read stays.
abbrev shrunk : WriteAheadLog Line
shrunk = record full { lines = line_of moves_to_coding ∷ torn ∷ [] }

one_removed : truncate codec full ≡ some (shrunk, 1)
unfolding truncate parse remaining Option.bind keep_line keep rewrite to_json_line from_json_dict
    state_of state_value calculate_checksum marks elem string_discrete
one_removed = refl

get_entries-truncate_example : get_entries codec shrunk "s1" ≡ get_entries codec full "s1"
get_entries-truncate_example =
    get_entries-truncate codec codec-IsCodec full shrunk 1 "s1" one_removed
      (unfold elem string_discrete in refl)

found : get_entries codec shrunk "s1" ≡ some (sealed codec moves_to_coding ∷ [])
unfolding get_entries entries_among select_line select verify_checksum parse Option.bind
    to_json_line from_json_dict state_of state_value calculate_checksum marks string_discrete
found = refl
