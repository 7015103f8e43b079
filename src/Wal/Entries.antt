-- ===== src/Wal/Entries.antt =====
-- The entries of orchestrator/wal.py as lines, and what is asked of json and datetime.
use fastcoder.Base.{ℕ, ◌≡◌, refl, true, false, some}
use fastcoder.Story.{
  StoryState, received, analyzing, planning, coding, reviewing, testing, deploying, verifying, done,
  failed,
}
use fastcoder.Wal.{
  WalEntry, Document, object, Codec, state_value, state_of, verify_checksum, to_json_line,
  calculate_checksum, entry, from_json_dict, parse, sealed,
}
use text.Mathlib.TextEquality.{eq_iff}

-- What is documented of `json`, of `datetime` and of lines: what is written can be read, a document
-- is written as a line that is not blank, and `strip` strips all there is.
pub record IsCodec {L : Type 0} (codec : Codec L) : Type 0 where
  pub loads-dumps : (d : Document) → codec.loads (codec.dumps d) ≡ object d
  pub fromisoformat-isoformat : (t : ℕ) → codec.fromisoformat (codec.isoformat t) ≡ some t
  pub strip-dumps : (d : Document) → codec.strip (codec.dumps d) ≡ codec.dumps d
  pub is_empty-dumps : (d : Document) → codec.is_empty (codec.dumps d) ≡ false
  pub join-empty : (l : L) → codec.join codec.empty l ≡ l
  pub strip-empty : codec.strip codec.empty ≡ codec.empty
  pub is_empty-empty : codec.is_empty codec.empty ≡ true
  pub strip-strip : (l : L) → codec.strip (codec.strip l) ≡ codec.strip l

pub state_of-state_value : (s : StoryState) → state_of (state_value s) ≡ some s
unfolding state_of state_value
state_of-state_value received = refl
state_of-state_value analyzing = refl
state_of-state_value planning = refl
state_of-state_value coding = refl
state_of-state_value reviewing = refl
state_of-state_value testing = refl
state_of-state_value deploying = refl
state_of-state_value verifying = refl
state_of-state_value done = refl
state_of-state_value failed = refl

module _ {L : Type 0} (codec : Codec L) (laws : IsCodec codec) where
  pub parse-to_json_line : (e : WalEntry) → parse codec (to_json_line codec e) ≡ entry e
  unfolding parse to_json_line from_json_dict
  parse-to_json_line e =
      rw
        (
          laws.loads-dumps,
          laws.fromisoformat-isoformat,
          state_of-state_value e.state_from,
          state_of-state_value e.state_to,
        )
        refl

  pub strip-to_json_line :
      (e : WalEntry) → codec.strip (to_json_line codec e) ≡ to_json_line codec e
  unfolding to_json_line
  strip-to_json_line e = laws.strip-dumps _

  pub is_empty-to_json_line : (e : WalEntry) → codec.is_empty (to_json_line codec e) ≡ false
  unfolding to_json_line
  is_empty-to_json_line e = laws.is_empty-dumps _

pub verify_checksum-sealed :
    {L : Type 0} (codec : Codec L) (e : WalEntry) → verify_checksum codec (sealed codec e) ≡ true
unfolding verify_checksum calculate_checksum
verify_checksum-sealed codec e = (eq_iff _ _).1 refl
