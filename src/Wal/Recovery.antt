-- ===== src/Wal/Recovery.antt =====
-- `recover` of orchestrator/wal.py after appends.
use fastcoder.Base.{String, ◌≡◌, refl, sym, ap, ◌∙◌, List, [], ◌∷◌, ◌++◌, map, some}
use fastcoder.Base.Dict
use fastcoder.Base.Dict.{IsUnique, put-IsUnique, get-put}
use fastcoder.Wal.{
  WalEntry, Codec, to_json_line, sealed, WriteAheadLog, append, new, Entries, add_entry, absorb,
  absorb_line, collect, recover,
}
use fastcoder.Wal.Entries.{
  IsCodec, parse-to_json_line, strip-to_json_line, is_empty-to_json_line, verify_checksum-sealed,
}
use mathlib.Core.Option
use mathlib.Core.Option.{get_or}
use mathlib.Core.List.{append_assoc, append-nil}
use fastcoder.Wal.Grouping.{
  of_story, group, group-add_all, add_all, IsGrouped, empty-IsGrouped, add_all-IsGrouped,
  recoverable, of_story-incomplete,
}

-- A line for each entry, and nothing behind the last line feed.
written : {L : Type 0} → Codec L → List WalEntry → List L
written codec [] = []
written codec (e ∷ es) = to_json_line codec (sealed codec e) ∷ written codec es

unfoldable pub append_all :
    {L : Type 0} → Codec L → WriteAheadLog L → List WalEntry → WriteAheadLog L
append_all codec log [] = log
append_all codec log (e ∷ es) = append_all codec (append codec log e) es

module _ {L : Type 0} (codec : Codec L) (laws : IsCodec codec) where
  absorb_line-to_json_line :
      (e : WalEntry) (d : Entries)
      → absorb_line codec (to_json_line codec (sealed codec e)) d
        ≡ some (add_entry (sealed codec e) d)
  unfolding absorb_line absorb
  absorb_line-to_json_line e d =
      rw
        (
          strip-to_json_line codec laws,
          is_empty-to_json_line codec laws,
          parse-to_json_line codec laws,
          verify_checksum-sealed codec e,
        )
        refl

  collect-written :
      (es : List WalEntry) (d : Entries)
      → collect codec (written codec es ++ codec.empty ∷ []) d
        ≡ some (add_all d (map (sealed codec) es))
  unfolding collect written add_all absorb_line Option.bind
  collect-written [] d = rw (laws.strip-empty, laws.is_empty-empty) refl
  collect-written (e ∷ es) d =
      ap (λ x. Option.bind x (collect codec (written codec es ++ codec.empty ∷ [])))
        (absorb_line-to_json_line e d)
      ∙ collect-written es (add_entry (sealed codec e) d)

  append_all-written :
      (es : List WalEntry) (lines : List L) (checkpointed : List String)
      → append_all codec
          (record { lines = lines; tail = codec.empty; checkpointed_stories = checkpointed })
          es
        ≡ record {
          lines = lines ++ written codec es;
          tail = codec.empty;
          checkpointed_stories = checkpointed;
        }
  unfolding append_all append written
  append_all-written [] lines checkpointed =
      ap (λ ls. record { lines = ls; tail = codec.empty; checkpointed_stories = checkpointed })
        (sym (append-nil lines))
  append_all-written (e ∷ es) lines checkpointed = rw laws.join-empty (
      append_all-written es (lines ++ to_json_line codec (sealed codec e) ∷ []) checkpointed
      ∙ ap (λ ls. record { lines = ls; tail = codec.empty; checkpointed_stories = checkpointed })
          (append_assoc lines _ _))

  -- With json, datetime and lines as documented, after entries have been appended to an empty log, `recover` raises nothing, and returns for each
  -- story all of its entries, in their order and with their checksums, if the last one does not lead
  -- to `done` or `failed`, and none otherwise.
  pub recover-append_all :
      (es : List WalEntry) (s : String)
      → Option.map (of_story s) (recover codec (append_all codec (new codec) es))
        ≡ some (recoverable (of_story s (map (sealed codec) es)))
  unfolding recover
  recover-append_all es s =
      rw (append_all-written es [] [], collect-written es [])
        (ap some (
          of_story-incomplete s (add_all [] (map (sealed codec) es)) grouped.unique grouped.filed
          ∙ ap recoverable (group-add_all s (map (sealed codec) es) [] ∙ none_before)))
    where
      grouped : IsGrouped (add_all [] (map (sealed codec) es))
      grouped = add_all-IsGrouped (map (sealed codec) es) [] empty-IsGrouped

      none_before :
          group s [] ++ of_story s (map (sealed codec) es) ≡ of_story s (map (sealed codec) es)
      none_before = unfold Dict.get in refl
