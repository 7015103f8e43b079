-- ===== src/Wal/Damage.antt =====
-- What damaged lines do to the operations of orchestrator/wal.py.
use fastcoder.Base.{
  if◌then◌else◌, false, Bool, true, sym, ℕ, String, ◌≡◌, refl, ap, ◌∙◌, ◌⊎◌, ◌≢◌, inl, inr, List,
  [], ◌∷◌, ◌++◌, Bool-cases, Option, none, some,
}
use fastcoder.Wal.{
  WalEntry, Document, object, of_json, Codec, verify_checksum, to_json_line, parse, value_error,
  key_error, sealed, Parsed, calculate_checksum, WriteAheadLog, append, file_lines, Entries,
  incomplete, absorb, absorb_line, collect, recover, keep, keep_line, remaining, truncate, select,
  select_line, entries_among, get_entries,
}
use fastcoder.Wal.Lines.{
  Lacks, IsIllFormed, Skips, IsDamaged, not_json, keyless, ill_formed, forged, Lacks-Skips,
  IsIllFormed-Skips, Lacks-key_error,
}
use mathlib.Core.Option
use mathlib.Core.List.{append_assoc}
use text.Mathlib.TextEquality.{eq_iff}

module _ {L : Type 0} (codec : Codec L) where
  verify_checksum-forged :
      (e : WalEntry) → e.checksum ≢ calculate_checksum codec e → verify_checksum codec e ≡ false
  unfolding verify_checksum
  verify_checksum-forged e wrong = by_test (Bool-cases (verify_checksum codec e))
    where
      by_test :
          (verify_checksum codec e ≡ true) ⊎ (verify_checksum codec e ≡ false)
          → verify_checksum codec e ≡ false
      by_test (inl h) = absurd (wrong ((eq_iff e.checksum (calculate_checksum codec e)).0 h))
      by_test (inr h) = h

  absorb-Skips : (p : Parsed) (d : Entries) → Skips p → absorb codec p d ≡ some d
  unfolding absorb
  absorb-Skips p d (inl e) = rw e refl
  absorb-Skips p d (inr e) = rw e refl

  parse-object :
      (line : L) (o : Document)
      → codec.loads line ≡ object o
      → parse codec line ≡ of_json codec (object o)
  unfolding parse
  parse-object line o e = ap (of_json codec) e

  absorb-damaged :
      (line : L) (d : Entries)
      → IsDamaged codec line
      → absorb codec (parse codec (codec.strip line)) d ≡ some d
  unfolding absorb parse
  absorb-damaged line d (not_json e) = rw e refl
  absorb-damaged line d (keyless o e h) =
      rw e (absorb-Skips (of_json codec (object o)) d (Lacks-Skips codec o h))
  absorb-damaged line d (ill_formed o e h) =
      rw e (absorb-Skips (of_json codec (object o)) d (IsIllFormed-Skips codec o h))
  absorb-damaged line d (forged x e v) = rw (e, verify_checksum-forged x v) refl

  skips-of_absorb :
      (line : L) (d : Entries)
      → absorb codec (parse codec (codec.strip line)) d ≡ some d
      → absorb_line codec line d ≡ some d
  unfolding absorb_line
  skips-of_absorb line d h = by_blank (codec.is_empty (codec.strip line))
    where
      by_blank :
          (b : Bool)
          → (if b then some d else absorb codec (parse codec (codec.strip line)) d) ≡ some d
      by_blank true = refl
      by_blank false = h

  collect-ignored :
      (before after : List L) (line : L) (d : Entries)
      → ((d : Entries) → absorb_line codec line d ≡ some d)
      → collect codec (before ++ line ∷ after) d ≡ collect codec (before ++ after) d
  unfolding collect Option.bind
  collect-ignored [] after line d h = ap (λ x. Option.bind x (collect codec after)) (h d)
  collect-ignored (l ∷ before) after line d h =
      by_line (absorb_line codec l d) (λ d'. collect-ignored before after line d' h)
    where
      by_line :
          (o : Option Entries)
          → ((d' : Entries)
              → collect codec (before ++ line ∷ after) d' ≡ collect codec (before ++ after) d')
          → Option.bind o (collect codec (before ++ line ∷ after))
            ≡ Option.bind o (collect codec (before ++ after))
      by_line none k = refl
      by_line (some d') k = k d'

  recover-ignored :
      (log log' : WriteAheadLog L) (before after : List L) (line : L)
      → file_lines codec log ≡ before ++ line ∷ after
      → file_lines codec log' ≡ before ++ after
      → ((d : Entries) → absorb codec (parse codec (codec.strip line)) d ≡ some d)
      → recover codec log ≡ recover codec log'
  unfolding recover
  recover-ignored log log' before after line e e' h =
      ap (λ ls. Option.map incomplete (collect codec ls [])) e
      ∙ ap (Option.map incomplete)
          (collect-ignored before after line [] (λ d. skips-of_absorb line d (h d)))
      ∙ ap (λ ls. Option.map incomplete (collect codec ls [])) (sym e')

  -- A line that is no JSON, an object of texts that lacks a required key or has a timestamp or a state
  -- that is none, and an entry whose checksum is not that of its contents cost nothing but
  -- themselves: wherever such a line stands in the file, `recover` returns what it returns for a file
  -- that lacks the line.
  pub recover-damaged :
      (log log' : WriteAheadLog L) (before after : List L) (line : L)
      → file_lines codec log ≡ before ++ line ∷ after
      → file_lines codec log' ≡ before ++ after
      → IsDamaged codec line
      → recover codec log ≡ recover codec log'
  recover-damaged log log' before after line e e' h =
      recover-ignored log log' before after line e e' (λ d. absorb-damaged line d h)

-- When an earlier write was cut off inside its line, the next entry is written behind what is left of
-- it: if that line cannot be read, `recover` returns what it returned before the entry was appended,
-- less the line that was cut off.
pub recover-append-torn :
    {L : Type 0} (codec : Codec L) (log : WriteAheadLog L) (e : WalEntry)
    → parse codec (codec.strip (codec.join log.tail (to_json_line codec (sealed codec e))))
      ≡ value_error
    → recover codec (append codec log e) ≡ recover codec (record log { tail = codec.empty })
unfolding append
recover-append-torn codec log e h =
    recover-ignored codec (append codec log e) (record log { tail = codec.empty }) log.lines
      (codec.empty ∷ []) (codec.join log.tail (to_json_line codec (sealed codec e)))
      (append_assoc log.lines _ _) refl (λ d. absorb-Skips codec _ d (inl h))

module _ {L : Type 0} (codec : Codec L) (line : L)
    (visible : codec.is_empty (codec.strip line) ≡ false)
    (lacks : parse codec (codec.strip line) ≡ key_error) where
  keep_line-lacking :
      (checkpointed : List String) (o : Option (List L × ℕ))
      → Option.bind o (keep_line codec checkpointed line) ≡ none
  unfolding Option.bind keep_line keep
  keep_line-lacking checkpointed none = refl
  keep_line-lacking checkpointed (some (ls, n)) = rw (visible, lacks) refl

  remaining-lacking :
      (checkpointed : List String) (before after : List L)
      → remaining codec checkpointed (before ++ line ∷ after) ≡ none
  unfolding remaining
  remaining-lacking checkpointed [] after =
      keep_line-lacking checkpointed (remaining codec checkpointed after)
  remaining-lacking checkpointed (l ∷ before) after =
      ap (λ o. Option.bind o (keep_line codec checkpointed l))
        (remaining-lacking checkpointed before after)
      ∙ (unfold Option.bind in refl)

  select_line-lacking :
      (s : String) (o : Option (List WalEntry)) → Option.bind o (select_line codec s line) ≡ none
  unfolding Option.bind select_line select
  select_line-lacking s none = refl
  select_line-lacking s (some rest) = rw (visible, lacks) refl

  entries_among-lacking :
      (s : String) (before after : List L) → entries_among codec s (before ++ line ∷ after) ≡ none
  unfolding entries_among
  entries_among-lacking s [] after = select_line-lacking s (entries_among codec s after)
  entries_among-lacking s (l ∷ before) after =
      ap (λ o. Option.bind o (select_line codec s l)) (entries_among-lacking s before after)
      ∙ (unfold Option.bind in refl)

-- A line that is not blank and holds a JSON object of texts without one of the required keys, whose
-- other values are well formed, is skipped by `recover`, which returns what it returns for a file that lacks
-- the line, but makes `truncate` and `get_entries` raise, wherever it stands in the file.
pub truncate-lacking :
    {L : Type 0} (codec : Codec L) (log log' : WriteAheadLog L) (before after : List L) (line : L)
    (d : Document)
    → file_lines codec log ≡ before ++ line ∷ after
    → file_lines codec log' ≡ before ++ after
    → codec.is_empty (codec.strip line) ≡ false
    → codec.loads (codec.strip line) ≡ object d
    → Lacks d
    → ¬ IsIllFormed codec d
    → (recover codec log ≡ recover codec log')
      × (truncate codec log ≡ none)
      × ((s : String) → get_entries codec log s ≡ none)
unfolding truncate get_entries
truncate-lacking codec log log' before after line d e e' v holds lacks fit =
    let k : parse codec (codec.strip line) ≡ key_error =
      parse-object codec (codec.strip line) d holds ∙ Lacks-key_error codec d lacks fit in
    (
      recover-damaged codec log log' before after line e e' (keyless d holds lacks),
      rw (e, remaining-lacking codec line v k log.checkpointed_stories before after) refl,
      λ s. ap (entries_among codec s) e ∙ entries_among-lacking codec line v k s before after,
    )
