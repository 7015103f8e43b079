-- ===== src/Wal/Lines.antt =====
-- The lines of orchestrator/wal.py that hold no entry.
use fastcoder.Base.{String, ◌≡◌, refl, ap, sym, ◌∙◌, ◌≢◌, ◌⊎◌, inl, inr, Option, none, some}
use fastcoder.Wal.{
  WalEntry, Document, malformed, object, Codec, state_of, Parsed, converted, required, parse, entry,
  value_error, key_error, calculate_checksum, from_json_dict,
}
use mathlib.Core.Option.{none-ne-some}

-- An object that lacks a required key.
abbrev pub Lacks : Document → Type 0
Lacks d = (d.story_id ≡ none) ⊎ (d.timestamp ≡ none) ⊎ (d.state_from ≡ none) ⊎ (d.state_to ≡ none)

-- A value that is there, but cannot be converted.
abbrev pub IsUnfit : {A : Type 0} → Option String → (String → Option A) → Type 0
IsUnfit o convert = (text : String) × (o ≡ some text) × (convert text ≡ none)

-- An object with a timestamp that is none, or a state that is none.
abbrev pub IsIllFormed : {L : Type 0} → Codec L → Document → Type 0
IsIllFormed codec d =
    IsUnfit d.timestamp codec.fromisoformat
    ⊎ IsUnfit d.state_from state_of
    ⊎ IsUnfit d.state_to state_of

pub data IsDamaged {L : Type 0} (codec : Codec L) (line : L) : Type 0 where
  not_json : codec.loads (codec.strip line) ≡ malformed → IsDamaged codec line
  keyless :
      (d : Document) → codec.loads (codec.strip line) ≡ object d → Lacks d → IsDamaged codec line
  ill_formed :
      (d : Document)
      → codec.loads (codec.strip line) ≡ object d
      → IsIllFormed codec d
      → IsDamaged codec line
  forged :
      (e : WalEntry)
      → parse codec (codec.strip line) ≡ entry e
      → e.checksum ≢ calculate_checksum codec e
      → IsDamaged codec line

abbrev pub Skips : Parsed → Type 0
Skips p = (p ≡ value_error) ⊎ (p ≡ key_error)

required-Skips :
    {A : Type 0} (o : Option String) (convert : String → Option A) (rest : A → Parsed)
    → ((a : A) → Skips (rest a))
    → Skips (required o convert rest)
required-Skips none convert rest h = inr refl
required-Skips {A = A} (some text) convert rest h = by_value (convert text)
  where
    by_value : (v : Option A) → Skips (converted v rest)
    by_value none = inl refl
    by_value (some a) = h a

required-unfit :
    {A : Type 0} (o : Option String) (convert : String → Option A) (rest : A → Parsed)
    → IsUnfit o convert
    → Skips (required o convert rest)
required-unfit o convert rest (text, e, f) =
    inl (ap (λ x. required x convert rest) e ∙ ap (λ v. converted v rest) f)

required-key_error :
    {A : Type 0} (o : Option String) (convert : String → Option A) (rest : A → Parsed)
    → ¬ IsUnfit o convert
    → ((a : A) → rest a ≡ key_error)
    → required o convert rest ≡ key_error
required-key_error none convert rest fit h = refl
required-key_error {A = A} (some text) convert rest fit h = by_value (convert text) refl
  where
    by_value : (v : Option A) → convert text ≡ v → converted v rest ≡ key_error
    by_value none e = absurd (fit (text, refl, e))
    by_value (some a) e = h a

missing :
    {A : Type 0} (o : Option String) (convert : String → Option A) (rest : A → Parsed)
    → o ≡ none
    → required o convert rest ≡ key_error
missing o convert rest e = ap (λ x. required x convert rest) e

-- Any text can be a story's id.
some_fits : {o : Option String} → ¬ IsUnfit o some
some_fits (text, e, f) = none-ne-some _ (sym f)

module _ {L : Type 0} (codec : Codec L) where
  pub Lacks-Skips : (d : Document) → Lacks d → Skips (from_json_dict codec d)
  unfolding from_json_dict
  Lacks-Skips d (inl h) = inr (missing d.story_id some _ h)
  Lacks-Skips d (inr (inl h)) =
      required-Skips d.story_id some _ (λ _. inr (missing d.timestamp codec.fromisoformat _ h))
  Lacks-Skips d (inr (inr (inl h))) = required-Skips d.story_id some _ λ _.
      required-Skips d.timestamp codec.fromisoformat _ λ _. inr (missing d.state_from state_of _ h)
  Lacks-Skips d (inr (inr (inr h))) = required-Skips d.story_id some _ λ _.
      required-Skips d.timestamp codec.fromisoformat _
        λ _. required-Skips d.state_from state_of _ λ _. inr (missing d.state_to state_of _ h)

  pub IsIllFormed-Skips : (d : Document) → IsIllFormed codec d → Skips (from_json_dict codec d)
  unfolding from_json_dict
  IsIllFormed-Skips d (inl h) =
      required-Skips d.story_id some _ λ _. required-unfit d.timestamp codec.fromisoformat _ h
  IsIllFormed-Skips d (inr (inl h)) = required-Skips d.story_id some _ λ _.
      required-Skips d.timestamp codec.fromisoformat _ λ _. required-unfit d.state_from state_of _ h
  IsIllFormed-Skips d (inr (inr h)) = required-Skips d.story_id some _ λ _.
      required-Skips d.timestamp codec.fromisoformat _
        λ _. required-Skips d.state_from state_of _ λ _. required-unfit d.state_to state_of _ h

  pub Lacks-key_error :
      (d : Document) → Lacks d → ¬ IsIllFormed codec d → from_json_dict codec d ≡ key_error
  unfolding from_json_dict
  Lacks-key_error d (inl h) fit = missing d.story_id some _ h
  Lacks-key_error d (inr (inl h)) fit =
      required-key_error d.story_id some _ some_fits
        (λ _. missing d.timestamp codec.fromisoformat _ h)
  Lacks-key_error d (inr (inr (inl h))) fit = required-key_error d.story_id some _ some_fits λ _.
      required-key_error d.timestamp codec.fromisoformat _ (λ u. fit (inl u))
        λ _. missing d.state_from state_of _ h
  Lacks-key_error d (inr (inr (inr h))) fit = required-key_error d.story_id some _ some_fits λ _.
      required-key_error d.timestamp codec.fromisoformat _ (λ u. fit (inl u))
        λ _.
          required-key_error d.state_from state_of _ (λ u. fit (inr (inl u)))
            λ _. missing d.state_to state_of _ h
