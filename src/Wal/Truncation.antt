-- ===== src/Wal/Truncation.antt =====
-- `truncate` and `get_entries` of orchestrator/wal.py.
use fastcoder.Base.{
  ℕ, zero, suc, ◌+◌, String, ◌≡◌, refl, sym, ap, ◌∙◌, ◌≢◌, Bool, true, false, List, [], ◌∷◌, ◌++◌,
  Option, none, some, if◌then◌else◌, if_neg, string_discrete, elem, arith,
}
use fastcoder.Wal.{
  WalEntry, Codec, parse, Parsed, entry, value_error, key_error, type_error, WriteAheadLog,
  file_lines, keep, keep_line, remaining, rewrite, truncate, select, select_line, entries_among,
  get_entries,
}
use fastcoder.Wal.Entries.{IsCodec}
use mathlib.Core.Option
use mathlib.Core.Option.{some-injective}

bind-skip :
    {A : Type 0} (o : Option A) (f : A → Option A) → ((a : A) → f a ≡ some a) → Option.bind o f ≡ o
unfolding Option.bind
bind-skip none f h = refl
bind-skip (some a) f h = h a

module _ {L : Type 0} (codec : Codec L) (laws : IsCodec codec) (checkpointed : List String)
    (s : String) where
  -- An entry of another story than `s`.
  select-other :
      (e : WalEntry) (rest : List WalEntry)
      → e.story_id ≢ s
      → select codec s (entry e) rest ≡ some rest
  unfolding select
  select-other e rest n = rw (if_neg (string_discrete e.story_id s) n) refl

  apart :
      (e : WalEntry) (b : Bool)
      → elem string_discrete s checkpointed ≡ b
      → elem string_discrete e.story_id checkpointed ≢ b
      → e.story_id ≢ s
  apart e b h k p = k (ap (λ x. elem string_discrete x checkpointed) p ∙ h)

  -- What `select_line` does with a line of which the outcome is known.
  select_line-blank :
      (line : L) (rest : List WalEntry)
      → codec.is_empty (codec.strip line) ≡ true
      → select_line codec s line rest ≡ some rest
  unfolding select_line
  select_line-blank line rest h = rw h refl

  select_line-parsed :
      (line : L) (p : Parsed) (rest : List WalEntry)
      → codec.is_empty (codec.strip line) ≡ false
      → parse codec (codec.strip line) ≡ p
      → select_line codec s line rest ≡ select codec s p rest
  unfolding select_line
  select_line-parsed line p rest h e = rw (h, e) refl

  select_line-strip :
      (line : L) (rest : List WalEntry)
      → select_line codec s (codec.strip line) rest ≡ select_line codec s line rest
  unfolding select_line
  select_line-strip line rest = rw laws.strip-strip refl

  entries_among-skip :
      (line : L) (lines : List L)
      → ((rest : List WalEntry) → select_line codec s line rest ≡ some rest)
      → entries_among codec s (line ∷ lines) ≡ entries_among codec s lines
  unfolding entries_among
  entries_among-skip line lines h =
      bind-skip (entries_among codec s lines) (select_line codec s line) h

  entries_among-strip :
      (line : L) (lines lines' : List L)
      → entries_among codec s lines' ≡ entries_among codec s lines
      → entries_among codec s (codec.strip line ∷ lines') ≡ entries_among codec s (line ∷ lines)
  unfolding entries_among
  entries_among-strip line lines lines' e =
      by_rest (entries_among codec s lines') ∙ ap (λ x. Option.bind x (select_line codec s line)) e
    where
      by_rest :
          (o : Option (List WalEntry))
          → Option.bind o (select_line codec s (codec.strip line))
            ≡ Option.bind o (select_line codec s line)
      by_rest none = unfold Option.bind in refl
      by_rest (some rest) = unfold Option.bind in select_line-strip line rest

  -- The lines that remain hold the same entries of `s`, if it is not checkpointed.
  abbrev Kept : List L → Option (List L × ℕ) → Type 0
  Kept lines none = Unit {0}
  Kept lines (some (ls, n)) = entries_among codec s ls ≡ entries_among codec s lines

  keep-Kept :
      (line : L) (lines ls : List L) (n : ℕ) (p : Parsed)
      → elem string_discrete s checkpointed ≡ false
      → codec.is_empty (codec.strip line) ≡ false
      → parse codec (codec.strip line) ≡ p
      → Kept lines (some (ls, n))
      → Kept (line ∷ lines) (keep checkpointed (codec.strip line) p (ls, n))
  unfolding keep
  keep-Kept line lines ls n value_error h b e k = entries_among-strip line lines ls k
  keep-Kept line lines ls n key_error h b e k = tt
  keep-Kept line lines ls n type_error h b e k = tt
  keep-Kept line lines ls n (entry x) h b e k =
      by_story (elem string_discrete x.story_id checkpointed) refl
    where
      by_story :
          (c : Bool)
          → elem string_discrete x.story_id checkpointed ≡ c
          → Kept (line ∷ lines) (some (if c then (ls, n + 1) else (codec.strip line ∷ ls, n)))
      by_story true c =
          k
          ∙ sym (
              entries_among-skip line lines (λ rest.
                select_line-parsed line (entry x) rest b e
                ∙ select-other x rest (apart x false h (λ q. cc))))
      by_story false c = entries_among-strip line lines ls k

  keep_line-Kept :
      (line : L) (lines : List L) (o : Option (List L × ℕ))
      → elem string_discrete s checkpointed ≡ false
      → Kept lines o
      → Kept (line ∷ lines) (Option.bind o (keep_line codec checkpointed line))
  unfolding Option.bind keep_line
  keep_line-Kept line lines none h k = tt
  keep_line-Kept line lines (some (ls, n)) h k = by_blank (codec.is_empty (codec.strip line)) refl
    where
      by_blank :
          (b : Bool)
          → codec.is_empty (codec.strip line) ≡ b
          → Kept (line ∷ lines) (
              if b
              then some (ls, n)
              else keep checkpointed (codec.strip line) (parse codec (codec.strip line)) (ls, n))
      by_blank true b =
          k ∙ sym (entries_among-skip line lines (λ rest. select_line-blank line rest b))
      by_blank false b = keep-Kept line lines ls n (parse codec (codec.strip line)) h b refl k

  remaining-Kept :
      (lines : List L)
      → elem string_discrete s checkpointed ≡ false
      → Kept lines (remaining codec checkpointed lines)
  unfolding remaining
  remaining-Kept [] h = refl
  remaining-Kept (line ∷ lines) h =
      keep_line-Kept line lines (remaining codec checkpointed lines) h (remaining-Kept lines h)

  entries_among-end :
      (lines : List L)
      → entries_among codec s (lines ++ codec.empty ∷ []) ≡ entries_among codec s lines
  unfolding entries_among Option.bind select_line
  entries_among-end [] = select_line-blank codec.empty [] (rw laws.strip-empty laws.is_empty-empty)
  entries_among-end (line ∷ lines) =
      ap (λ x. Option.bind x (select_line codec s line)) (entries_among-end lines)

-- With json, datetime and lines as documented, truncating the log loses nothing of a story that is not
-- checkpointed: if it raises nothing, then
-- `get_entries` returns for the story what it returned before, whatever lines the file holds.
pub get_entries-truncate :
    {L : Type 0} (codec : Codec L)
    → IsCodec codec
    → (log log' : WriteAheadLog L) (n : ℕ) (s : String) → truncate codec log ≡ some (log', n)
    → elem string_discrete s log.checkpointed_stories ≡ false
    → get_entries codec log' s ≡ get_entries codec log s
unfolding truncate get_entries rewrite
get_entries-truncate {L = L} codec laws log log' n s e h =
    by_remaining (remaining codec log.checkpointed_stories (file_lines codec log)) e
      (remaining-Kept codec laws log.checkpointed_stories s (file_lines codec log) h)
  where
    entries : WriteAheadLog L → Option (List WalEntry)
    entries l = entries_among codec s (file_lines codec l)

    arrived : (r : WriteAheadLog L × ℕ) → some r ≡ some (log', n) → r.0 ≡ log'
    arrived r e = let p = some-injective _ _ e in λ i. (p i).0

    by_remaining :
        (o : Option (List L × ℕ))
        → Option.map (rewrite codec log) o ≡ some (log', n)
        → Kept codec laws log.checkpointed_stories s (file_lines codec log) o
        → entries log' ≡ entries log
    by_remaining none e k = absurd (ground (arith, e))
    by_remaining (some (ls, zero)) e k = sym (ap entries (arrived _ e))
    by_remaining (some (ls, suc m)) e k =
        sym (ap entries (arrived _ e))
        ∙ entries_among-end codec laws log.checkpointed_stories s ls
        ∙ k
