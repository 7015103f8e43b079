-- ===== src/Memory.antt =====
-- memory/__init__.py: the entries of each tier, their eviction, and the fixes of errors. Scores are
-- whole millionths. Every tier is always there, so that the entries are a function of the tier. Left
-- out are the query, the consolidation, and the file.
pub mod Ranking
pub mod Storing
pub mod Bound
mod Examples
use fastcoder.Base.{
  ℕ, zero, suc, ◌+◌, ◌-◌, String, Bool, true, false, ◌&&◌, ◌||◌, List, [], ◌∷◌, ◌++◌, Option, none,
  some, ◌==◌, ltb, leb, if◌then◌else◌, length, take, string_discrete,
}
use fastcoder.Base.Dict
use fastcoder.Base.Dict.{Dict}

pub data MemoryType : Type 0 where
  pattern_memory error_fix convention anti_pattern : MemoryType

pub data MemoryTier : Type 0 where
  working episodic semantic procedural project : MemoryTier

pub record MemoryEntry : Type 0 where
  pub id : String
  pub type : MemoryType
  pub tier : MemoryTier
  pub content : String
  pub source_story_id : String
  pub effectiveness_score : ℕ
  pub last_used_at : ℕ
  pub use_count : ℕ

pub record MemoryStore : Type 0 where
  pub max_entries_per_tier : ℕ
  pub memories : MemoryTier → List MemoryEntry
  pub error_fixes : Dict String String

unfoldable pub new : ℕ → MemoryStore
new max_entries_per_tier = record {
  max_entries_per_tier = max_entries_per_tier;
  memories = λ tier. [];
  error_fixes = [];
}

abbrev pub same_tier : MemoryTier → MemoryTier → Bool
same_tier working working = true
same_tier episodic episodic = true
same_tier semantic semantic = true
same_tier procedural procedural = true
same_tier project project = true
same_tier _ _ = false

-- `self.memories[tier] = entries`
unfoldable pub put_tier : MemoryTier → List MemoryEntry → MemoryStore → MemoryStore
put_tier tier entries m = record m {
  memories = λ other. if same_tier tier other then entries else m.memories other;
}

-- `(c.effectiveness_score, c.use_count) >= (d.effectiveness_score, d.use_count)`
abbrev pub at_least : MemoryEntry → MemoryEntry → Bool
at_least c d =
    ltb d.effectiveness_score c.effectiveness_score
    || ((d.effectiveness_score == c.effectiveness_score) && leb d.use_count c.use_count)

-- `entries.sort(key=..., reverse=True)`, which is stable.
unfoldable pub insert : MemoryEntry → List MemoryEntry → List MemoryEntry
insert c [] = c ∷ []
insert c (d ∷ ds) = let further = insert c ds in if at_least c d then c ∷ d ∷ ds else d ∷ further

unfoldable pub sort : List MemoryEntry → List MemoryEntry
unfolding insert
sort [] = []
sort (c ∷ cs) = insert c (sort cs)

unfoldable pub best : ℕ → List MemoryEntry → List MemoryEntry
unfolding sort
best max_entries entries =
    if leb (length entries) max_entries then entries else take max_entries (sort entries)

unfoldable pub evict : MemoryTier → ℕ → MemoryStore → MemoryStore
unfolding best put_tier
evict tier max_entries m = put_tier tier (best max_entries (m.memories tier)) m

-- `if len(self.memories[tier]) > self.max_entries_per_tier: self.evict(...)`
unfoldable pub settle : MemoryTier → MemoryStore → MemoryStore
unfolding evict
settle tier m =
    if ltb m.max_entries_per_tier (length (m.memories tier))
    then evict tier m.max_entries_per_tier m
    else m

unfoldable pub store : MemoryEntry → MemoryStore → MemoryStore
unfolding settle put_tier
store entry m = settle entry.tier (put_tier entry.tier (m.memories entry.tier ++ entry ∷ []) m)

unfoldable pub get_error_fix : String → MemoryStore → Option String
unfolding Dict.get string_discrete
get_error_fix fingerprint m = Dict.get string_discrete fingerprint m.error_fixes

-- `id` is what uuid4 gives, and `now` the time.
abbrev pub fix_entry : String → ℕ → String → String → MemoryEntry
fix_entry id now fix story_id = record {
  id = id;
  type = error_fix;
  tier = procedural;
  content = fix;
  source_story_id = story_id;
  effectiveness_score = 850000;
  last_used_at = now;
  use_count = 0;
}

unfoldable pub put_fix : String → String → MemoryStore → MemoryStore
unfolding Dict.put string_discrete
put_fix fingerprint fix m = record m {
  error_fixes = Dict.put string_discrete fingerprint fix m.error_fixes;
}

unfoldable pub record_error_fix : String → ℕ → String → String → String → MemoryStore → MemoryStore
unfolding put_fix store
record_error_fix id now fingerprint fix story_id m =
    store (fix_entry id now fix story_id) (put_fix fingerprint fix m)

-- `scaled` is what multiplying a score by `decay_rate` gives; 7 days are 604 800 000 000 us.
unfoldable pub decay_all : (ℕ → ℕ) → ℕ → List MemoryEntry → List MemoryEntry
decay_all scaled now [] = []
decay_all scaled now (e ∷ es) =
    (if ltb (e.last_used_at + 604800000000) now
      then record e { effectiveness_score = scaled e.effectiveness_score }
      else e)
    ∷ decay_all scaled now es

unfoldable pub decay : (ℕ → ℕ) → ℕ → MemoryStore → MemoryStore
unfolding decay_all
decay scaled now m = record m { memories = λ tier. decay_all scaled now (m.memories tier) }
