-- ===== src/Memory/Examples.antt =====
-- Runs of the memory.
use fastcoder.Base.{ℕ, String, ◌≡◌, refl, ◌≤◌, true, List, [], ◌∷◌, ◌++◌, map, ◌⊎◌, some, length}
use fastcoder.Memory.{
  MemoryTier, semantic, pattern_memory, MemoryEntry, MemoryStore, new, same_tier, store,
  get_error_fix,
}
use fastcoder.Memory.Ranking.{IsBestOf}
use fastcoder.Memory.Storing.{store_lem}
use fastcoder.Memory.Bound.{Op, store_entry, record_fix, run, run-new-le}

abbrev pattern_of : String → ℕ → MemoryEntry
pattern_of id score = record {
  id = id;
  type = pattern_memory;
  tier = semantic;
  content = id;
  source_story_id = "s1";
  effectiveness_score = score;
  last_used_at = 0;
  use_count = 0;
}

-- Three entries for a tier that has room for two, and two fixes of one error.
abbrev ops : List Op
ops =
    store_entry (pattern_of "a" 500000)
    ∷ store_entry (pattern_of "b" 900000)
    ∷ store_entry (pattern_of "c" 700000)
    ∷ record_fix "f" 0 "abc" "old" "s1"
    ∷ record_fix "g" 0 "abc" "new" "s2"
    ∷ record_fix "h" 0 "xyz" "other" "s2"
    ∷ []

abbrev id_of : MemoryEntry → String
id_of e = e.id

-- The weakest one is evicted.
weakest_evicted : map id_of ((run ops (new 2)).memories semantic) ≡ "b" ∷ "c" ∷ []
unfolding run new
weakest_evicted = refl

fix_remembered : get_error_fix "abc" (run ops (new 2)) ≡ some "new"
unfolding run new get_error_fix
fix_remembered = refl

run-new-le_example : length ((run ops (new 2)).memories semantic) ≤ 2
run-new-le_example = run-new-le 2 ops semantic

abbrev full : MemoryStore
full = run (store_entry (pattern_of "a" 500000) ∷ store_entry (pattern_of "b" 900000) ∷ []) (new 2)

store_lem_example :
    IsBestOf 2
      (full.memories semantic ++ pattern_of "c" 700000 ∷ [])
      ((store (pattern_of "c" 700000) full).memories semantic)
    × ((tier : MemoryTier)
        → (same_tier semantic tier ≡ true)
          ⊎ ((store (pattern_of "c" 700000) full).memories tier ≡ full.memories tier))
unfolding run new
store_lem_example = store_lem (pattern_of "c" 700000) full
