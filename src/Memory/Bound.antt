-- ===== src/Memory/Bound.antt =====
-- What the tiers of memory/__init__.py hold after any operations, and the fixes they remember.
use fastcoder.Base.{
  ℕ, suc, ◌≤◌, String, ◌≡◌, refl, sym, ◌∙◌, ap, subst, List, [], ◌∷◌, ◌++◌, Option, none, some, ite,
  arith, length, if◌then◌else◌, if_ind, string_discrete,
}
use fastcoder.Base.Dict
use fastcoder.Base.Dict.{get-put}
use fastcoder.Memory.{
  MemoryTier, MemoryEntry, MemoryStore, new, same_tier, best, store, get_error_fix,
  record_error_fix, put_fix, fix_entry, decay_all, decay,
}
use fastcoder.Memory.Storing.{store-memories, store-kept}
use fastcoder.Memory.Ranking.{length-best}

pub data Op : Type 0 where
  store_entry : MemoryEntry → Op
  record_fix : String → ℕ → String → String → String → Op
  decay_scores : (ℕ → ℕ) → ℕ → Op

unfoldable pub apply : Op → MemoryStore → MemoryStore
unfolding store record_error_fix decay
apply (store_entry entry) m = store entry m
apply (record_fix id now fingerprint fix story_id) m =
    record_error_fix id now fingerprint fix story_id m
apply (decay_scores scaled now) m = decay scaled now m

unfoldable pub run : List Op → MemoryStore → MemoryStore
unfolding apply
run [] m = m
run (op ∷ ops) m = run ops (apply op m)

abbrev IsBounded : ℕ → MemoryStore → Type 0
IsBounded n m = (m.max_entries_per_tier ≡ n) × ((tier : MemoryTier) → length (m.memories tier) ≤ n)

store-IsBounded :
    (n : ℕ) (entry : MemoryEntry) (m : MemoryStore) → IsBounded n m → IsBounded n (store entry m)
store-IsBounded n entry m (size, bound) = (
  (store-kept entry m).0 ∙ size,
  λ tier. subst (λ l. length l ≤ n) (sym (store-memories entry m tier)) (either tier),
)
  where
    either :
        (tier : MemoryTier)
        → length (
            if same_tier entry.tier tier
            then best m.max_entries_per_tier (m.memories entry.tier ++ entry ∷ [])
            else m.memories tier)
          ≤ n
    either tier =
        if_ind (λ (l : List MemoryEntry). length l ≤ n) (same_tier entry.tier tier)
          (λ _.
            subst
              (λ k. length (best m.max_entries_per_tier (m.memories entry.tier ++ entry ∷ [])) ≤ k)
              size (length-best m.max_entries_per_tier (m.memories entry.tier ++ entry ∷ [])))
          (λ _. bound tier)

length-decay_all :
    (scaled : ℕ → ℕ) (now : ℕ) (l : List MemoryEntry) → length (decay_all scaled now l) ≡ length l
unfolding decay_all
length-decay_all scaled now [] = refl
length-decay_all scaled now (e ∷ l) = ap suc (length-decay_all scaled now l)

apply-IsBounded : (n : ℕ) (op : Op) (m : MemoryStore) → IsBounded n m → IsBounded n (apply op m)
unfolding apply record_error_fix put_fix decay
apply-IsBounded n (store_entry entry) m b = store-IsBounded n entry m b
apply-IsBounded n (record_fix id now fingerprint fix story_id) m b =
    store-IsBounded n (fix_entry id now fix story_id) (put_fix fingerprint fix m) b
apply-IsBounded n (decay_scores scaled now) m (size, bound) = (
  size,
  λ tier. subst (λ k. k ≤ n) (sym (length-decay_all scaled now (m.memories tier))) (bound tier),
)

run-IsBounded : (n : ℕ) (ops : List Op) (m : MemoryStore) → IsBounded n m → IsBounded n (run ops m)
unfolding run
run-IsBounded n [] m b = b
run-IsBounded n (op ∷ ops) m b = run-IsBounded n ops (apply op m) (apply-IsBounded n op m b)

-- However many entries and fixes are stored, no tier of a new store comes to hold more entries than
-- `max_entries_per_tier`.
pub run-new-le :
    (max_entries_per_tier : ℕ) (ops : List Op) (tier : MemoryTier)
    → length ((run ops (new max_entries_per_tier)).memories tier) ≤ max_entries_per_tier
unfolding new
run-new-le max_entries_per_tier ops tier =
    (run-IsBounded max_entries_per_tier ops (new max_entries_per_tier) (refl, λ t. omega arith)).1
      tier

-- The last of the fixes recorded for the fingerprint, or else the one given.
unfoldable pub last_fix : String → List Op → Option String → Option String
last_fix fingerprint [] known = known
last_fix fingerprint (record_fix id now other fix story_id ∷ ops) known =
    last_fix fingerprint ops (ite (string_discrete other fingerprint) (some fix) known)
last_fix fingerprint (store_entry entry ∷ ops) known = last_fix fingerprint ops known
last_fix fingerprint (decay_scores scaled now ∷ ops) known = last_fix fingerprint ops known

get_error_fix-run_from :
    (fingerprint : String) (ops : List Op) (m : MemoryStore)
    → get_error_fix fingerprint (run ops m) ≡ last_fix fingerprint ops (get_error_fix fingerprint m)
unfolding run apply last_fix get_error_fix record_error_fix put_fix decay
get_error_fix-run_from fingerprint [] m = refl
get_error_fix-run_from fingerprint (store_entry entry ∷ ops) m =
    get_error_fix-run_from fingerprint ops (store entry m)
    ∙ ap (λ fixes. last_fix fingerprint ops (Dict.get string_discrete fingerprint fixes))
        (store-kept entry m).1
get_error_fix-run_from fingerprint (record_fix id now other fix story_id ∷ ops) m =
    let entry = fix_entry id now fix story_id in
    get_error_fix-run_from fingerprint ops (store entry (put_fix other fix m))
    ∙ ap (λ fixes. last_fix fingerprint ops (Dict.get string_discrete fingerprint fixes))
        (store-kept entry (put_fix other fix m)).1
    ∙ ap (last_fix fingerprint ops) (get-put string_discrete other fingerprint fix m.error_fixes)
get_error_fix-run_from fingerprint (decay_scores scaled now ∷ ops) m =
    get_error_fix-run_from fingerprint ops (decay scaled now m)

-- After any operations on a new store, `get_error_fix` gives the fix that was last recorded for the
-- fingerprint, and none if there was none, even if its entry has been evicted since.
pub get_error_fix-run :
    (max_entries_per_tier : ℕ) (ops : List Op) (fingerprint : String)
    → get_error_fix fingerprint (run ops (new max_entries_per_tier)) ≡ last_fix fingerprint ops none
unfolding new get_error_fix
get_error_fix-run max_entries_per_tier ops fingerprint =
    get_error_fix-run_from fingerprint ops (new max_entries_per_tier)
