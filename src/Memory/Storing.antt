-- ===== src/Memory/Storing.antt =====
-- What storing an entry does to the tiers of memory/__init__.py.
use fastcoder.Base.{
  ℕ, ◌≡◌, refl, sym, ◌∙◌, ap, subst, Bool, true, false, List, [], ◌∷◌, ◌++◌, ◌⊎◌, inl, inr, arith,
  ltb, length, if◌then◌else◌, if_ind, Bool-cases,
}
use fastcoder.Memory.{
  MemoryTier, working, episodic, semantic, procedural, project, MemoryEntry, MemoryStore, same_tier,
  put_tier, best, evict, settle, store,
}
use fastcoder.Memory.Ranking.{IsBestOf, best-IsBestOf}

same_tier_self : (tier : MemoryTier) → same_tier tier tier ≡ true
same_tier_self working = refl
same_tier_self episodic = refl
same_tier_self semantic = refl
same_tier_self procedural = refl
same_tier_self project = refl

-- Where nothing is to be evicted, the best part is the whole.
best-whole : (n : ℕ) (l : List MemoryEntry) → ltb n (length l) ≡ false → best n l ≡ l
unfolding best
best-whole n l h = ground arith

-- A function of the tier, with its value at one tier written out.
at_tier {ℓ} :
    {A : Type ℓ} (f : MemoryTier → A) (own tier : MemoryTier)
    → (if same_tier own tier then f own else f tier) ≡ f tier
at_tier f working working = refl
at_tier f working episodic = refl
at_tier f working semantic = refl
at_tier f working procedural = refl
at_tier f working project = refl
at_tier f episodic working = refl
at_tier f episodic episodic = refl
at_tier f episodic semantic = refl
at_tier f episodic procedural = refl
at_tier f episodic project = refl
at_tier f semantic working = refl
at_tier f semantic episodic = refl
at_tier f semantic semantic = refl
at_tier f semantic procedural = refl
at_tier f semantic project = refl
at_tier f procedural working = refl
at_tier f procedural episodic = refl
at_tier f procedural semantic = refl
at_tier f procedural procedural = refl
at_tier f procedural project = refl
at_tier f project working = refl
at_tier f project episodic = refl
at_tier f project semantic = refl
at_tier f project procedural = refl
at_tier f project project = refl

settle-memories :
    (own tier : MemoryTier) (m : MemoryStore)
    → (settle own m).memories tier ≡ (
        if same_tier own tier
        then best m.max_entries_per_tier (m.memories own)
        else m.memories tier)
unfolding settle evict put_tier
settle-memories own tier m =
    let kept = best m.max_entries_per_tier (m.memories own) in
    if_ind
      (λ (s : MemoryStore).
        s.memories tier ≡ (if same_tier own tier then kept else m.memories tier))
      (ltb m.max_entries_per_tier (length (m.memories own))) (λ _. refl)
      (λ h.
        sym (at_tier m.memories own tier)
        ∙ ap (λ l. if same_tier own tier then l else m.memories tier)
            (sym (best-whole m.max_entries_per_tier (m.memories own) h)))

settle-kept :
    (own : MemoryTier) (m : MemoryStore)
    → ((settle own m).max_entries_per_tier ≡ m.max_entries_per_tier)
      × ((settle own m).error_fixes ≡ m.error_fixes)
unfolding settle evict put_tier
settle-kept own m =
    if_ind
      (λ (s : MemoryStore).
        (s.max_entries_per_tier ≡ m.max_entries_per_tier) × (s.error_fixes ≡ m.error_fixes))
      (ltb m.max_entries_per_tier (length (m.memories own))) (λ _. (refl, refl)) (λ _. (refl, refl))

-- The entries of a tier after an entry has been stored.
pub store-memories :
    (entry : MemoryEntry) (m : MemoryStore) (tier : MemoryTier)
    → (store entry m).memories tier ≡ (
        if same_tier entry.tier tier
        then best m.max_entries_per_tier (m.memories entry.tier ++ entry ∷ [])
        else m.memories tier)
unfolding store put_tier
store-memories entry m tier =
    let added = put_tier entry.tier (m.memories entry.tier ++ entry ∷ []) m in
    settle-memories entry.tier tier added
    ∙ by_test (m.memories entry.tier ++ entry ∷ []) (m.memories entry.tier)
        (same_tier entry.tier tier) (same_tier_self entry.tier)
  where
    by_test :
        {own : Bool} (l o : List MemoryEntry) (same : Bool)
        → own ≡ true
        → (if same
            then best m.max_entries_per_tier (if own then l else o)
            else (if same then l else m.memories tier))
          ≡ (if same then best m.max_entries_per_tier l else m.memories tier)
    by_test l o true h = ap (λ b. best m.max_entries_per_tier (if b then l else o)) h
    by_test l o false h = refl

pub store-kept :
    (entry : MemoryEntry) (m : MemoryStore)
    → ((store entry m).max_entries_per_tier ≡ m.max_entries_per_tier)
      × ((store entry m).error_fixes ≡ m.error_fixes)
unfolding store put_tier
store-kept entry m =
    settle-kept entry.tier (put_tier entry.tier (m.memories entry.tier ++ entry ∷ []) m)

-- Storing an entry drops nothing where the tier has room for it. Else it keeps as many entries as
-- `max_entries_per_tier`, out of those of the tier and the new one, and each that is dropped ranks, by
-- score and then by uses, no higher than any that is kept. The other tiers stay as they are.
pub store_lem :
    (entry : MemoryEntry) (m : MemoryStore)
    → IsBestOf m.max_entries_per_tier
        (m.memories entry.tier ++ entry ∷ [])
        ((store entry m).memories entry.tier)
      × ((tier : MemoryTier)
          → (same_tier entry.tier tier ≡ true) ⊎ ((store entry m).memories tier ≡ m.memories tier))
store_lem entry m = (
  subst (IsBestOf m.max_entries_per_tier whole) (sym own)
      (best-IsBestOf m.max_entries_per_tier whole),
  λ tier. other tier (Bool-cases (same_tier entry.tier tier)),
)
  where
    whole : List MemoryEntry
    whole = m.memories entry.tier ++ entry ∷ []

    chosen : MemoryTier → Bool → List MemoryEntry
    chosen tier same = if same then best m.max_entries_per_tier whole else m.memories tier

    own : (store entry m).memories entry.tier ≡ best m.max_entries_per_tier whole
    own = store-memories entry m entry.tier ∙ ap (chosen entry.tier) (same_tier_self entry.tier)

    other :
        (tier : MemoryTier)
        → (same_tier entry.tier tier ≡ true) ⊎ (same_tier entry.tier tier ≡ false)
        → (same_tier entry.tier tier ≡ true) ⊎ ((store entry m).memories tier ≡ m.memories tier)
    other tier (inl h) = inl h
    other tier (inr h) = inr (store-memories entry m tier ∙ ap (chosen tier) h)
