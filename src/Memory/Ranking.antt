-- ===== src/Memory/Ranking.antt =====
-- The sort of memory/__init__.py, and what the first entries of a sorted list are.
use fastcoder.Base.{
  ℕ, zero, suc, ◌≡◌, true, false, List, [], ◌∷◌, All, ◌⊎◌, inl, inr, arith, leb, ◌++◌, drop, ap,
  sym, subst, ◌∙◌, refl, ◌<◌, take, length, leb→le, ◌≤◌, if_ind,
}
use mathlib.Core.List.{Perm}
use mathlib.Core.List.Perm
use fastcoder.Memory.{MemoryEntry, at_least, insert, sort, best}

at_least_trans :
    (a b c : MemoryEntry) → at_least a b ≡ true → at_least b c ≡ true → at_least a c ≡ true
at_least_trans a b c h k = ground arith

at_least_total : (a b : MemoryEntry) → at_least a b ≡ false → at_least b a ≡ true
at_least_total a b h = ground arith

-- Each entry ranks at least as high as all that come after it.
abbrev pub Ranked : List MemoryEntry → Type 0
Ranked [] = Unit
Ranked (c ∷ cs) = All (λ d. at_least c d ≡ true) cs × Ranked cs

All-below :
    (c d : MemoryEntry) (l : List MemoryEntry)
    → at_least c d ≡ true
    → All (λ e. at_least d e ≡ true) l
    → All (λ e. at_least c e ≡ true) l
All-below c d [] h a = tt
All-below c d (e ∷ l) h (k, a) = (at_least_trans c d e h k, All-below c d l h a)

All-insert :
    (b c : MemoryEntry) (l : List MemoryEntry)
    → at_least b c ≡ true
    → All (λ e. at_least b e ≡ true) l
    → All (λ e. at_least b e ≡ true) (insert c l)
unfolding insert
All-insert b c [] h a = (h, tt)
All-insert b c (d ∷ l) h (k, a) =
    if_ind (All (λ e. at_least b e ≡ true)) (at_least c d) (λ _. (h, (k, a)))
      (λ _. (k, All-insert b c l h a))

insert-Ranked : (c : MemoryEntry) (l : List MemoryEntry) → Ranked l → Ranked (insert c l)
unfolding insert
insert-Ranked c [] r = (tt, tt)
insert-Ranked c (d ∷ l) (below, r) =
    if_ind Ranked (at_least c d) (λ h. ((h, All-below c d l h below), (below, r)))
      (λ h. (All-insert d c l (at_least_total c d h) below, insert-Ranked c l r))

pub sort-Ranked : (l : List MemoryEntry) → Ranked (sort l)
unfolding sort
sort-Ranked [] = tt
sort-Ranked (c ∷ l) = insert-Ranked c (sort l) (sort-Ranked l)

insert-Perm : (c : MemoryEntry) (l : List MemoryEntry) → Perm (insert c l) (c ∷ l)
unfolding insert
insert-Perm c [] = Perm.rfl
insert-Perm c (d ∷ l) =
    if_ind (λ r. Perm r (c ∷ d ∷ l)) (at_least c d) (λ _. Perm.rfl)
      (λ _. Perm.trans (Perm.cons d (insert-Perm c l)) (Perm.swap c d l))

sort-Perm : (l : List MemoryEntry) → Perm (sort l) l
unfolding sort
sort-Perm [] = Perm.nil
sort-Perm (c ∷ l) = Perm.trans (insert-Perm c (sort l)) (Perm.cons c (sort-Perm l))

take-drop : (n : ℕ) (l : List MemoryEntry) → take n l ++ drop n l ≡ l
take-drop zero l = refl
take-drop (suc n) [] = refl
take-drop (suc n) (c ∷ l) = ap (λ r. c ∷ r) (take-drop n l)

length-take : (n : ℕ) (l : List MemoryEntry) → n ≤ length l → length (take n l) ≡ n
length-take zero l h = refl
length-take (suc n) [] h = omega arith
length-take (suc n) (c ∷ l) h = ap suc (length-take n l (omega arith))

length-insert : (c : MemoryEntry) (l : List MemoryEntry) → length (insert c l) ≡ suc (length l)
unfolding insert
length-insert c [] = refl
length-insert c (d ∷ l) =
    if_ind (λ (r : List MemoryEntry). length r ≡ suc (suc (length l))) (at_least c d) (λ _. refl)
      (λ _. ap suc (length-insert c l))

length-sort : (l : List MemoryEntry) → length (sort l) ≡ length l
unfolding sort
length-sort [] = refl
length-sort (c ∷ l) = length-insert c (sort l) ∙ ap suc (length-sort l)

All-drop :
    (c : MemoryEntry) (n : ℕ) (l : List MemoryEntry)
    → All (λ d. at_least c d ≡ true) l
    → All (λ d. at_least c d ≡ true) (drop n l)
All-drop c zero l a = a
All-drop c (suc n) [] a = tt
All-drop c (suc n) (d ∷ l) a = All-drop c n l a.1

-- Each entry of the first list ranks at least as high as each of the second.
abbrev pub Above : List MemoryEntry → List MemoryEntry → Type 0
Above kept dropped = All (λ c. All (λ d. at_least c d ≡ true) dropped) kept

Ranked-Above : (n : ℕ) (l : List MemoryEntry) → Ranked l → Above (take n l) (drop n l)
Ranked-Above zero l r = tt
Ranked-Above (suc n) [] r = tt
Ranked-Above (suc n) (c ∷ l) (below, r) = (All-drop c n l below, Ranked-Above n l r)

Above-nil : (l : List MemoryEntry) → Above l []
Above-nil [] = tt
Above-nil (c ∷ l) = (tt, Above-nil l)

-- `kept` is the best part of `l` for a tier with room for `n`: all of `l` if that is no more than `n`
-- entries, and else `n` of them, where those that are dropped rank no higher than any that is kept.
abbrev pub IsBestOf : ℕ → List MemoryEntry → List MemoryEntry → Type 0
IsBestOf n l kept =
    ((length l ≤ n) × (kept ≡ l))
    ⊎ ((n < length l)
        × (length kept ≡ n)
        × ((dropped : List MemoryEntry) × Perm (kept ++ dropped) l × Above kept dropped))

pub best-IsBestOf : (n : ℕ) (l : List MemoryEntry) → IsBestOf n l (best n l)
unfolding best
best-IsBestOf n l =
    if_ind (IsBestOf n l) (leb (length l) n) (λ h. inl (leb→le (length l) n h, refl))
      (λ h. inr (
        ground arith,
        length-take n (sort l) (room h),
        (
          drop n (sort l),
          subst (λ r. Perm r l) (sym (take-drop n (sort l))) (sort-Perm l),
          Ranked-Above n (sort l) (sort-Ranked l),
        ),
      ))
  where
    room : leb (length l) n ≡ false → n ≤ length (sort l)
    room h = subst (λ k. n ≤ k) (sym (length-sort l)) (ground arith)

pub length-best : (n : ℕ) (l : List MemoryEntry) → length (best n l) ≤ n
length-best n l = within (best-IsBestOf n l)
  where
    within : IsBestOf n l (best n l) → length (best n l) ≤ n
    within (inl (h, e)) = subst (λ k. length k ≤ n) (sym e) h
    within (inr (h, e, d)) = omega (arith, e)
