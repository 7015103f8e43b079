-- ===== src/Codebase/Cycles/Acyclic.antt =====
-- Cycles of imports, and the files that no chain of imports leads out of for ever.
use fastcoder.Base.{
  String, ◌≡◌, ap, subst, ◌∙◌, ⊎_elim, true, List, [], ◌∷◌, ◌++◌, Memᴰ, some, arith,
  string_discrete,
}
use mathlib.Core.WellFounded.{Acc}
use mathlib.Core.List.Memᴰ
use fastcoder.Codebase.{Nodes, get_dependencies}
use fastcoder.Codebase.Cycles.{is_known, from_index}

module _ (nodes : Nodes) where
  -- `f` imports `g`, and `g` is in the graph.
  abbrev pub Edge : String → String → Type 0
  Edge f g = Memᴰ g (get_dependencies nodes f) × (is_known nodes g ≡ true)

  -- Each file imports the next.
  abbrev pub IsChain : List String → Type 0
  IsChain [] = Unit
  IsChain (f ∷ []) = Unit
  IsChain (f ∷ g ∷ rest) = Edge f g × IsChain (g ∷ rest)

  -- A chain of at least one step that ends where it begins.
  abbrev pub IsCycle : List String → Type 0
  IsCycle cycle =
      (f : String) × (between : List String) × (cycle ≡ f ∷ between ++ f ∷ []) × IsChain cycle

  -- All chains of imports from `f` end.
  abbrev pub Ends : String → Type 0
  Ends = Acc (λ g f. Edge f g)

  data Leads : String → String → Type 0 where
    stay : {f : String} → Leads f f
    go : {f g h : String} → Edge f g → Leads g h → Leads f h

  Leads-snoc : {f g h : String} → Leads f g → Edge g h → Leads f h
  Leads-snoc stay e = go e stay
  Leads-snoc (go d p) e = go d (Leads-snoc p e)

  no_return : (f g : String) → Ends f → Edge f g → ¬ Leads g f
  no_return f g (Acc.intro _ ends) e stay = no_return g g (ends g e) e stay
  no_return f g (Acc.intro _ ends) e (go {g = h} d p) = no_return g h (ends g e) d (Leads-snoc p e)

  Leads-chain : (f g : String) (between : List String) → IsChain (f ∷ between ++ g ∷ []) → Leads f g
  Leads-chain f g [] (e, _) = go e stay
  Leads-chain f g (h ∷ between) (e, rest) = go e (Leads-chain h g between rest)

  cycle_first :
      (f : String) (between : List String)
      → IsChain (f ∷ between ++ f ∷ [])
      → (g : String) × Edge f g × Leads g f
  cycle_first f [] (e, _) = (f, e, stay)
  cycle_first f (g ∷ between) (e, rest) = (g, e, Leads-chain g f between rest)

  chain_target_known :
      (f g : String) (between : List String)
      → IsChain (f ∷ between ++ g ∷ [])
      → is_known nodes g ≡ true
  chain_target_known f g [] (e, _) = e.1
  chain_target_known f g (h ∷ between) (_, rest) = chain_target_known h g between rest

  -- Where the chains from every file of the graph end, there is no cycle.
  pub no-IsCycle :
      ((f : String) → is_known nodes f ≡ true → Ends f) → (cycle : List String) → ¬ IsCycle cycle
  no-IsCycle ends cycle (f, between, e, chain) =
      let walk = subst IsChain e chain in
      let (g, first, back) = cycle_first f between walk in
      no_return f g (ends f (chain_target_known f f between walk)) first back

  pub IsChain-snoc :
      (xs : List String) (f g : String)
      → IsChain (xs ++ f ∷ [])
      → Edge f g
      → IsChain ((xs ++ f ∷ []) ++ g ∷ [])
  IsChain-snoc [] f g c e = (e, tt)
  IsChain-snoc (x ∷ []) f g (d, c) e = (d, (e, tt))
  IsChain-snoc (x ∷ y ∷ xs) f g (d, c) e = (d, IsChain-snoc (y ∷ xs) f g c e)

  IsChain-tail : (x : String) (xs : List String) → IsChain (x ∷ xs) → IsChain xs
  IsChain-tail x [] c = tt
  IsChain-tail x (y ∷ xs) c = c.1

  from_index_here :
      (g x : String) (xs : List String) → g ≡ x → from_index g (x ∷ xs) ≡ some (x ∷ xs)
  unfolding from_index
  from_index_here g x xs e = ground arith

  from_index_there :
      (g x : String) (xs : List String) → ¬ (g ≡ x) → from_index g (x ∷ xs) ≡ from_index g xs
  unfolding from_index
  from_index_there g x xs n = ground arith

  -- The slice of `path` that begins at one of its items closes to a cycle.
  pub from_index_closes :
      (xs : List String) (f g : String)
      → Memᴰ g (xs ++ f ∷ [])
      → IsChain (xs ++ f ∷ [])
      → Edge f g
      → (slice : List String) × (from_index g (xs ++ f ∷ []) ≡ some slice)
        × IsCycle (slice ++ g ∷ [])
  from_index_closes [] f g m c e =
      let same = Memᴰ.eq_of_singleton m in
      (f ∷ [], from_index_here g f [] same, (f, [], ap (λ y. f ∷ y ∷ []) same, (e, tt)))
  from_index_closes (x ∷ xs) f g m c e = elim (string_discrete g x) [
    | yes same ↦ (
      x ∷ xs ++ f ∷ [],
      from_index_here g x (xs ++ f ∷ []) same,
      (x, xs ++ f ∷ [], ap (λ y. x ∷ (xs ++ f ∷ []) ++ y ∷ []) same, IsChain-snoc (x ∷ xs) f g c e),
    )
    | no n ↦
        let later = ⊎_elim (λ same. absurd (n same)) (λ t. t) (Memᴰ.cases_cons m) in
        let (slice, found, closes) =
          from_index_closes xs f g later (IsChain-tail x (xs ++ f ∷ []) c) e in
        (slice, from_index_there g x (xs ++ f ∷ []) n ∙ found, closes)
  ]
