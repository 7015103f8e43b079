-- ===== src/Codebase/Backward.antt =====
-- The backward references that `add_file` of codebase/dependency_graph.py sets.
pub mod Build
use fastcoder.Base.{
  String, ◌≡◌, refl, ap, sym, subst, ◌∙◌, ◌⊎◌, inl, inr, ⊎_elim, ite, true, false, not, ◌&&◌, List,
  [], ◌∷◌, ◌++◌, map, Memᴰ, Option, none, some, arith, ite_ind, if◌then◌else◌, Bool-cases,
  Memᴰ-snoc, elem-eq-true_iff, string_discrete,
}
use mathlib.Core.List.Memᴰ
use mathlib.Core.Option
use fastcoder.Base.Dict
use fastcoder.Base.Dict.{get-put, get-modify, get-modify_all}
use fastcoder.Codebase.{
  DependencyNode, Nodes, lookup, contains, imports_of, imported_by_of, get_dependencies,
  get_dependents, new_node, ensured, ensure, refer_back, add_file, add_nodes, add_files,
}

dependents_of-refer_back :
    (p d : String) (o : Option DependencyNode)
    → Memᴰ d (imported_by_of (Option.map (refer_back p) o))
    → Memᴰ d (imported_by_of o) ⊎ ((d ≡ p) × Memᴰ p (imports_of o))
unfolding refer_back contains
dependents_of-refer_back p d none m = inl m
dependents_of-refer_back p d (some node) m =
    ground (arith, Memᴰ-snoc d p node.imported_by, elem-eq-true_iff string_discrete p node.imports)

dependencies_of-refer_back :
    (p : String) (o : Option DependencyNode)
    → imports_of (Option.map (refer_back p) o) ≡ imports_of o
unfolding refer_back
dependencies_of-refer_back p none = refl
dependencies_of-refer_back p (some node) = ground arith

unfoldable pub SameLinks : Option DependencyNode → Option DependencyNode → Type 0
SameLinks o o' = (imports_of o ≡ imports_of o') × (imported_by_of o ≡ imported_by_of o')

lookup-ensure :
    (p f : String) (nodes : Nodes) → SameLinks (lookup f (ensure p nodes)) (lookup f nodes)
unfolding ensure lookup SameLinks
lookup-ensure p f nodes = by_entry (lookup p nodes) refl
  where
    by_entry :
        (o : Option DependencyNode)
        → lookup p nodes ≡ o
        → SameLinks (lookup f (ensured p nodes o)) (lookup f nodes)
    by_entry (some node) e = (refl, refl)
    by_entry none e = ground (arith, get-put string_discrete p f (new_node p) nodes)

links : List String → DependencyNode → DependencyNode
links imps node = record node { imports = imps }

dependents-links :
    (imps : List String) (o : Option DependencyNode)
    → imported_by_of (Option.map (links imps) o) ≡ imported_by_of o
unfolding links
dependents-links imps none = refl
dependents-links imps (some node) = refl

module _ (p : String) (imps : List String) (nodes : Nodes) (f : String) where
  -- The entry of `f` once the imports of `p` are set.
  pub linked : Option DependencyNode
  linked =
      let o = lookup f (ensure p nodes) in ite (string_discrete p f) (Option.map (links imps) o) o

  lookup-add_file : lookup f (add_file p imps nodes) ≡ Option.map (refer_back p) linked
  unfolding add_file lookup linked links
  lookup-add_file = rw (get-modify_all, get-modify) refl

  dependents-linked : imported_by_of linked ≡ get_dependents nodes f
  unfolding linked links get_dependents SameLinks
  dependents-linked =
      let same = (lookup-ensure p f nodes).1 in
      ite_ind (λ o. imported_by_of o ≡ get_dependents nodes f) (string_discrete p f)
        (λ _. dependents-links imps (lookup f (ensure p nodes)) ∙ same) (λ _. same)

  pub dependencies-linked : ¬ (p ≡ f) → imports_of linked ≡ get_dependencies nodes f
  unfolding linked get_dependencies SameLinks
  dependencies-linked n =
      ite_ind (λ o. imports_of o ≡ get_dependencies nodes f) (string_discrete p f)
        (λ e. absurd (n e)) (λ _. (lookup-ensure p f nodes).0)

  pub dependencies-add_file : get_dependencies (add_file p imps nodes) f ≡ imports_of linked
  unfolding get_dependencies
  dependencies-add_file = ap imports_of lookup-add_file ∙ dependencies_of-refer_back p linked

  dependents-lookup :
      get_dependents (add_file p imps nodes) f ≡ imported_by_of (Option.map (refer_back p) linked)
  unfolding get_dependents
  dependents-lookup = ap imported_by_of lookup-add_file

  -- A file has the dependents it had, and `p` if it imports `p`.
  pub dependents-add_file :
      (d : String)
      → Memᴰ d (get_dependents (add_file p imps nodes) f)
      → Memᴰ d (get_dependents nodes f)
        ⊎ ((d ≡ p) × Memᴰ p (get_dependencies (add_file p imps nodes) f))
  dependents-add_file d m =
      ⊎_elim (λ old. inl (subst (Memᴰ d) dependents-linked old))
        (λ (same, new). inr (same, subst (Memᴰ p) (sym dependencies-add_file) new))
        (dependents_of-refer_back p d linked (subst (Memᴰ d) dependents-lookup m))
