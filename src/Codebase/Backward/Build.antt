-- ===== src/Codebase/Backward/Build.antt =====
-- The direction of the backward references that `build` of codebase/dependency_graph.py sets.
use fastcoder.Base.{
  String, ◌≡◌, refl, ap, sym, subst, ◌∙◌, ◌⊎◌, inl, inr, true, false, List, [], ◌∷◌, Memᴰ, Option,
  none, some, arith, ite_ind, string_discrete,
}
use mathlib.Core.List.Memᴰ
use mathlib.Core.Option
use fastcoder.Base.Dict
use fastcoder.Base.Dict.{get-put, get-modify, get-modify_all}
use fastcoder.Codebase.Backward.{
  SameLinks, dependencies-add_file, dependencies-linked, dependents-add_file,
}
use fastcoder.Codebase.Impact.Loop.{contains-eq-true_iff}
use fastcoder.Codebase.Cycles.{mark, mark_all, detect_circular_dependencies_marking, build}
use fastcoder.Codebase.Cycles.Visit.{detect_circular_dependencies_lem}
use fastcoder.Codebase.{
  DependencyNode, Nodes, lookup, contains, get_dependencies, get_dependents, new_node, add_file,
  add_nodes, add_files,
}

-- What holds while the files in `todo` are still to be added.
record Inv (todo : List String) (nodes : Nodes) : Type 0 where
  reversed : (f d : String) → Memᴰ d (get_dependents nodes f) → Memᴰ d (get_dependencies nodes f)
  untouched : (f : String) → Memᴰ f todo → (d : String) → ¬ Memᴰ d (get_dependencies nodes f)

Inv-add_file :
    (p : String) (imps todo : List String) (nodes : Nodes)
    → contains p todo ≡ false
    → Inv (p ∷ todo) nodes
    → Inv todo (add_file p imps nodes)
Inv-add_file p imps todo nodes n h = record {
  reversed = λ f d m. by_origin f d (string_discrete p f) (dependents-add_file p imps nodes f d m);
  untouched = λ f m d. λ there. h.untouched f (Memᴰ.tail m) d (
      subst (Memᴰ d)
        (same_as_before f
          (λ e. cc (sym n ∙ (contains-eq-true_iff p todo).1 (subst (λ g. Memᴰ g todo) (sym e) m))))
        there);
}
  where
    same_as_before :
        (f : String)
        → ¬ (p ≡ f)
        → get_dependencies (add_file p imps nodes) f ≡ get_dependencies nodes f
    same_as_before f m = dependencies-add_file p imps nodes f ∙ dependencies-linked p imps nodes f m

    by_origin :
        (f d : String)
        → Dec (p ≡ f)
        → Memᴰ d (get_dependents nodes f)
          ⊎ ((d ≡ p) × Memᴰ p (get_dependencies (add_file p imps nodes) f))
        → Memᴰ d (get_dependencies (add_file p imps nodes) f)
    by_origin f d same (inr (e, new)) =
        subst (λ g. Memᴰ g (get_dependencies (add_file p imps nodes) f)) (sym e) new
    by_origin f d (yes e) (inl old) =
        absurd (h.untouched f (Memᴰ.head (sym e)) d (h.reversed f d old))
    by_origin f d (no m) (inl old) = subst (Memᴰ d) (sym (same_as_before f m)) (h.reversed f d old)

abbrev paths : List (String × Option (List String)) → List String
paths [] = []
paths ((p, _) ∷ files) = p ∷ paths files

-- No path stands twice.
abbrev pub AreDistinct : List (String × Option (List String)) → Type 0
AreDistinct [] = Unit
AreDistinct ((p, _) ∷ files) = (contains p (paths files) ≡ false) × AreDistinct files

Inv-skip : (p : String) (todo : List String) (nodes : Nodes) → Inv (p ∷ todo) nodes → Inv todo nodes
Inv-skip p todo nodes h = record {
  reversed = h.reversed;
  untouched = λ f m. h.untouched f (Memᴰ.tail m);
}

Inv-add_files :
    (files : List (String × Option (List String))) (nodes : Nodes)
    → AreDistinct files
    → Inv (paths files) nodes
    → Inv [] (add_files files nodes)
unfolding add_files
Inv-add_files [] nodes a h = h
Inv-add_files ((p, none) ∷ files) nodes (n, a) h =
    Inv-add_files files nodes a (Inv-skip p (paths files) nodes h)
Inv-add_files ((p, some imps) ∷ files) nodes (n, a) h =
    Inv-add_files files (add_file p imps nodes) a (Inv-add_file p imps (paths files) nodes n h)

-- Nothing is linked yet.
IsBlank : Nodes → Type 0
IsBlank nodes = (f : String) → SameLinks (lookup f nodes) none

IsBlank-nil : IsBlank []
unfolding IsBlank SameLinks lookup Dict.get
IsBlank-nil f = (refl, refl)

IsBlank-add_nodes :
    (files : List (String × Option (List String))) (nodes : Nodes)
    → IsBlank nodes
    → IsBlank (add_nodes files nodes)
unfolding add_nodes IsBlank lookup SameLinks
IsBlank-add_nodes [] nodes h = h
IsBlank-add_nodes ((p, _) ∷ files) nodes h =
    IsBlank-add_nodes files (Dict.put string_discrete p (new_node p) nodes)
      (λ f. ground (arith, get-put string_discrete p f (new_node p) nodes, h f))

Inv-blank : (todo : List String) (nodes : Nodes) → IsBlank nodes → Inv todo nodes
unfolding IsBlank SameLinks get_dependents get_dependencies lookup
Inv-blank todo nodes h = record {
  reversed = λ f d m. absurd (Memᴰ.not-nil (subst (Memᴰ d) (h f).1 m));
  untouched = λ f _ d m. Memᴰ.not-nil (subst (Memᴰ d) (h f).0 m);
}

circular : DependencyNode → DependencyNode
circular node = record node { is_circular = true }

links-circular : (o : Option DependencyNode) → SameLinks (Option.map circular o) o
unfolding SameLinks circular
links-circular none = (refl, refl)
links-circular (some node) = (refl, refl)

links-mark :
    (cycle : List String) (nodes : Nodes) (f : String)
    → SameLinks (lookup f (mark cycle nodes)) (lookup f nodes)
unfolding mark lookup SameLinks circular
links-mark [] nodes f = (refl, refl)
links-mark (p ∷ cycle) nodes f =
    let marked = Dict.modify string_discrete p circular nodes in
    let rest = links-mark cycle marked f in
    let entry =
      subst (λ o. SameLinks o (lookup f nodes))
        (sym (get-modify string_discrete p f circular nodes))
        (ite_ind (λ o. SameLinks o (lookup f nodes)) (string_discrete p f)
          (λ _. links-circular (lookup f nodes)) (λ _. (refl, refl))) in
    (rest.0 ∙ entry.0, rest.1 ∙ entry.1)

links-mark_all :
    (cycles : List (List String)) (nodes : Nodes) (f : String)
    → SameLinks (lookup f (mark_all cycles nodes)) (lookup f nodes)
unfolding mark_all SameLinks
links-mark_all [] nodes f = (refl, refl)
links-mark_all (c ∷ cycles) nodes f =
    let (a, b) = links-mark_all cycles (mark c nodes) f in
    let (a', b') = links-mark c nodes f in (a ∙ a', b ∙ b')

-- For distinct paths `build` returns, and the files that it enters as importing `f` are files that
-- `f` itself imports: the backward references point the same way as the imports.
pub build_reverses :
    (file_list : List (String × Option (List String)))
    → AreDistinct file_list
    → (nodes : Nodes) × (build file_list ≡ some nodes)
      × ((f d : String) → Memᴰ d (get_dependents nodes f) → Memᴰ d (get_dependencies nodes f))
unfolding build detect_circular_dependencies_marking SameLinks get_dependents get_dependencies
build_reverses file_list a =
    let blank = IsBlank-add_nodes file_list [] IsBlank-nil in
    let nodes = add_files file_list (add_nodes file_list []) in
    let inv =
      Inv-add_files file_list (add_nodes file_list []) a (Inv-blank (paths file_list) _ blank) in
    let (cycles, found, _, _) = detect_circular_dependencies_lem nodes in
    (
      mark_all cycles nodes,
      ap (Option.map (λ cs. mark_all cs nodes)) found,
      λ f d m.
          let (deps, back) = links-mark_all cycles nodes f in
          subst (Memᴰ d) (sym deps) (inv.reversed f d (subst (Memᴰ d) back m)),
    )
