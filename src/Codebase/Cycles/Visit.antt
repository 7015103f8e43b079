-- ===== src/Codebase/Cycles/Visit.antt =====
-- `dfs` returns, what it reports is a cycle, and where it reports nothing the chains end.
use fastcoder.Base.{
  ℕ, zero, suc, ◌≤◌, String, ◌≡◌, refl, ap, sym, subst, ◌∙◌, ◌↔◌, inl, inr, ⊎_elim, true, false,
  List, [], ◌∷◌, ◌++◌, Memᴰ, All, some, arith, length, Bool-cases, All-mem,
}
use mathlib.Core.WellFounded.{Acc}
use mathlib.Core.List.Memᴰ
use mathlib.Core.Option
use fastcoder.Codebase.{DependencyNode, Nodes, contains, get_dependencies}
use fastcoder.Codebase.Impact.Loop.{contains-eq-true_iff, contains-snoc, fresh, fresh-le-length}
use fastcoder.Codebase.Cycles.{
  State, is_known, enter, leave, dfs, dfs_all, empty_state, detect_circular_dependencies,
}
use fastcoder.Codebase.Cycles.Acyclic.{IsChain, IsCycle, Ends, no-IsCycle}
use fastcoder.Codebase.Cycles.Meet.{Serves, Inside, meet_all_served}
use fastcoder.Codebase.Cycles.Search.{
  keys, mem-keys_iff, leave-snoc, Inv, Grows, Grows-refl, Grows-trans, Inv-enter, fresh-enter,
  Inv-leave,
}

module _ (nodes : Nodes) where
  dfs-Serves : (fuel : ℕ) → Serves nodes fuel
  unfolding dfs Option.bind
  dfs-Serves zero f s h = absurd (omega (arith, fresh-enter nodes f s h.known h.new, h.enough))
  dfs-Serves (suc fuel) f s h =
      let inside : Inside nodes fuel f s.path (enter f s) = record {
        inv = Inv-enter nodes f s h.inv h.chain;
        path = refl;
        enough = omega (arith, fresh-enter nodes f s h.known h.new, h.enough);
      } in
      let (t, e, met) =
        meet_all_served nodes fuel (dfs-Serves fuel) f s.path (get_dependencies nodes f) (enter f s)
          (λ g m. m) inside in
      let ends = λ (quiet : t.cycles ≡ []). all_end (met.ends quiet) in
      let off_path : ¬ Memᴰ f s.path = λ m. cc (sym h.new ∙ h.inv.entered f m) in
      (
        record t { path = s.path; rec_stack = s.path },
        ap (λ o. Option.bind o (leave f)) e
            ∙ leave-snoc f s.path t met.grows.same_path (met.inv.stack ∙ met.grows.same_path)
                off_path,
        record {
          inv = Inv-leave nodes f s t h.inv h.new met.inv met.grows.same_path ends;
          grows = record {
            same_path = refl;
            visits = λ g v. met.grows.visits g ((contains-snoc g f s.visited).1 (inl v));
            fewer = omega (arith, fresh-enter nodes f s h.known h.new, met.grows.fewer);
            silent = met.grows.silent;
          };
          visited = met.grows.visits f ((contains-snoc f f s.visited).1 (inr refl));
          ends = ends;
        },
      )
    where
      all_end :
          All (λ g. is_known nodes g ≡ true → Ends nodes g) (get_dependencies nodes f)
          → Ends nodes f
      all_end a = Acc.intro f (λ g (m, known). All-mem _ (get_dependencies nodes f) g a m known)

  -- What the loop over the files gives: all of them are visited.
  record Swept (files : Nodes) (s t : State) : Type 0 where
    inv : Inv nodes t
    grows : Grows nodes s t
    visited : (f : String) → Memᴰ f (keys files) → contains f t.visited ≡ true

  module _ (fuel : ℕ) (f : String) (node : DependencyNode) (files : Nodes) (s : State) where
    dfs_all_new :
        contains f s.visited ≡ false
        → dfs_all nodes fuel ((f, node) ∷ files) s
          ≡ Option.bind (dfs nodes fuel f s) (dfs_all nodes fuel files)
    unfolding dfs_all
    dfs_all_new n = ground arith

    dfs_all_old :
        contains f s.visited ≡ true
        → dfs_all nodes fuel ((f, node) ∷ files) s ≡ dfs_all nodes fuel files s
    unfolding dfs_all
    dfs_all_old v = ground arith

  Swept-cons :
      {s t u : State} (f : String) (node : DependencyNode) (files : Nodes)
      → Grows nodes s t
      → contains f t.visited ≡ true
      → Swept files t u
      → Swept ((f, node) ∷ files) s u
  Swept-cons {u = u} f node files g v rest = record {
    inv = rest.inv;
    grows = Grows-trans nodes g rest.grows;
    visited = λ x m.
        ⊎_elim (λ same. subst (λ y. contains y u.visited ≡ true) (sym same) (rest.grows.visits f v))
          (rest.visited x) (Memᴰ.cases_cons m);
  }

  dfs_all-Swept :
      (fuel : ℕ) (files : Nodes) (s : State)
      → ((f : String) → Memᴰ f (keys files) → is_known nodes f ≡ true)
      → Inv nodes s
      → s.path ≡ []
      → fresh (keys nodes) s.visited ≤ fuel
      → (t : State) × (dfs_all nodes fuel files s ≡ some t) × Swept files s t
  unfolding dfs_all Option.bind
  dfs_all-Swept fuel [] s known h e enough = (
    s,
    refl,
    record { inv = h; grows = Grows-refl nodes s; visited = λ f m. absurd (Memᴰ.not-nil m) },
  )
  dfs_all-Swept fuel ((f, node) ∷ files) s known h e enough =
      elim (Bool-cases (contains f s.visited)) [
        | inl old ↦
            let (u, run, rest) =
              dfs_all-Swept fuel files s (λ g m. known g (Memᴰ.tail m)) h e enough in
            (
              u,
              dfs_all_old fuel f node files s old ∙ run,
              Swept-cons f node files (Grows-refl nodes s) old rest,
            )
        | inr new ↦
            let (t, visit, v) = dfs-Serves fuel f s (record {
              inv = h;
              known = known f (Memᴰ.head refl);
              new = new;
              chain = subst (λ p. IsChain nodes (p ++ f ∷ [])) (sym e) tt;
              enough = enough;
            }) in
            let (u, run, rest) =
              dfs_all-Swept fuel files t (λ g m. known g (Memᴰ.tail m)) v.inv
                (v.grows.same_path ∙ e) (omega (arith, v.grows.fewer, enough)) in
            (
              u,
              dfs_all_new fuel f node files s new
                  ∙ ap (λ o. Option.bind o (dfs_all nodes fuel files)) visit
                  ∙ run,
              Swept-cons f node files v.grows v.visited rest,
            )
      ]

  length-keys : (files : Nodes) → length (keys files) ≡ length files
  length-keys [] = refl
  length-keys (_ ∷ files) = ap suc (length-keys files)

  Inv-empty_state : Inv nodes empty_state
  Inv-empty_state = record {
    stack = refl;
    entered = λ f m. absurd (Memᴰ.not-nil m);
    finished = λ e f v. absurd (Memᴰ.not-nil ((contains-eq-true_iff f []).0 v));
    cyclic = λ c m. absurd (Memᴰ.not-nil m);
    chain = tt;
  }

  Swept-Ends :
      (t : State)
      → Swept nodes empty_state t
      → t.cycles ≡ []
      → (f : String) → is_known nodes f ≡ true
      → Ends nodes f
  Swept-Ends t h quiet f k =
      ⊎_elim (λ m. absurd (Memᴰ.not-nil (subst (Memᴰ f) h.grows.same_path m))) (λ ends. ends)
        (h.inv.finished quiet f (h.visited f ((mem-keys_iff nodes f).0 k)))

  no_cycle_reported :
      (cycles : List (List String))
      → ((c : List String) → Memᴰ c cycles → IsCycle nodes c)
      → ((c : List String) → ¬ IsCycle nodes c)
      → cycles ≡ []
  no_cycle_reported [] h n = refl
  no_cycle_reported (c ∷ _) h n = absurd (n c (h c (Memᴰ.head refl)))

-- `detect_circular_dependencies` returns for every graph, without an error. Each list that it
-- reports is a cycle of imports between files of the graph, and it reports none exactly where the
-- graph has no cycle.
pub detect_circular_dependencies_lem :
    (nodes : Nodes)
    → (cycles : List (List String)) × (detect_circular_dependencies nodes ≡ some cycles)
      × ((c : List String) → Memᴰ c cycles → IsCycle nodes c)
      × ((cycles ≡ []) ↔ ((c : List String) → ¬ IsCycle nodes c))
unfolding detect_circular_dependencies
detect_circular_dependencies_lem nodes =
    let (t, run, swept) =
      dfs_all-Swept nodes (length nodes) nodes empty_state (λ f m. (mem-keys_iff nodes f).1 m)
        (Inv-empty_state nodes) refl
        (omega (arith, fresh-le-length (keys nodes) [], length-keys nodes nodes)) in
    (
      t.cycles,
      ap (Option.map State.cycles) run,
      swept.inv.cyclic,
      (
        λ quiet. no-IsCycle nodes (Swept-Ends nodes t swept quiet),
        no_cycle_reported nodes t.cycles swept.inv.cyclic,
      ),
    )
