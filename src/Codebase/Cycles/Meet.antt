-- ===== src/Codebase/Cycles/Meet.antt =====
-- The loop of `dfs` on the neighbours of a file.
use fastcoder.Base.{
  ℕ, ◌≤◌, String, ◌≡◌, refl, ap, sym, subst, ◌∙◌, inl, inr, ⊎_elim, true, false, List, [], ◌∷◌,
  ◌++◌, Memᴰ, All, Option, some, arith, Bool-cases, Memᴰ-snoc,
}
use mathlib.Core.Option
use fastcoder.Codebase.{Nodes, contains, get_dependencies}
use fastcoder.Codebase.Impact.Loop.{contains-eq-true_iff, fresh}
use fastcoder.Codebase.Cycles.{State, is_known, report, from_index, meet, meet_all, dfs}
use fastcoder.Codebase.Cycles.Acyclic.{
  Edge, IsChain, IsCycle, Ends, IsChain-snoc, from_index_closes,
}
use fastcoder.Codebase.Cycles.Search.{keys, Inv, Grows, Grows-refl, Grows-trans}

module _ (nodes : Nodes) where
  -- A call that `dfs` can make, with the fuel it needs.
  pub record Ready (fuel : ℕ) (f : String) (s : State) : Type 0 where
    pub inv : Inv nodes s
    pub known : is_known nodes f ≡ true
    pub new : contains f s.visited ≡ false
    pub chain : IsChain nodes (s.path ++ f ∷ [])
    pub enough : fresh (keys nodes) s.visited ≤ fuel

  -- What a call on `f` gives from `s`.
  pub record Visited (f : String) (s t : State) : Type 0 where
    pub inv : Inv nodes t
    pub grows : Grows nodes s t
    pub visited : contains f t.visited ≡ true
    pub ends : t.cycles ≡ [] → Ends nodes f

  -- What the loop on the neighbours in `fs` gives from `s`.
  pub record Met (fs : List String) (s t : State) : Type 0 where
    pub inv : Inv nodes t
    pub grows : Grows nodes s t
    pub ends : t.cycles ≡ [] → All (λ f. is_known nodes f ≡ true → Ends nodes f) fs

  abbrev pub Serves : ℕ → Type 0
  Serves fuel =
      (f : String) (s : State)
      → Ready fuel f s
      → (t : State) × (dfs nodes fuel f s ≡ some t) × Visited f s t

  -- `s` is a state of the loop on the neighbours of `f`, which ends the path.
  pub record Inside (fuel : ℕ) (f : String) (p : List String) (s : State) : Type 0 where
    pub inv : Inv nodes s
    pub path : s.path ≡ p ++ f ∷ []
    pub enough : fresh (keys nodes) s.visited ≤ fuel

  snoc_not_nil :
      (xs : List String) (c : List (List String)) (d : List String) → ¬ (c ++ d ∷ [] ≡ [])
  snoc_not_nil xs [] d e = cc
  snoc_not_nil xs (_ ∷ _) d e = cc

  Inv-report :
      (f g : String) (p slice : List String) (s : State)
      → Inv nodes s
      → IsCycle nodes (slice ++ g ∷ [])
      → Inv nodes (report g s slice)
  Inv-report f g p slice s h c = record {
    stack = h.stack;
    entered = h.entered;
    finished = λ e. absurd (snoc_not_nil slice s.cycles _ e);
    cyclic = λ d m.
        ⊎_elim (h.cyclic d) (λ same. subst (IsCycle nodes) (sym same) c)
          ((Memᴰ-snoc d _ s.cycles).0 m);
    chain = h.chain;
  }

  Grows-report : (g : String) (slice : List String) (s : State) → Grows nodes s (report g s slice)
  Grows-report g slice s = record {
    same_path = refl;
    visits = λ f h. h;
    fewer = omega arith;
    silent = λ e. absurd (snoc_not_nil slice s.cycles _ e);
  }

  module _ (visit : String → State → Option State) (g : String) (s : State) where
    meet_unknown : is_known nodes g ≡ false → meet nodes visit g s ≡ some s
    unfolding meet
    meet_unknown e = ground arith

    meet_new :
        is_known nodes g ≡ true → contains g s.visited ≡ false → meet nodes visit g s ≡ visit g s
    unfolding meet
    meet_new e n = ground arith

    meet_open :
        is_known nodes g ≡ true
        → contains g s.visited ≡ true
        → contains g s.rec_stack ≡ true
        → meet nodes visit g s ≡ Option.map (report g s) (from_index g s.path)
    unfolding meet
    meet_open e v r = ground arith

    meet_closed :
        is_known nodes g ≡ true
        → contains g s.visited ≡ true
        → contains g s.rec_stack ≡ false
        → meet nodes visit g s ≡ some s
    unfolding meet
    meet_closed e v r = ground arith

  -- A neighbour on the path closes a cycle.
  Met-open :
      (f g : String) (p : List String) (s : State)
      → Inv nodes s
      → s.path ≡ p ++ f ∷ []
      → Edge nodes f g
      → contains g s.rec_stack ≡ true
      → (slice : List String) × (from_index g s.path ≡ some slice)
        × Met (g ∷ []) s (report g s slice)
  Met-open f g p s h e edge r =
      let on_path = (contains-eq-true_iff g s.path).0 (ap (contains g) (sym h.stack) ∙ r) in
      let (slice, found, closes) =
        from_index_closes nodes p f g (subst (Memᴰ g) e on_path) (subst (IsChain nodes) e h.chain)
          edge in
      (
        slice,
        ap (from_index g) e ∙ found,
        record {
          inv = Inv-report f g p slice s h closes;
          grows = Grows-report g slice s;
          ends = λ quiet. absurd (snoc_not_nil slice s.cycles _ quiet);
        },
      )

  -- A neighbour that was left before reports nothing, and the chains from it end.
  Met-closed :
      (g : String) (s : State)
      → Inv nodes s
      → contains g s.visited ≡ true
      → contains g s.rec_stack ≡ false
      → Met (g ∷ []) s s
  Met-closed g s h v r = record {
    inv = h;
    grows = Grows-refl nodes s;
    ends = λ quiet.
        ⊎_elim
          (λ m. absurd (cc (sym r ∙ ap (contains g) h.stack ∙ (contains-eq-true_iff g s.path).1 m)))
          (λ ends. (λ _. ends, tt)) (h.finished quiet g v);
  }

  module _ (fuel : ℕ) (serves : Serves fuel) (f : String) (p : List String) where
    meet_served :
        (g : String) (s : State)
        → Memᴰ g (get_dependencies nodes f)
        → Inside fuel f p s
        → (t : State) × (meet nodes (dfs nodes fuel) g s ≡ some t) × Met (g ∷ []) s t
    meet_served g s m h = elim (Bool-cases (is_known nodes g)) [
      | inr unknown ↦ (
        s,
        meet_unknown (dfs nodes fuel) g s unknown,
        record {
          inv = h.inv;
          grows = Grows-refl nodes s;
          ends = λ quiet. (λ known. absurd (cc (sym unknown ∙ known)), tt);
        },
      )
      | inl known ↦ elim (Bool-cases (contains g s.visited)) [
        | inr new ↦
            let chain =
              subst (λ q. IsChain nodes (q ++ g ∷ [])) (sym h.path)
                (IsChain-snoc nodes p f g (subst (IsChain nodes) h.path h.inv.chain) (m, known)) in
            let (t, e, v) = serves g s (record {
              inv = h.inv;
              known = known;
              new = new;
              chain = chain;
              enough = h.enough;
            }) in
            (
              t,
              meet_new (dfs nodes fuel) g s known new ∙ e,
              record { inv = v.inv; grows = v.grows; ends = λ quiet. (λ _. v.ends quiet, tt) },
            )
        | inl visited ↦ elim (Bool-cases (contains g s.rec_stack)) [
          | inl r ↦
              let (slice, e, met) = Met-open f g p s h.inv h.path (m, known) r in
              (
                report g s slice,
                meet_open (dfs nodes fuel) g s known visited r ∙ ap (Option.map (report g s)) e,
                met,
              )
          | inr r ↦
              (s, meet_closed (dfs nodes fuel) g s known visited r, Met-closed g s h.inv visited r)
        ]
      ]
    ]

    pub meet_all_served :
        (gs : List String) (s : State)
        → ((g : String) → Memᴰ g gs → Memᴰ g (get_dependencies nodes f))
        → Inside fuel f p s
        → (t : State) × (meet_all nodes (dfs nodes fuel) gs s ≡ some t) × Met gs s t
    unfolding meet_all Option.bind
    meet_all_served [] s sub h =
        (s, refl, record { inv = h.inv; grows = Grows-refl nodes s; ends = λ _. tt })
    meet_all_served (g ∷ gs) s sub h =
        let (t, e, one) = meet_served g s (sub g (Memᴰ.head refl)) h in
        let next : Inside fuel f p t = record {
          inv = one.inv;
          path = one.grows.same_path ∙ h.path;
          enough = omega (arith, one.grows.fewer, h.enough);
        } in
        let (u, e', rest) = meet_all_served gs t (λ x m. sub x (Memᴰ.tail m)) next in
        (
          u,
          ap (λ o. Option.bind o (meet_all nodes (dfs nodes fuel) gs)) e ∙ e',
          record {
            inv = rest.inv;
            grows = Grows-trans nodes one.grows rest.grows;
            ends = λ quiet. ((one.ends (rest.grows.silent quiet)).0, rest.ends quiet);
          },
        )
