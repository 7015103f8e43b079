-- ===== src/Codebase/Impact/Reachable.antt =====
-- What `get_impacted_files` finds: the files that the entries `imported_by` lead to.
use fastcoder.Base.{
  String, ◌≡◌, refl, sym, ap, ◌∙◌, subst, ◌↔◌, ◌⊎◌, inl, inr, ⊎_elim, true, false, List, [], ◌∷◌,
  ◌++◌, Memᴰ, some, arith, Memᴰ-snoc, Memᴰ-cons,
}
use mathlib.Core.List.Memᴰ
use mathlib.Core.Option
use fastcoder.Codebase.{Nodes, contains, get_dependents}
use fastcoder.Codebase.Impact.{
  Walk, offer, scan, expand, to_set, insert, sorted, start, get_impacted_files,
}
use fastcoder.Codebase.Impact.Loop.{contains-eq-true_iff, contains-snoc, loop_rule, loop_returns}

-- The chains of entries `imported_by` that begin at a changed file.
pub data Impacts (nodes : Nodes) (changed : List String) : String → Type 0 where
  here : {f : String} → Memᴰ f changed → Impacts nodes changed f
  next :
      {f d : String}
      → Impacts nodes changed f
      → Memᴰ d (get_dependents nodes f)
      → Impacts nodes changed d

contains-scan :
    (w : Walk) (ds : List String) (f : String)
    → (contains f (scan w ds).impacted ≡ true) ↔ ((contains f w.impacted ≡ true) ⊎ Memᴰ f ds)
unfolding scan offer
contains-scan w [] f = (inl, ⊎_elim (λ m. m) (λ m. absurd (Memᴰ.not-nil m)))
contains-scan w (d ∷ ds) f =
    ground (arith, contains-scan (offer w d) ds f, contains-snoc f d w.impacted, Memᴰ-cons f d ds)

waiting-scan :
    (w : Walk) (ds : List String) (f : String)
    → Memᴰ f (scan w ds).to_process ↔ (
        Memᴰ f w.to_process
        ⊎ (contains f (scan w ds).impacted ≡ true) × (contains f w.impacted ≡ false))
unfolding scan offer
waiting-scan w [] f = (inl, ⊎_elim (λ m. m) (λ (now, before). cc))
waiting-scan w (d ∷ ds) f = ground (
  arith,
  waiting-scan (offer w d) ds f,
  contains-scan (offer w d) ds f,
  contains-snoc f d w.impacted,
  Memᴰ-snoc f d w.to_process,
)

contains-to_set :
    (seen xs : List String) (f : String)
    → (contains f (to_set seen xs) ≡ true) ↔ ((contains f seen ≡ true) ⊎ Memᴰ f xs)
unfolding to_set
contains-to_set seen [] f = (inl, ⊎_elim (λ m. m) (λ m. absurd (Memᴰ.not-nil m)))
contains-to_set seen (x ∷ xs) f = ground (
  arith,
  contains-to_set seen xs f,
  contains-to_set (seen ++ x ∷ []) xs f,
  contains-snoc f x seen,
  Memᴰ-cons f x xs,
)

mem-insert : (x f : String) (ys : List String) → Memᴰ f (insert x ys) ↔ Memᴰ f (x ∷ ys)
unfolding insert
mem-insert x f [] = (λ m. m, λ m. m)
mem-insert x f (y ∷ ys) = ground (
  arith,
  mem-insert x f ys,
  Memᴰ-cons f x (y ∷ ys),
  Memᴰ-cons f x ys,
  Memᴰ-cons f y ys,
  Memᴰ-cons f y (insert x ys),
)

mem-sorted : (f : String) (xs : List String) → Memᴰ f (sorted xs) ↔ Memᴰ f xs
unfolding sorted
mem-sorted f [] = (λ m. m, λ m. m)
mem-sorted f (x ∷ xs) = ground (
  arith,
  mem-insert x f (sorted xs),
  mem-sorted f xs,
  Memᴰ-cons f x xs,
  Memᴰ-cons f x (sorted xs),
)

module _ (nodes : Nodes) (changed : List String) where
  record Inv (w : Walk) : Type 0 where
    source : (f : String) → Memᴰ f changed → contains f w.impacted ≡ true
    waiting : (f : String) → Memᴰ f w.to_process → contains f w.impacted ≡ true
    sound : (f : String) → contains f w.impacted ≡ true → Impacts nodes changed f
    closed :
        (f d : String)
        → contains f w.impacted ≡ true
        → Memᴰ d (get_dependents nodes f)
        → Memᴰ f w.to_process ⊎ (contains d w.impacted ≡ true)

  Inv-start : Inv (start changed)
  unfolding start
  Inv-start =
      let set = λ (f : String). contains-to_set [] changed f in
      record {
        source = λ f m. (set f).1 (inr m);
        waiting = λ f m. (set f).1 (inr m);
        sound = λ f h.
            ⊎_elim (λ e. absurd (Memᴰ.not-nil ((contains-eq-true_iff f []).0 e))) here
              ((set f).0 h);
        closed = λ f d h m.
            ⊎_elim (λ e. absurd (Memᴰ.not-nil ((contains-eq-true_iff f []).0 e))) inl ((set f).0 h);
      }

  Inv-expand :
      (w : Walk) (current : String) (rest : List String)
      → w.to_process ≡ current ∷ rest
      → Inv w
      → Inv (expand nodes w current rest)
  unfolding expand
  Inv-expand w current rest e h =
      let popped : Walk = record { impacted = w.impacted; to_process = rest } in
      let ds = get_dependents nodes current in
      let flags = λ (f : String). contains-scan popped ds f in
      let queue = λ (f : String). waiting-scan popped ds f in
      let to_current = sound current (waiting current (simp e (Memᴰ.head refl))) in
      record {
        source = λ f m. (flags f).1 (inl (source f m));
        waiting = λ f m. ground (arith, flags f, queue f, waiting f, Memᴰ-cons f current rest);
        sound = λ f c. ⊎_elim (sound f) (next to_current) ((flags f).0 c);
        closed = λ f d c m.
            ground (arith, flags f, flags d, queue f, closed f d, Memᴰ-cons f current rest);
      }
    where
      open h use {source, waiting, sound, closed}

  complete :
      (w : Walk)
      → Inv w
      → w.to_process ≡ []
      → {f : String} → Impacts nodes changed f
      → contains f w.impacted ≡ true
  complete w h e (here m) = h.source _ m
  complete w h e (next {f} {d} p m) = elim (h.closed f d (complete w h e p) m) [
    | inl left ↦ absurd (Memᴰ.not-nil (subst (Memᴰ f) e left))
    | inr c ↦ c
  ]

-- `get_impacted_files` returns whatever the graph holds, and its result has
-- exactly the files that some chain of entries `imported_by` leads to from a changed file, the
-- changed files themselves included.
pub get_impacted_files_lem :
    (nodes : Nodes) (changed : List String)
    → (found : List String) × (get_impacted_files nodes changed ≡ some found)
      × ((f : String) → (contains f found ≡ true) ↔ Impacts nodes changed f)
unfolding get_impacted_files
get_impacted_files_lem nodes changed =
    let (set, ends) = loop_returns nodes changed in
    let (last, inv, empty, same) =
      loop_rule nodes (Inv nodes changed) (Inv-expand nodes changed) _ (start changed) set
        (Inv-start nodes changed) ends in
    (
      sorted set,
      ap (Option.map sorted) ends,
      λ f.
          let there = contains-eq-true_iff f (sorted set) in
          let order = mem-sorted f set in
          let plain = contains-eq-true_iff f set in
          let same_flag = ap (contains f) same in
          (
            λ h. inv.sound f (same_flag ∙ plain.1 (order.0 (there.0 h))),
            λ p.
                there.1
                  (order.1 (plain.0 (sym same_flag ∙ complete nodes changed last inv empty p))),
          ),
    )
