-- ===== src/Codebase/Impact/Loop.antt =====
-- The `while` loop of `get_impacted_files` ends.
use fastcoder.Base.{
  ℕ, zero, suc, ◌+◌, ◌≤◌, ◌<◌, String, ◌≡◌, refl, ap, ◌↔◌, ◌⊎◌, inl, inr, true, false, List, [],
  ◌∷◌, ◌++◌, Memᴰ, some, arith, length, length-append, if◌then◌else◌, ite, List-cases, Memᴰ-snoc,
  elem-eq-true_iff, string_discrete,
}
use mathlib.Core.List.Memᴰ
use fastcoder.Base.Dict
use fastcoder.Codebase.{Nodes, imported_by_of, lookup, contains, get_dependents}
use fastcoder.Codebase.Impact.{Walk, offer, scan, expand, loop, start, all_dependents}

pub contains-eq-true_iff : (a : String) (xs : List String) → (contains a xs ≡ true) ↔ Memᴰ a xs
unfolding contains
contains-eq-true_iff = elem-eq-true_iff string_discrete

pub contains-snoc :
    (a x : String) (xs : List String)
    → (contains a (xs ++ x ∷ []) ≡ true) ↔ ((contains a xs ≡ true) ⊎ (a ≡ x))
contains-snoc a x xs =
    ground
      (arith, contains-eq-true_iff a (xs ++ x ∷ []), contains-eq-true_iff a xs, Memᴰ-snoc a x xs)

-- The names of `all` that are not in `seen`, as often as they stand there.
abbrev pub fresh : List String → List String → ℕ
fresh [] seen = 0
fresh (x ∷ all) seen = let rest = fresh all seen in if contains x seen then rest else suc rest

pub fresh-le-length : (all seen : List String) → fresh all seen ≤ length all
fresh-le-length [] seen = omega arith
fresh-le-length (x ∷ all) seen = ground (arith, fresh-le-length all seen)

fresh-snoc-le : (all seen : List String) (d : String) → fresh all (seen ++ d ∷ []) ≤ fresh all seen
fresh-snoc-le [] seen d = omega arith
fresh-snoc-le (x ∷ all) seen d = ground (arith, fresh-snoc-le all seen d, contains-snoc x d seen)

pub fresh-snoc-lt :
    (all seen : List String) (d : String)
    → Memᴰ d all
    → contains d seen ≡ false
    → fresh all (seen ++ d ∷ []) < fresh all seen
fresh-snoc-lt [] seen d m h = absurd (Memᴰ.not-nil m)
fresh-snoc-lt (x ∷ all) seen d (Memᴰ.head e) h =
    ground (arith, fresh-snoc-le all seen d, contains-snoc x d seen)
fresh-snoc-lt (x ∷ all) seen d (Memᴰ.tail m) h =
    ground (arith, fresh-snoc-lt all seen d m h, contains-snoc x d seen)

-- What is left to do: the names that are not reached yet, and those that wait.
abbrev work : List String → Walk → ℕ
work all w = fresh all w.impacted + length w.to_process

offer-work :
    (all : List String) (w : Walk) (d : String) → Memᴰ d all → work all (offer w d) ≤ work all w
unfolding offer
offer-work all w d m =
    ground (arith, fresh-snoc-lt all w.impacted d m, length-append w.to_process (d ∷ []))

scan-work :
    (all : List String) (w : Walk) (ds : List String)
    → ((d : String) → Memᴰ d ds → Memᴰ d all)
    → work all (scan w ds) ≤ work all w
unfolding scan
scan-work all w [] h = omega arith
scan-work all w (d ∷ ds) h = omega (
  arith,
  offer-work all w d (h d (Memᴰ.head refl)),
  scan-work all (offer w d) ds (λ x m. h x (Memᴰ.tail m)),
)

dependents_in_all :
    (nodes : Nodes) (f d : String) → Memᴰ d (get_dependents nodes f) → Memᴰ d (all_dependents nodes)
unfolding get_dependents lookup all_dependents Dict.get
dependents_in_all [] f d m = absurd (Memᴰ.not-nil m)
dependents_in_all ((k, node) ∷ nodes) f d m =
    own (string_discrete k f) (dependents_in_all nodes f d) m
  where
    own :
        (same : Dec (k ≡ f))
        → (Memᴰ d (get_dependents nodes f) → Memᴰ d (all_dependents nodes))
        → Memᴰ d (imported_by_of (ite same (some node) (lookup f nodes)))
        → Memᴰ d (node.imported_by ++ all_dependents nodes)
    own (yes e) rest m = Memᴰ.append_left _ m
    own (no n) rest m = Memᴰ.append_right _ (rest m)

module _ (nodes : Nodes) where
  loop_ends :
      (fuel : ℕ) (w : Walk)
      → work (all_dependents nodes) w ≤ fuel
      → (found : List String) × (loop nodes fuel w ≡ some found)
  unfolding loop expand
  loop_ends zero w h = (w.impacted, ground (arith, List-cases w.to_process))
  loop_ends (suc fuel) w h = elim (List-cases w.to_process) [
    | inl empty ↦ (w.impacted, simp (empty, loop))
    | inr (current, rest, e) ↦
        let popped : Walk = record { impacted = w.impacted; to_process = rest } in
        let less =
          scan-work (all_dependents nodes) popped (get_dependents nodes current)
            (dependents_in_all nodes current) in
        let (found, ends) =
          loop_ends fuel (expand nodes w current rest) (omega (arith, ap length e)) in
        (found, ground arith)
  ]

  -- A property that each round keeps holds at the end, where nothing is left to process.
  pub loop_rule {ℓ} :
      (P : Walk → Type ℓ)
      → ((w : Walk) (current : String) (rest : List String)
          → w.to_process ≡ current ∷ rest
          → P w
          → P (expand nodes w current rest))
      → (fuel : ℕ) (w : Walk) (found : List String) → P w
      → loop nodes fuel w ≡ some found
      → (last : Walk) × P last × (last.to_process ≡ []) × (last.impacted ≡ found)
  unfolding loop
  loop_rule P keep zero w found p h = elim (List-cases w.to_process) [
    | inl empty ↦ (w, p, empty, ground arith)
    | inr (current, rest, e) ↦ absurd (ground arith)
  ]
  loop_rule P keep (suc fuel) w found p h = elim (List-cases w.to_process) [
    | inl empty ↦ (w, p, empty, ground arith)
    | inr (current, rest, e) ↦
        loop_rule P keep fuel (expand nodes w current rest) found (keep w current rest e p)
          (rw (e, loop) at h)
  ]

  pub loop_returns :
      (changed : List String)
      → (found : List String) × (loop nodes
            (length changed + length (all_dependents nodes))
            (start changed)
          ≡ some found)
  unfolding all_dependents start
  loop_returns changed =
      loop_ends _ (start changed)
        (omega (arith, fresh-le-length (all_dependents nodes) (start changed).impacted))
