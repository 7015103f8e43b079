-- ===== src/Codebase/Impact.antt =====
-- `get_impacted_files` of codebase/dependency_graph.py. A set is the list of its items in the order
-- of insertion. The `while` loop takes fuel; `none` says that the fuel did not suffice.
pub mod Loop
pub mod Reachable
use Prim.Native.Nat.{Ordering}
use Prim.Native.String.{compare}
use fastcoder.Base.{
  ℕ, zero, suc, ◌+◌, String, List, [], ◌∷◌, ◌++◌, Option, none, some, if◌then◌else◌, length,
}
use mathlib.Core.List.{foldl}
use mathlib.Core.Option
use fastcoder.Codebase.{Nodes, contains, get_dependents}

pub record Walk : Type 0 where
  pub impacted : List String
  pub to_process : List String

-- The body of the `for` loop.
unfoldable pub offer : Walk → String → Walk
unfolding contains
offer w dependent = if contains dependent w.impacted then w else record {
  impacted = w.impacted ++ dependent ∷ [];
  to_process = w.to_process ++ dependent ∷ [];
}

unfoldable pub scan : Walk → List String → Walk
unfolding offer
scan = foldl offer

-- One round of the `while` loop, after `current` left the head of the list.
unfoldable pub expand : Nodes → Walk → String → List String → Walk
unfolding scan get_dependents
expand nodes w current rest =
    scan (record { impacted = w.impacted; to_process = rest }) (get_dependents nodes current)

unfoldable pub loop : Nodes → ℕ → Walk → Option (List String)
unfolding expand
loop nodes zero w = elim w.to_process [ [] ↦ some w.impacted | _ ∷ _ ↦ none ]
loop nodes (suc fuel) w = elim w.to_process [
  | [] ↦ some w.impacted
  | current ∷ rest ↦ loop nodes fuel (expand nodes w current rest)
]

-- `set(xs)`
unfoldable pub to_set : List String → List String → List String
unfolding contains
to_set seen [] = seen
to_set seen (x ∷ xs) = to_set (if contains x seen then seen else seen ++ x ∷ []) xs

-- `sorted(xs)`, which orders texts by their characters
unfoldable pub insert : String → List String → List String
insert x [] = x ∷ []
insert x (y ∷ ys) = elim (compare x y) [
  | Ordering.lt ↦ x ∷ y ∷ ys
  | Ordering.eq ↦ x ∷ y ∷ ys
  | Ordering.gt ↦ y ∷ insert x ys
]

unfoldable pub sorted : List String → List String
unfolding insert
sorted [] = []
sorted (x ∷ xs) = insert x (sorted xs)

-- All that can join the list: the entries of every `imported_by`.
unfoldable pub all_dependents : Nodes → List String
all_dependents [] = []
all_dependents ((_, node) ∷ nodes) = node.imported_by ++ all_dependents nodes

abbrev pub start : List String → Walk
unfolding to_set
start changed_files = record { impacted = to_set [] changed_files; to_process = changed_files }

unfoldable pub get_impacted_files : Nodes → List String → Option (List String)
unfolding loop sorted all_dependents start
get_impacted_files nodes changed_files =
    Option.map sorted
      (loop nodes (length changed_files + length (all_dependents nodes)) (start changed_files))
