-- ===== src/Codebase/Cycles.antt =====
-- `detect_circular_dependencies` of codebase/dependency_graph.py, and `build`, which marks the files
-- that it finds. `dfs` takes fuel; `none` stands for fuel that did not suffice and for the errors
-- that `list.index`, `list.pop` and `set.remove` raise.
pub mod Search
pub mod Meet
pub mod Visit
pub mod Acyclic
use fastcoder.Base.{
  ℕ, zero, suc, String, Bool, true, false, not, List, [], ◌∷◌, ◌++◌, Option, none, some, ite,
  if◌then◌else◌, length, remove_first, string_discrete,
}
use fastcoder.Base.Dict
use mathlib.Core.Option
use fastcoder.Codebase.{
  DependencyNode, Nodes, lookup, contains, get_dependencies, add_nodes, add_files,
}

-- The variables that `dfs` shares.
pub record State : Type 0 where
  pub cycles : List (List String)
  pub visited : List String
  pub rec_stack : List String
  pub path : List String

abbrev pub some? : Option DependencyNode → Bool
some? (some _) = true
some? none = false

-- `neighbor in self.nodes`
unfoldable pub is_known : Nodes → String → Bool
unfolding lookup
is_known nodes f = some? (lookup f nodes)

-- `path[path.index(f):]`
unfoldable pub from_index : String → List String → Option (List String)
unfolding string_discrete
from_index f [] = none
from_index f (x ∷ xs) = let rest = from_index f xs in ite (string_discrete f x) (some (x ∷ xs)) rest

-- `path.pop()`
unfoldable pub pop : List String → Option (List String)
pop [] = none
pop (x ∷ []) = some []
pop (x ∷ y ∷ xs) = Option.map (λ rest. x ∷ rest) (pop (y ∷ xs))

abbrev pub enter : String → State → State
enter node_path s = record s {
  visited = s.visited ++ node_path ∷ [];
  rec_stack = s.rec_stack ++ node_path ∷ [];
  path = s.path ++ node_path ∷ [];
}

-- The last two lines of `dfs`.
unfoldable pub leave : String → State → Option State
unfolding contains pop remove_first string_discrete
leave node_path s = elim (pop s.path) [
  | none ↦ none
  | some path ↦
      if contains node_path s.rec_stack
      then some
          (record s { path = path; rec_stack = remove_first string_discrete node_path s.rec_stack })
      else none
]

abbrev pub report : String → State → List String → State
report neighbor s cycle = record s { cycles = s.cycles ++ (cycle ++ neighbor ∷ []) ∷ [] }

module _ (nodes : Nodes) where
  -- The body of the loop on the neighbours, where `visit` is the call of `dfs`.
  unfoldable pub meet : (String → State → Option State) → String → State → Option State
  unfolding is_known contains from_index
  meet visit neighbor s =
      if not (is_known nodes neighbor)
      then some s
      else if not (contains neighbor s.visited)
      then visit neighbor s
      else if contains neighbor s.rec_stack
      then Option.map (report neighbor s) (from_index neighbor s.path)
      else some s

  unfoldable pub meet_all : (String → State → Option State) → List String → State → Option State
  unfolding meet
  meet_all visit [] s = some s
  meet_all visit (neighbor ∷ neighbors) s =
      Option.bind (meet visit neighbor s) (meet_all visit neighbors)

  unfoldable pub dfs : ℕ → String → State → Option State
  unfolding get_dependencies meet_all leave
  dfs zero node_path s = none
  dfs (suc fuel) node_path s =
      Option.bind (meet_all (dfs fuel) (get_dependencies nodes node_path) (enter node_path s))
        (leave node_path)

  -- The `for` loop of `detect_circular_dependencies`.
  unfoldable pub dfs_all : ℕ → Nodes → State → Option State
  unfolding contains dfs
  dfs_all fuel [] s = some s
  dfs_all fuel ((node_file, _) ∷ rest) s =
      if not (contains node_file s.visited)
      then Option.bind (dfs fuel node_file s) (dfs_all fuel rest)
      else dfs_all fuel rest s

abbrev pub empty_state : State
empty_state = record { cycles = []; visited = []; rec_stack = []; path = [] }

-- The depth of the recursion is at most the number of files.
unfoldable pub detect_circular_dependencies : Nodes → Option (List (List String))
unfolding dfs_all
detect_circular_dependencies nodes =
    Option.map State.cycles (dfs_all nodes (length nodes) nodes empty_state)

-- The inner loop of `_detect_circular_dependencies_marking`.
unfoldable pub mark : List String → Nodes → Nodes
unfolding Dict.modify string_discrete
mark [] nodes = nodes
mark (file_path ∷ cycle) nodes =
    mark cycle
      (Dict.modify string_discrete file_path (λ node. record node { is_circular = true }) nodes)

unfoldable pub mark_all : List (List String) → Nodes → Nodes
unfolding mark
mark_all [] nodes = nodes
mark_all (cycle ∷ cycles) nodes = mark_all cycles (mark cycle nodes)

unfoldable pub detect_circular_dependencies_marking : Nodes → Option Nodes
unfolding detect_circular_dependencies mark_all
detect_circular_dependencies_marking nodes =
    Option.map (λ cycles. mark_all cycles nodes) (detect_circular_dependencies nodes)

-- `build` clears the graph first. Its argument is the list of the files found, each with the imports
-- that its content resolves to, or `none` where it cannot be read.
unfoldable pub build : List (String × Option (List String)) → Option Nodes
unfolding add_nodes add_files detect_circular_dependencies_marking
build file_list =
    detect_circular_dependencies_marking (add_files file_list (add_nodes file_list []))
