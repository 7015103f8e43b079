-- ===== src/Codebase.antt =====
-- codebase/dependency_graph.py: the graph of the imports between files. A file is named by its path;
-- the imports that `add_file` extracts from a content and resolves on the disk are an argument.
pub mod Backward
pub mod Impact
pub mod Cycles
mod Examples
use fastcoder.Base.{
  String, Bool, true, false, not, ◌&&◌, List, [], ◌∷◌, ◌++◌, Option, none, some, if◌then◌else◌,
  elem, remove_first, string_discrete,
}
use fastcoder.Base.Dict
use fastcoder.Base.Dict.{Dict}

pub record DependencyNode : Type 0 where
  pub file : String
  pub imports : List String
  pub imported_by : List String
  pub is_circular : Bool

-- The field `nodes` of `DependencyGraph`; `file_to_path` is written only.
abbrev pub Nodes : Type 0
Nodes = Dict String DependencyNode

unfoldable pub lookup : String → Nodes → Option DependencyNode
unfolding Dict.get string_discrete
lookup = Dict.get string_discrete

-- `a in xs`
unfoldable pub contains : String → List String → Bool
unfolding elem string_discrete
contains = elem string_discrete

abbrev pub imports_of : Option DependencyNode → List String
imports_of (some node) = node.imports
imports_of none = []

abbrev pub imported_by_of : Option DependencyNode → List String
imported_by_of (some node) = node.imported_by
imported_by_of none = []

unfoldable pub get_dependencies : Nodes → String → List String
unfolding lookup
get_dependencies nodes file_path = imports_of (lookup file_path nodes)

unfoldable pub get_dependents : Nodes → String → List String
unfolding lookup
get_dependents nodes file_path = imported_by_of (lookup file_path nodes)

abbrev pub new_node : String → DependencyNode
new_node file = record { file = file; imports = []; imported_by = []; is_circular = false }

-- `if file_path not in self.nodes: self.nodes[file_path] = DependencyNode(file=file_path)`
ensured : String → Nodes → Option DependencyNode → Nodes
unfolding Dict.put string_discrete
ensured file_path nodes (some _) = nodes
ensured file_path nodes none = Dict.put string_discrete file_path (new_node file_path) nodes

ensure : String → Nodes → Nodes
unfolding lookup ensured
ensure file_path nodes = ensured file_path nodes (lookup file_path nodes)

-- The body of the loop on the backward references.
refer_back : String → DependencyNode → DependencyNode
unfolding contains
refer_back file_path node =
    if contains file_path node.imports && not (contains file_path node.imported_by)
    then record node { imported_by = node.imported_by ++ file_path ∷ [] }
    else node

unfoldable pub add_file : String → List String → Nodes → Nodes
unfolding ensure refer_back Dict.modify Dict.modify_all string_discrete
add_file file_path resolved_imports nodes =
    let known = ensure file_path nodes in
    let linked =
      Dict.modify string_discrete file_path (λ node. record node { imports = resolved_imports })
        known in
    Dict.modify_all string_discrete (refer_back file_path) linked

-- The body of the loop of `remove_file`: `list.remove` takes out the first occurrence.
forget : String → DependencyNode → DependencyNode
unfolding remove_first string_discrete
forget file_path node = record node {
  imports = remove_first string_discrete file_path node.imports;
  imported_by = remove_first string_discrete file_path node.imported_by;
}

unfoldable pub remove_file : String → Nodes → Nodes
unfolding lookup forget Dict.remove Dict.modify_all string_discrete
remove_file file_path nodes = elim (lookup file_path nodes) [
  | none ↦ nodes
  | some _ ↦
      Dict.remove string_discrete file_path
        (Dict.modify_all string_discrete (forget file_path) nodes)
]

-- The first pass of `build`, over the paths that the patterns find.
unfoldable pub add_nodes : List (String × Option (List String)) → Nodes → Nodes
unfolding Dict.put string_discrete
add_nodes [] nodes = nodes
add_nodes ((file_path, _) ∷ files) nodes =
    add_nodes files (Dict.put string_discrete file_path (new_node file_path) nodes)

-- The second pass: a file that cannot be read (`none`) is passed over.
unfoldable pub add_files : List (String × Option (List String)) → Nodes → Nodes
unfolding add_file
add_files [] nodes = nodes
add_files ((file_path, none) ∷ files) nodes = add_files files nodes
add_files ((file_path, some imports) ∷ files) nodes =
    add_files files (add_file file_path imports nodes)
