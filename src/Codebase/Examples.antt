-- ===== src/Codebase/Examples.antt =====
-- Runs of the dependency graph.
use fastcoder.Base.{
  String, ◌≡◌, refl, ◌↔◌, true, false, List, [], ◌∷◌, Memᴰ, Option, none, some, elem, remove_first,
  string_discrete,
}
use mathlib.Core.Option
use fastcoder.Base.Dict
use fastcoder.Codebase.{
  DependencyNode, Nodes, lookup, contains, ensure, ensured, refer_back, add_file, add_nodes,
  add_files, get_dependencies, get_dependents,
}
use fastcoder.Codebase.Backward.Build.{AreDistinct, build_reverses}
use fastcoder.Codebase.Impact.{
  all_dependents, expand, get_impacted_files, insert, loop, offer, scan, sorted, to_set,
}
use fastcoder.Codebase.Impact.Reachable.{Impacts, get_impacted_files_lem}
use fastcoder.Codebase.Cycles.{
  build, detect_circular_dependencies, detect_circular_dependencies_marking, dfs, dfs_all,
  from_index, is_known, leave, mark, mark_all, meet, meet_all, pop,
}
use fastcoder.Codebase.Cycles.Acyclic.{IsCycle}
use fastcoder.Codebase.Cycles.Visit.{detect_circular_dependencies_lem}

abbrev node : String → List String → List String → DependencyNode
node file imports imported_by = record {
  file = file;
  imports = imports;
  imported_by = imported_by;
  is_circular = false;
}

-- `app` imports `lib`, `lib` imports `core` and `app`.
abbrev graph : Nodes
graph =
    ("app", node "app" ("lib" ∷ []) ("lib" ∷ []))
    ∷ ("lib", node "lib" ("core" ∷ "app" ∷ []) ("app" ∷ []))
    ∷ ("core", node "core" [] ("lib" ∷ []))
    ∷ []

impacted_by_core : get_impacted_files graph ("core" ∷ []) ≡ some ("app" ∷ "core" ∷ "lib" ∷ [])
unfolding get_impacted_files loop expand scan offer to_set sorted insert all_dependents contains
    get_dependents lookup Dict.get elem string_discrete
impacted_by_core = refl

get_impacted_files_lem_example :
    (found : List String) × (get_impacted_files graph ("core" ∷ []) ≡ some found)
    × ((f : String) → (contains f found ≡ true) ↔ Impacts graph ("core" ∷ []) f)
get_impacted_files_lem_example = get_impacted_files_lem graph ("core" ∷ [])

one_cycle : detect_circular_dependencies graph ≡ some (("app" ∷ "lib" ∷ "app" ∷ []) ∷ [])
unfolding detect_circular_dependencies dfs_all dfs meet_all meet leave pop from_index is_known
    contains get_dependencies lookup Dict.get elem remove_first string_discrete Option.bind
one_cycle = refl

detect_circular_dependencies_lem_example :
    (cycles : List (List String)) × (detect_circular_dependencies graph ≡ some cycles)
    × ((c : List String) → Memᴰ c cycles → IsCycle graph c)
    × ((cycles ≡ []) ↔ ((c : List String) → ¬ IsCycle graph c))
detect_circular_dependencies_lem_example = detect_circular_dependencies_lem graph

-- `app` imports `core`, which imports nothing; `old` cannot be read.
abbrev file_list : List (String × Option (List String))
file_list = ("core", some []) ∷ ("app", some ("core" ∷ [])) ∷ ("test", some []) ∷ ("old", none) ∷ []

distinct : AreDistinct file_list
unfolding contains elem string_discrete
distinct = (refl, (refl, (refl, (refl, tt))))

build_reverses_example :
    (nodes : Nodes) × (build file_list ≡ some nodes)
    × ((f d : String) → Memᴰ d (get_dependents nodes f) → Memᴰ d (get_dependencies nodes f))
build_reverses_example = build_reverses file_list distinct

-- A change of `core` reaches nothing, whichever order the two files are added in.
not_impacted :
    Option.bind
      (build (("core", some []) ∷ ("app", some ("core" ∷ [])) ∷ []))
      (λ nodes. get_impacted_files nodes ("core" ∷ []))
    ≡ some ("core" ∷ [])
unfolding get_impacted_files loop expand scan offer to_set sorted insert all_dependents contains
    get_dependents lookup Dict.get elem string_discrete build detect_circular_dependencies_marking
    detect_circular_dependencies dfs_all dfs meet_all meet leave pop from_index is_known
    get_dependencies remove_first Option.bind add_nodes add_files add_file ensure ensured refer_back
    Dict.put Dict.modify Dict.modify_all mark mark_all
not_impacted = refl
