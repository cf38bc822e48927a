-- ===== src/Orchestration/Dag/Validation.antt =====
-- `Validate` of orchestration/workflow_dag.go, with its search for a cycle along the dependents.
pub mod Walks
pub mod Searching
pub mod Calls
pub mod Links
pub mod Deciding
pub mod Building
pub mod Adding
use gomind.Base.{
  ℕ, zero, suc, Bool, true, false, Option, none, some, List, [], ◌∷◌, ◌++◌, String, length,
  if◌then◌else◌,
}
use text.Mathlib.Text.{◌==◌}
use gomind.Orchestration.Dag.{DagNode, WorkflowDag, contains, lookup, is_there}

-- The two maps to `bool`, each as the list of the keys that are true.
pub record Search : Type 0 where
  pub visited : List String
  pub rec_stack : List String

-- How the search ends; `missing_node` is the panic on the dependents of a node that is not there.
pub data Dfs : Type 0 where
  cycle_found : Dfs
  clear : Search → Dfs
  missing_node out_of_fuel : Dfs

unfoldable pub and_then : Dfs → (Search → Dfs) → Dfs
and_then (clear s) f = f s
and_then cycle_found f = cycle_found
and_then missing_node f = missing_node
and_then out_of_fuel f = out_of_fuel

unfoldable pub without : String → List String → List String
without k [] = []
without k (j ∷ js) = let rest = without k js in if j == k then rest else j ∷ rest

unfoldable pub enter : String → Search → Search
enter id s = record { visited = s.visited ++ id ∷ []; rec_stack = id ∷ s.rec_stack }

unfoldable pub leave : String → Search → Search
unfolding without
leave id s = record { visited = s.visited; rec_stack = without id s.rec_stack }

-- What becomes of one dependent, from whether it is visited and whether it is on the stack.
unfoldable pub follow : (String → Search → Dfs) → String → Search → Bool → Bool → Dfs
follow visit dependent s false on_stack = visit dependent s
follow visit dependent s true true = cycle_found
follow visit dependent s true false = clear s

-- The loop over the dependents; `visit` is the recursive call.
unfoldable pub check_dependents : (String → Search → Dfs) → List String → Search → Dfs
unfolding and_then follow contains
check_dependents visit [] s = clear s
check_dependents visit (dependent ∷ rest) s =
    and_then
      (follow visit dependent s (contains s.visited dependent) (contains s.rec_stack dependent))
      (check_dependents visit rest)

unfoldable pub check_node : (String → Search → Dfs) → String → Option DagNode → Search → Dfs
unfolding check_dependents leave and_then
check_node visit id none s = missing_node
check_node visit id (some n) s =
    and_then (check_dependents visit n.dependents s) (λ t. clear (leave id t))

-- The first argument bounds the depth of the calls.
unfoldable pub has_cycle_dfs : ℕ → List (String × DagNode) → String → Search → Dfs
unfolding check_node enter lookup
has_cycle_dfs zero nodes id s = out_of_fuel
has_cycle_dfs (suc depth) nodes id s =
    check_node (has_cycle_dfs depth nodes) id (lookup id nodes) (enter id s)

-- The search from one key of the map, from whether it is visited.
unfoldable pub search_new : ℕ → List (String × DagNode) → String → Search → Bool → Dfs
unfolding has_cycle_dfs
search_new depth nodes id s true = clear s
search_new depth nodes id s false = has_cycle_dfs depth nodes id s

unfoldable pub search_from : ℕ → List (String × DagNode) → List (String × DagNode) → Search → Dfs
unfolding search_new and_then contains
search_from depth nodes [] s = clear s
search_from depth nodes ((k, n) ∷ rest) s =
    and_then (search_new depth nodes k s (contains s.visited k)) (search_from depth nodes rest)

-- The first of the dependencies that is no node.
unfoldable pub missing_among : List (String × DagNode) → List String → Option String
unfolding lookup
missing_among nodes [] = none
missing_among nodes (dep ∷ deps) =
    let rest = missing_among nodes deps in if is_there (lookup dep nodes) then rest else some dep

pub data Verdict : Type 0 where
  valid circular : Verdict
  non_existent : String → String → Verdict
  verdict_panics verdict_out_of_fuel : Verdict

abbrev pub or_missing : String → Option String → Verdict → Verdict
or_missing k none later = later
or_missing k (some dep) later = non_existent k dep

unfoldable pub check_dependencies : List (String × DagNode) → List (String × DagNode) → Verdict
unfolding missing_among
check_dependencies nodes [] = valid
check_dependencies nodes ((k, n) ∷ rest) =
    or_missing k (missing_among nodes n.dependencies) (check_dependencies nodes rest)

abbrev pub verdict_of : Dfs → Verdict → Verdict
verdict_of (clear s) later = later
verdict_of cycle_found later = circular
verdict_of missing_node later = verdict_panics
verdict_of out_of_fuel later = verdict_out_of_fuel

abbrev pub unsearched : Search
unsearched = record { visited = []; rec_stack = [] }

unfoldable pub validate : WorkflowDag → Verdict
unfolding search_from check_dependencies
validate d =
    verdict_of (search_from (suc (length d.nodes)) d.nodes d.nodes unsearched)
      (check_dependencies d.nodes d.nodes)
