-- ===== src/Orchestration/Dag.antt =====
-- The workflow graph of orchestration/workflow_dag.go. The map of nodes is a list of entries, and a
-- loop over the map visits them in the list's order, which stands for any order. `none` is a panic:
-- the status of a node that is not there is read.
pub mod Names
pub mod Levels
pub mod Ready
pub mod Marks
pub mod Skipping
pub mod Validation
pub mod Reports
pub mod Topological
use gomind.Base.{
  ℕ, zero, suc, ◌+◌, Bool, true, false, not, ◌&&◌, ◌||◌, Option, none, some, List, [], ◌∷◌, ◌++◌,
  String, if◌then◌else◌, length,
}
use gomind.Base.Panic.{◌>>=◌}
use text.Mathlib.Text.{◌==◌}

pub data NodeStatus : Type 0 where
  node_pending node_ready node_running node_completed node_failed node_skipped : NodeStatus

pub record DagNode : Type 0 where
  pub id : String
  pub dependencies : List String
  pub dependents : List String
  pub status : NodeStatus

pub record WorkflowDag : Type 0 where
  pub nodes : List (String × DagNode)

unfoldable pub new_workflow_dag : WorkflowDag
new_workflow_dag = record { nodes = [] }

unfoldable pub contains : List String → String → Bool
contains [] x = false
contains (y ∷ ys) x = y == x || contains ys x

unfoldable pub lookup : String → List (String × DagNode) → Option DagNode
lookup k [] = none
lookup k ((j, n) ∷ ns) = if j == k then some n else lookup k ns

-- A change of the node at a key, through the pointer in the map; nothing where there is none.
unfoldable pub update :
    String → (DagNode → DagNode) → List (String × DagNode) → List (String × DagNode)
update k f [] = []
update k f ((j, n) ∷ ns) = if j == k then (j, f n) ∷ ns else (j, n) ∷ update k f ns

unfoldable pub add_dependent : String → DagNode → DagNode
unfolding contains
add_dependent node_id n =
    if contains n.dependents node_id
    then n
    else record n { dependents = n.dependents ++ node_id ∷ [] }

-- The inner loop of `rebuildDependents`, over the dependencies of one node.
unfoldable pub link_node : String → List String → List (String × DagNode) → List (String × DagNode)
unfolding add_dependent update
link_node node_id [] nodes = nodes
link_node node_id (dep ∷ deps) nodes =
    link_node node_id deps (update dep (add_dependent node_id) nodes)

unfoldable pub link_nodes :
    List (String × DagNode) → List (String × DagNode) → List (String × DagNode)
unfolding link_node
link_nodes [] nodes = nodes
link_nodes ((node_id, n) ∷ rest) nodes = link_nodes rest (link_node node_id n.dependencies nodes)

unfoldable pub clear_dependents : List (String × DagNode) → List (String × DagNode)
clear_dependents [] = []
clear_dependents ((k, n) ∷ ns) = (k, record n { dependents = [] }) ∷ clear_dependents ns

unfoldable pub rebuild_dependents : List (String × DagNode) → List (String × DagNode)
unfolding link_nodes clear_dependents
rebuild_dependents nodes = let cleared = clear_dependents nodes in link_nodes cleared cleared

abbrev pub is_there : Option DagNode → Bool
is_there none = false
is_there (some n) = true

-- The nodes with this one's dependencies, before the dependents are rebuilt.
unfoldable pub put_node : String → List String → List (String × DagNode) → List (String × DagNode)
unfolding lookup update
put_node id dependencies nodes =
    if is_there (lookup id nodes)
    then update id (λ n. record n { dependencies = dependencies }) nodes
    else nodes
      ++ (
        id,
        record { id = id; dependencies = dependencies; dependents = []; status = node_pending },
      )
        ∷ []

unfoldable pub add_node : WorkflowDag → String → List String → WorkflowDag
unfolding put_node rebuild_dependents
add_node d id dependencies = record {
  nodes = rebuild_dependents (put_node id dependencies d.nodes);
}

abbrev pub is_pending : NodeStatus → Bool
is_pending node_pending = true
is_pending _ = false

-- Completed or skipped.
abbrev pub is_settled : NodeStatus → Bool
is_settled node_completed = true
is_settled node_skipped = true
is_settled _ = false

unfoldable pub dependencies_complete : List String → List (String × DagNode) → Option Bool
unfolding lookup
dependencies_complete [] nodes = some true
dependencies_complete (dep ∷ deps) nodes = do
  dep_node ← lookup dep nodes
  if not (is_settled dep_node.status) then some false else dependencies_complete deps nodes

unfoldable pub ready_among :
    List (String × DagNode) → List (String × DagNode) → Option (List String)
unfolding dependencies_complete
ready_among nodes [] = some []
ready_among nodes ((k, n) ∷ rest) = do
  complete ← if is_pending n.status then dependencies_complete n.dependencies nodes else some false
  later ← ready_among nodes rest
  some (if complete then k ∷ later else later)

unfoldable pub get_ready_nodes : WorkflowDag → Option (List String)
unfolding ready_among
get_ready_nodes d = ready_among d.nodes d.nodes

abbrev pub with_status : NodeStatus → DagNode → DagNode
with_status s n = record n { status = s }

unfoldable pub mark_node_running : WorkflowDag → String → WorkflowDag
unfolding update
mark_node_running d id = record { nodes = update id (with_status node_running) d.nodes }

unfoldable pub mark_node_completed : WorkflowDag → String → WorkflowDag
unfolding update
mark_node_completed d id = record { nodes = update id (with_status node_completed) d.nodes }

abbrev pub is_pending_node : Option DagNode → Bool
is_pending_node none = false
is_pending_node (some n) = is_pending n.status

-- The loop of `markDependentsSkipped`; `skip` is the call for the dependents of a skipped node.
unfoldable pub skip_dependents :
    (String → List (String × DagNode) → List (String × DagNode))
    → List String
    → List (String × DagNode)
    → List (String × DagNode)
unfolding lookup update
skip_dependents skip [] nodes = nodes
skip_dependents skip (dependent ∷ rest) nodes =
    let skipped = skip dependent (update dependent (with_status node_skipped) nodes) in
    skip_dependents skip rest (if is_pending_node (lookup dependent nodes) then skipped else nodes)

-- `markDependentsSkipped`; the first argument bounds the depth of the calls. It is called for nodes
-- that are there only.
unfoldable pub mark_dependents_skipped :
    ℕ → String → List (String × DagNode) → List (String × DagNode)
unfolding skip_dependents
mark_dependents_skipped zero node_id nodes = nodes
mark_dependents_skipped (suc depth) node_id nodes = elim (lookup node_id nodes) [
  | none ↦ nodes
  | some n ↦ skip_dependents (mark_dependents_skipped depth) n.dependents nodes
]

unfoldable pub count_pending : List (String × DagNode) → ℕ
count_pending [] = 0
count_pending ((k, n) ∷ ns) =
    let rest = count_pending ns in if is_pending n.status then suc rest else rest

unfoldable pub mark_node_failed : WorkflowDag → String → WorkflowDag
unfolding mark_dependents_skipped count_pending
mark_node_failed d id =
    if is_there (lookup id d.nodes)
    then (let nodes = update id (with_status node_failed) d.nodes in
        record { nodes = mark_dependents_skipped (suc (count_pending nodes)) id nodes })
    else d

-- A status in which the workflow still waits for the node.
abbrev pub is_unfinished : NodeStatus → Bool
is_unfinished node_pending = true
is_unfinished node_running = true
is_unfinished node_ready = true
is_unfinished _ = false

unfoldable pub all_finished : List (String × DagNode) → Bool
all_finished [] = true
all_finished ((k, n) ∷ ns) = not (is_unfinished n.status) && all_finished ns

unfoldable pub is_complete : WorkflowDag → Bool
unfolding all_finished
is_complete d = all_finished d.nodes

abbrev pub is_running : NodeStatus → Bool
is_running node_running = true
is_running _ = false

unfoldable pub any_running : List (String × DagNode) → Bool
any_running [] = false
any_running ((k, n) ∷ ns) = is_running n.status || any_running ns

unfoldable pub has_running_nodes : WorkflowDag → Bool
unfolding any_running
has_running_nodes d = any_running d.nodes

-- `none` is a nil pointer.
unfoldable pub get_node : WorkflowDag → String → Option DagNode
unfolding lookup
get_node d id = lookup id d.nodes

unfoldable pub reset_nodes : List (String × DagNode) → List (String × DagNode)
reset_nodes [] = []
reset_nodes ((k, n) ∷ ns) = (k, with_status node_pending n) ∷ reset_nodes ns

unfoldable pub reset : WorkflowDag → WorkflowDag
unfolding reset_nodes
reset d = record { nodes = reset_nodes d.nodes }

-- The loops of `GetExecutionLevels`: are all dependencies processed, and which nodes can execute.
unfoldable pub can_execute : List String → List String → Bool
unfolding contains
can_execute processed [] = true
can_execute processed (dep ∷ deps) = contains processed dep && can_execute processed deps

unfoldable pub level_nodes : List String → List (String × DagNode) → List String
unfolding can_execute
level_nodes processed [] = []
level_nodes processed ((k, n) ∷ ns) =
    let rest = level_nodes processed ns in
    if not (contains processed k) && can_execute processed n.dependencies then k ∷ rest else rest

-- The outer loop, for at most so many levels. The processed nodes are a list of their keys.
unfoldable pub levels_from : ℕ → List String → List (String × DagNode) → List (List String)
unfolding level_nodes
levels_from zero processed nodes = []
levels_from (suc rounds) processed nodes = elim (level_nodes processed nodes) [
  | [] ↦ []
  | k ∷ ks ↦ (k ∷ ks) ∷ levels_from rounds (processed ++ k ∷ ks) nodes
]

unfoldable pub get_execution_levels : WorkflowDag → List (List String)
unfolding levels_from
get_execution_levels d = levels_from (suc (length d.nodes)) [] d.nodes
