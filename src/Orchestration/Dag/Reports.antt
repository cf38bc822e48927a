-- ===== src/Orchestration/Dag/Reports.antt =====
-- The queries of orchestration/workflow_dag.go that only report: the topological order, the
-- statistics, and the copy.
use gomind.Base.{
  ℕ, zero, suc, Bool, true, false, Option, none, some, List, [], ◌∷◌, ◌++◌, String, if◌then◌else◌,
  length, ltb,
}
use gomind.Base.Int.{ℤ, pos, negsuc, ◌+ℤ◌}
use text.Mathlib.Text.{◌==◌}
use gomind.Orchestration.Dag.{
  NodeStatus, DagNode, WorkflowDag, get_execution_levels, node_pending, node_running,
  node_completed, node_failed, node_skipped, node_ready,
}
use gomind.Orchestration.Dag.Marks.{dependents_of}

-- `inDegree`, in which a missing key reads as 0.
unfoldable pub degree_of : String → List (String × ℤ) → ℤ
degree_of k [] = pos 0
degree_of k ((j, v) ∷ vs) = if j == k then v else degree_of k vs

unfoldable pub decrement : String → List (String × ℤ) → List (String × ℤ)
unfolding ◌+ℤ◌
decrement k [] = (k, negsuc 0) ∷ []
decrement k ((j, v) ∷ vs) = if j == k then (j, v +ℤ negsuc 0) ∷ vs else (j, v) ∷ decrement k vs

unfoldable pub is_zero : ℤ → Bool
is_zero (pos zero) = true
is_zero v = false

unfoldable pub in_degrees : List (String × DagNode) → List (String × ℤ)
in_degrees [] = []
in_degrees ((k, n) ∷ ns) = (k, pos (length n.dependencies)) ∷ in_degrees ns

unfoldable pub without_dependencies : List (String × ℤ) → List String
unfolding is_zero
without_dependencies [] = []
without_dependencies ((k, v) ∷ vs) =
    let rest = without_dependencies vs in if is_zero v then k ∷ rest else rest

-- The loop over the dependents of the node that is taken from the queue.
unfoldable pub release :
    List String → List (String × ℤ) → List String → List (String × ℤ) × List String
unfolding decrement degree_of is_zero
release [] degrees queue = (degrees, queue)
release (dependent ∷ rest) degrees queue =
    let fewer = decrement dependent degrees in
    release rest fewer
      (if is_zero (degree_of dependent fewer) then queue ++ dependent ∷ [] else queue)

abbrev onto : String → Option (List String) → Option (List String)
onto k none = none
onto k (some ks) = some (k ∷ ks)

-- The loop over the queue; none where the rounds do not suffice.
unfoldable pub take_from_queue :
    ℕ → List (String × DagNode) → List (String × ℤ) × List String → Option (List String)
unfolding release dependents_of
take_from_queue rounds nodes (degrees, []) = some []
take_from_queue zero nodes (degrees, current ∷ queue) = none
take_from_queue (suc rounds) nodes (degrees, current ∷ queue) =
    onto current
      (take_from_queue rounds nodes (release (dependents_of nodes current) degrees queue))

unfoldable pub get_topological_order : WorkflowDag → Option (List String)
unfolding take_from_queue in_degrees without_dependencies
get_topological_order d =
    let degrees = in_degrees d.nodes in
    take_from_queue (length d.nodes) d.nodes (degrees, without_dependencies degrees)

pub record DagStatistics : Type 0 where
  pub total_nodes : ℕ
  pub pending_nodes : ℕ
  pub running_nodes : ℕ
  pub completed_nodes : ℕ
  pub failed_nodes : ℕ
  pub skipped_nodes : ℕ
  pub max_dependencies : ℕ
  pub max_dependents : ℕ
  pub max_parallelism : ℕ
  pub depth : ℕ

unfoldable pub count_status : NodeStatus → DagStatistics → DagStatistics
count_status node_pending s = record s { pending_nodes = suc s.pending_nodes }
count_status node_running s = record s { running_nodes = suc s.running_nodes }
count_status node_completed s = record s { completed_nodes = suc s.completed_nodes }
count_status node_failed s = record s { failed_nodes = suc s.failed_nodes }
count_status node_skipped s = record s { skipped_nodes = suc s.skipped_nodes }
count_status node_ready s = s

-- `if x > most { most = x }`
unfoldable pub larger : ℕ → ℕ → ℕ
larger x most = if ltb most x then x else most

unfoldable pub count_nodes : List (String × DagNode) → DagStatistics → DagStatistics
unfolding count_status larger
count_nodes [] s = s
count_nodes ((k, n) ∷ ns) s =
    let counted = count_status n.status s in
    count_nodes ns (record counted {
      max_dependencies = larger (length n.dependencies) counted.max_dependencies;
      max_dependents = larger (length n.dependents) counted.max_dependents;
    })

unfoldable pub widest : List (List String) → ℕ → ℕ
unfolding larger
widest [] most = most
widest (level ∷ levels) most = widest levels (larger (length level) most)

unfoldable pub get_statistics : WorkflowDag → DagStatistics
unfolding count_nodes widest get_execution_levels
get_statistics d =
    let levels = get_execution_levels d in
    let counted = count_nodes d.nodes (record {
      total_nodes = length d.nodes;
      pending_nodes = 0;
      running_nodes = 0;
      completed_nodes = 0;
      failed_nodes = 0;
      skipped_nodes = 0;
      max_dependencies = 0;
      max_dependents = 0;
      max_parallelism = 0;
      depth = 0;
    }) in
    record counted {
      max_parallelism = widest levels counted.max_parallelism;
      depth = length levels;
    }

unfoldable pub clone_nodes : List (String × DagNode) → List (String × DagNode)
clone_nodes [] = []
clone_nodes ((k, n) ∷ ns) =
    (
      k,
      record {
        id = n.id;
        dependencies = n.dependencies;
        dependents = n.dependents;
        status = n.status;
      },
    )
    ∷ clone_nodes ns

unfoldable pub clone : WorkflowDag → WorkflowDag
unfolding clone_nodes
clone d = record { nodes = clone_nodes d.nodes }
