-- ===== src/Tests/DagRuns.antt =====
-- The workflow graph at concrete inputs.
use gomind.Base.{inr, ◌≡◌, refl, true, some, [], ◌∷◌, All}
use gomind.Orchestration.Dag.{
  WorkflowDag, new_workflow_dag, add_node, get_execution_levels, get_ready_nodes, is_complete,
  mark_node_completed, mark_node_failed,
}
use gomind.Orchestration.Dag.Levels.{
  AreLayered, IsDoneOrBlocked, processed_after, get_execution_levels-AreLayered,
}
use gomind.Orchestration.Dag.Marks.{NoneWaits, dependents_of, waits}
use gomind.Orchestration.Dag.Skipping.{mark_node_failed-NoneWaits}

-- "deploy" waits for "build" and "test", which both wait for "fetch".
abbrev pipeline : WorkflowDag
unfolding new_workflow_dag add_node
pipeline =
    add_node
      (add_node (add_node (add_node new_workflow_dag "fetch" []) "build" ("fetch" ∷ [])) "test"
        ("fetch" ∷ []))
      "deploy" ("build" ∷ "test" ∷ [])

pipeline_levels :
    get_execution_levels pipeline ≡ ("fetch" ∷ []) ∷ ("build" ∷ "test" ∷ []) ∷ ("deploy" ∷ []) ∷ []
unfolding get_execution_levels pipeline
pipeline_levels = refl

pipeline_runs :
    (get_ready_nodes (mark_node_completed pipeline "fetch") ≡ some ("build" ∷ "test" ∷ []))
    × (is_complete (mark_node_failed pipeline "fetch") ≡ true)
unfolding get_ready_nodes mark_node_completed is_complete mark_node_failed pipeline
pipeline_runs = (refl, refl)

get_execution_levels-AreLayered_example :
    AreLayered [] pipeline.nodes (get_execution_levels pipeline)
    × All (IsDoneOrBlocked (processed_after [] (get_execution_levels pipeline))) pipeline.nodes
get_execution_levels-AreLayered_example = get_execution_levels-AreLayered pipeline

mark_node_failed-NoneWaits_example :
    NoneWaits (mark_node_failed pipeline "fetch").nodes (dependents_of pipeline.nodes "build")
unfolding mark_node_failed pipeline waits
mark_node_failed-NoneWaits_example =
    mark_node_failed-NoneWaits pipeline "fetch" "build" refl (inr (refl, refl))
