-- ===== src/Tests/WorkflowRuns.antt =====
-- The validation, the graph and the runs of a workflow at concrete inputs.
use gomind.Base.{
  ◌⊎◌, ◌≡◌, ◌≢◌, refl, ◌↔◌, true, false, some, none, List, [], ◌∷◌, String, arith, ◌≤◌, ◌<◌,
}
use gomind.Base.Int.{negsuc}
use gomind.Orchestration.Dag.{WorkflowDag, new_workflow_dag, add_node, node_pending, node_completed}
use gomind.Orchestration.Dag.Names.{In}
use gomind.Orchestration.Dag.Validation.{validate, valid, circular}
use gomind.Orchestration.Dag.Validation.Walks.{Edge}
use gomind.Orchestration.Dag.Validation.Building.{
  DependsOn, add_node-DependsOn, add_node-IsLinked, IsLinked-HasLinks,
}
use gomind.Orchestration.Dag.Validation.Deciding.{IsRight, validate-IsRight}
use gomind.Orchestration.Dag.Reports.{get_topological_order}
use gomind.Orchestration.Dag.Topological.{get_topological_order-returns}
use gomind.Orchestration.Engine.Workflow.{
  WorkflowStep, Workflow, validate_workflow, accepted, duplicate_step, negative_default_timeout,
  step_names, build_dag, built,
}
use gomind.Orchestration.Engine.Workflow.Building.{StepDependsOn}
use gomind.Orchestration.Engine.Workflow.Outcome.{IsGraphOf, validated_workflow-builds}
use gomind.Orchestration.Engine.Run.{
  step_pending, check_complete, check_running, checks_complete, checks_running, returned, Run,
  step_completed, step_running, finished, succeeded, start, look, mark, send, take_task, answer,
  panic_worker, process, give_up, looks, marks, sends, takes, answers, panics, processes, ends,
  context_ends, gives_up, Reach, started, moved,
}
use gomind.Orchestration.Engine.Run.Counting.{count}
use gomind.Orchestration.Engine.Run.Statuses.{status_of, settles}
use gomind.Orchestration.Engine.Run.Looking.{WaitsFree}
use gomind.Orchestration.Engine.Run.Invariant.{in_flight}
use gomind.Orchestration.Engine.Run.Finishing.{
  AllEnded, run-submits_in_order, run-finishes, run-lost_hangs,
}

-- "a" and "b" wait for each other.
abbrev entangled : WorkflowDag
unfolding new_workflow_dag add_node
entangled = add_node (add_node new_workflow_dag "a" ("b" ∷ [])) "b" ("a" ∷ [])

entangled_circular : validate entangled ≡ circular
unfolding validate entangled
entangled_circular = refl

validate-IsRight_example : IsRight entangled.nodes circular
unfolding entangled validate
validate-IsRight_example = validate-IsRight entangled (
    IsLinked-HasLinks entangled.nodes
      (add_node-IsLinked (add_node new_workflow_dag "a" ("b" ∷ [])) "b" ("a" ∷ [])))

add_node-DependsOn_example :
    Edge (add_node entangled "c" ("a" ∷ [])).nodes "a" "c"
    ↔ DependsOn (add_node entangled "c" ("a" ∷ [])).nodes "c" "a"
add_node-DependsOn_example = add_node-DependsOn entangled "c" ("a" ∷ []) "a" "c"

-- A dependency that is named twice: the graph is valid, and its topological order lacks "b".
twice :
    (validate (add_node (add_node new_workflow_dag "a" []) "b" ("a" ∷ "a" ∷ [])) ≡ valid)
    × (get_topological_order (add_node (add_node new_workflow_dag "a" []) "b" ("a" ∷ "a" ∷ []))
        ≡ some ("a" ∷ []))
unfolding validate get_topological_order add_node new_workflow_dag
twice = (refl, refl)

abbrev plain_step : String → List String → WorkflowStep
plain_step name depends_on = record {
  name = name;
  depends_on = depends_on;
  definition = record {
    agent = "worker";
    capability = "";
    retry = none;
    require_approval = false;
    validate_output = false;
  };
  approval_timeout = none;
  validation_timeout = none;
}

-- "build" waits for "fetch".
abbrev chain : Workflow
chain = record {
  name = "chain";
  steps = plain_step "build" ("fetch" ∷ []) ∷ plain_step "fetch" [] ∷ [];
  on_error = none;
  hitl = none;
}

chain_accepted : validate_workflow chain ≡ accepted
unfolding validate_workflow
chain_accepted = refl

chain_rejected :
    (validate_workflow (record chain { steps = plain_step "a" [] ∷ plain_step "a" [] ∷ [] })
      ≡ duplicate_step "a")
    × (validate_workflow (record chain { hitl = some (negsuc 0) }) ≡ negative_default_timeout)
unfolding validate_workflow
chain_rejected = (refl, refl)

validated_workflow-builds_example : (d : WorkflowDag) × IsGraphOf chain d
validated_workflow-builds_example = validated_workflow-builds chain chain_accepted

abbrev chain_dag : WorkflowDag
unfolding new_workflow_dag add_node
chain_dag = add_node (add_node new_workflow_dag "build" ("fetch" ∷ [])) "fetch" []

chain_built : build_dag chain.steps ≡ built chain_dag
unfolding build_dag chain_dag
chain_built = refl

-- One step, from the look that finds it ready to the processing of its result.
unfoldable run_step : String → Run → Run
unfolding look mark send take_task answer process
run_step k r =
    process false (succeeded k) []
      (answer k true [] [] (take_task k [] (send k (mark k [] (look r)))))

abbrev fetched_run : Run
unfolding run_step start chain_dag
fetched_run = run_step "fetch" (start chain_dag)

Reach-fetched : Reach false chain_dag fetched_run
unfolding run_step start fetched_run chain_dag
Reach-fetched =
    moved
      (moved
        (moved
          (moved
            (moved (moved started refl (looks refl refl refl)) refl
              (marks "fetch" [] refl refl refl))
            refl (sends "fetch" refl (omega arith)))
          refl (takes "fetch" [] refl (omega arith)))
        refl (answers "fetch" true [] [] refl (omega arith)))
      refl (processes (succeeded "fetch") [] refl)

-- Both steps, one after the other, and the return.
abbrev both_run : Run
unfolding run_step fetched_run look check_complete
both_run = record (check_complete (look (run_step "build" fetched_run))) { main = finished }

Reach-both : Reach false chain_dag both_run
unfolding run_step both_run fetched_run
Reach-both =
    moved
      (moved
        (moved
          (moved
            (moved
              (moved
                (moved
                  (moved (moved Reach-fetched refl (looks refl refl refl)) refl
                    (marks "build" [] refl refl refl))
                  refl (sends "build" refl (omega arith)))
                refl (takes "build" [] refl (omega arith)))
              refl (answers "build" true [] [] refl (omega arith)))
            refl (processes (succeeded "build") [] refl))
          refl (looks refl refl refl))
        refl (checks_complete refl))
      refl (ends refl)

both_completed :
    (both_run.sent ≡ "build" ∷ "fetch" ∷ [])
    × (status_of both_run.dag.nodes "build" ≡ some node_completed)
unfolding both_run status_of
both_completed = (refl, refl)

run-submits_in_order_example :
    (count "build" both_run.sent ≤ 1)
    × (0 < count "build" both_run.sent
        → (a : String) → StepDependsOn chain.steps "build" a
        → settles (status_of both_run.dag.nodes a) ≡ true)
run-submits_in_order_example =
    run-submits_in_order chain chain_dag false both_run chain_accepted chain_built Reach-both
      "build"

run-finishes_example :
    ((k : String) → in_flight chain_dag.nodes both_run k ≡ 0)
    × (false ≡ false
        → (k : String) → In k (step_names chain.steps)
        → (both_run.steps k ≡ step_completed) ⊎ (both_run.steps k ≡ step_pending))
    × (AllEnded chain false both_run ⊎ ((k : String) × WaitsFree both_run.dag.nodes k))
unfolding both_run
run-finishes_example =
    run-finishes chain chain_dag false both_run chain_accepted chain_built Reach-both refl refl

-- The loop finds nothing ready while "fetch" runs. Before it asks on, the result of "fetch" is
-- processed: the graph is not complete, as "build" is ready, and nothing runs. `executeDAG` returns
-- nil, and "build" is never submitted.
abbrev early_run : Run
unfolding run_step look mark send take_task answer process check_complete check_running start
    chain_dag
early_run =
    record (check_running (
      check_complete (
        process false (succeeded "fetch") [] (
          answer "fetch" true [] [] (
            look (
              take_task "fetch" [] (send "fetch" (mark "fetch" [] (look (start chain_dag)))))))))) {
                main = finished;
              }

Reach-early : Reach false chain_dag early_run
unfolding early_run
Reach-early =
    moved
      (moved
        (moved
          (moved
            (moved
              (moved
                (moved
                  (moved
                    (moved (moved started refl (looks refl refl refl)) refl
                      (marks "fetch" [] refl refl refl))
                    refl (sends "fetch" refl (omega arith)))
                  refl (takes "fetch" [] refl (omega arith)))
                refl (looks refl refl refl))
              refl (answers "fetch" true [] [] refl (omega arith)))
            refl (processes (succeeded "fetch") [] refl))
          refl (checks_complete refl))
        refl (checks_running refl))
      refl (ends refl)

early_pending :
    (early_run.context_done ≡ false) × (status_of early_run.dag.nodes "build" ≡ some node_pending)
unfolding early_run status_of
early_pending = (refl, refl)

-- The worker panics in its first step.
abbrev panicked_run : Run
unfolding panic_worker take_task send mark look start chain_dag
panicked_run =
    panic_worker "fetch" [] []
      (take_task "fetch" [] (send "fetch" (mark "fetch" [] (look (start chain_dag)))))

Reach-panicked : Reach true chain_dag panicked_run
unfolding panicked_run
Reach-panicked =
    moved
      (moved
        (moved
          (moved (moved started refl (looks refl refl refl)) refl (marks "fetch" [] refl refl refl))
          refl (sends "fetch" refl (omega arith)))
        refl (takes "fetch" [] refl (omega arith)))
      refl (panics "fetch" [] [] refl (omega arith))

run-lost_hangs_example :
    (panicked_run.steps "fetch" ≡ step_running)
    × (panicked_run.loop ≢ returned)
    × (panicked_run.main ≢ finished)
unfolding panicked_run count
run-lost_hangs_example =
    run-lost_hangs chain chain_dag true panicked_run "fetch" chain_accepted chain_built
      Reach-panicked (omega arith) refl

-- The context ends while the first step waits to be sent: the loop returns, and `executeDAG` may
-- take its end for the end of the work, and return nil, with "build" still pending.
abbrev cut_run : Run
unfolding give_up mark look start chain_dag
cut_run =
    record (give_up "fetch"
      (record (mark "fetch" [] (look (start chain_dag))) { context_done = true })) {
        main = finished;
      }

Reach-cut : Reach false chain_dag cut_run
unfolding cut_run
Reach-cut =
    moved
      (moved
        (moved
          (moved (moved started refl (looks refl refl refl)) refl (marks "fetch" [] refl refl refl))
          refl context_ends)
        refl (gives_up "fetch" refl refl))
      refl (ends refl)

cut_pending : status_of cut_run.dag.nodes "build" ≡ some node_pending
unfolding cut_run status_of
cut_pending = refl

get_topological_order-returns_example :
    (ks : List String) × (get_topological_order
        (add_node (add_node new_workflow_dag "a" ("b" ∷ [])) "b" ("a" ∷ []))
      ≡ some ks)
get_topological_order-returns_example =
    get_topological_order-returns
      (add_node (add_node new_workflow_dag "a" ("b" ∷ [])) "b" ("a" ∷ []))
