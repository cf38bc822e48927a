-- ===== src/Orchestration/Engine/Run/Invariant.antt =====
-- What holds in every state of a run: a step is where its status says, was submitted at most once,
-- and only after all that it depends on was completed or skipped.
use gomind.Base.{ℕ, ◌+◌, ◌≤◌, ◌<◌, ◌≡◌, true, false, List, String, Bool, Option, some, ◌||◌}
use gomind.Orchestration.Dag.{NodeStatus, DagNode, node_running, node_completed, node_failed}
use gomind.Orchestration.Dag.Validation.Walks.{Edge}
use gomind.Orchestration.Engine.Run.{
  Run, returned, Main, worker_panic, step_failed, StepStatus, step_pending, step_running,
  step_completed,
}
use gomind.Orchestration.Engine.Run.Counting.{one_if, count, count_results}
use gomind.Orchestration.Engine.Run.Statuses.{
  status_of, pends, settles, runs, fails, skips, readies, SameShape,
}

-- The processing loop has decided to return because of an error.
abbrev pub has_failed : Main → Bool
has_failed (step_failed k) = true
has_failed worker_panic = true
has_failed _ = false

-- The status of a step's execution: one that was skipped is still pending there.
abbrev pub shown : Option NodeStatus → StepStatus
shown (some node_running) = step_running
shown (some node_completed) = step_completed
shown (some node_failed) = step_failed
shown _ = step_pending

module _ (base : List (String × DagNode)) where
  -- Of the submitted steps: `st` gives the statuses, and the edges are those of the graph `base`.
  pub record Placed (st : String → Option NodeStatus) (submitting sent : List String) : Type 0 where
    pub pend : (k : String) → count k submitting ≤ one_if (pends (st k))
    pub once : (k : String) → count k sent + one_if (pends (st k)) ≤ 1
    pub free :
        (k a : String)
        → 0 < count k submitting + count k sent
        → Edge base a k
        → settles (st a) ≡ true
    pub no_ready : (k : String) → readies (st k) ≡ false
    pub spread : (a b : String) → fails (st a) ≡ true → Edge base a b → pends (st b) ≡ false

  -- How many tasks and results of the step are on their way, or will never come.
  abbrev pub in_flight : Run → String → ℕ
  in_flight r k =
      count k r.sending
      + count k r.task_queue
      + count k r.working
      + count_results k r.results
      + count k r.lost

  pub record Inv (on_error : Bool) (r : Run) : Type 0 where
    pub shape : SameShape base r.dag.nodes
    pub placed : Placed (status_of r.dag.nodes) r.submitting r.sent
    pub flight : (k : String) → in_flight r k ≡ one_if (runs (status_of r.dag.nodes k))
    pub mirror : (k : String) → shown (status_of r.dag.nodes k) ≡ r.steps k
    pub ended :
        r.loop ≡ returned
        → r.context_done ≡ false
        → (k : String) → runs (status_of r.dag.nodes k) ≡ false
    pub clean :
        on_error ≡ false
        → has_failed r.main ≡ false
        → (k : String) → fails (status_of r.dag.nodes k) || skips (status_of r.dag.nodes k) ≡ false
