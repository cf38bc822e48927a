-- ===== src/Orchestration/Engine/Run.antt =====
-- `executeDAG` and `worker` of orchestration/workflow_engine.go: the goroutine that submits the
-- steps which are ready, the workers that execute them, and the loop that processes their results.
-- They interleave in any order, also between the three questions that the loop asks of the graph, each
-- of which takes the graph's lock by itself. A run is followed until `executeDAG` decides to return: it
-- then closes the queue and waits for the workers.
pub mod Counting
pub mod Statuses
pub mod Failing
pub mod Looking
pub mod Invariant
pub mod Placing
pub mod Processing
pub mod Submitting
pub mod Stuck
pub mod Choosing
pub mod Fresh
pub mod Returning
pub mod Finishing
use gomind.Base.{
  ℕ, zero, suc, ◌-◌, ◌<◌, ◌≡◌, Bool, true, false, not, ◌||◌, Option, none, some, List, [], ◌∷◌,
  ◌++◌, String, if◌then◌else◌, length,
}
use text.Mathlib.Text.{◌==◌}
use gomind.Orchestration.Dag.{
  WorkflowDag, get_ready_nodes, is_complete, has_running_nodes, mark_node_running,
  mark_node_completed, mark_node_failed,
}

-- A step's answer, with or without an error, or a panic that names no step.
pub data Message : Type 0 where
  succeeded failed : String → Message
  panicked : Message

-- What the submitting loop does next: it asks for the ready nodes or submits them, asks whether the
-- graph is complete, asks whether a node runs, or has returned.
pub data Loop : Type 0 where
  looping checking_complete checking_running returned : Loop

pub data Main : Type 0 where
  processing finished cancelled worker_panic : Main
  step_failed : String → Main

-- The status in a step's `StepExecution`.
pub data StepStatus : Type 0 where
  step_pending step_ready step_running step_completed step_failed step_skipped : StepStatus

unfoldable pub set_step : String → StepStatus → (String → StepStatus) → String → StepStatus
set_step k s steps j = if k == j then s else steps j

-- `steps` has the statuses in `execution.Steps`, and `errors` is the length of `execution.Errors`.
-- `submitting` is what is left of `readyNodes`, `sending` the task that waits for room in the
-- queue, and `working` the tasks of the workers that are busy. For the record, `sent` has every
-- step that was marked as running, and `lost` those that no result will answer any more: a worker has
-- panicked, or the context has ended.
pub record Run : Type 0 where
  pub dag : WorkflowDag
  pub steps : String → StepStatus
  pub errors : ℕ
  pub loop : Loop
  pub main : Main
  pub submitting : List String
  pub sending : List String
  pub task_queue : List String
  pub workers : ℕ
  pub working : List String
  pub results : List Message
  pub sent : List String
  pub lost : List String
  pub context_done : Bool

unfoldable pub start : WorkflowDag → Run
start dag = record {
  dag = dag;
  steps = λ _. step_pending;
  errors = 0;
  loop = looping;
  main = processing;
  submitting = [];
  sending = [];
  task_queue = [];
  workers = 5;
  working = [];
  results = [];
  sent = [];
  lost = [];
  context_done = false;
}

-- What the loop does with the answer of `GetReadyNodes`. A panic is recovered: it is sent as a
-- result, and the loop has returned.
unfoldable pub looked_at : Option (List String) → Run → Run
looked_at none r = record r { loop = returned; results = r.results ++ panicked ∷ [] }
looked_at (some []) r = record r { loop = checking_complete }
looked_at (some (k ∷ ks)) r = record r { submitting = k ∷ ks }

unfoldable pub look : Run → Run
unfolding looked_at get_ready_nodes
look r = looked_at (get_ready_nodes r.dag) r

-- The loop has found no ready node, and now asks whether the graph is complete.
unfoldable pub check_complete : Run → Run
unfolding is_complete
check_complete r = record r { loop = if is_complete r.dag then returned else checking_running }

-- The graph was not complete, and the loop now asks whether a node runs: if so it sleeps and goes
-- on, and otherwise it returns.
unfoldable pub check_running : Run → Run
unfolding has_running_nodes
check_running r = record r { loop = if has_running_nodes r.dag then looping else returned }

unfoldable pub mark : String → List String → Run → Run
unfolding mark_node_running set_step
mark k ks r = record r {
  dag = mark_node_running r.dag k;
  steps = set_step k step_running r.steps;
  submitting = ks;
  sending = k ∷ [];
  sent = k ∷ r.sent;
}

unfoldable pub send : String → Run → Run
send k r = record r { sending = []; task_queue = r.task_queue ++ k ∷ [] }

unfoldable pub take_task : String → List String → Run → Run
take_task k ks r = record r { task_queue = ks; working = k ∷ r.working }

unfoldable pub answer : String → Bool → List String → List String → Run → Run
answer k ok before after r = record r {
  working = before ++ after;
  results = r.results ++ (if ok then succeeded k else failed k) ∷ [];
}

-- The recovery of a worker's panic sends a message that names no step; the worker is gone.
unfoldable pub panic_worker : String → List String → List String → Run → Run
panic_worker k before after r = record r {
  working = before ++ after;
  workers = r.workers - 1;
  results = r.results ++ panicked ∷ [];
  lost = k ∷ r.lost;
}

-- The loop returns instead of sending, once the context has ended.
unfoldable pub give_up : String → Run → Run
give_up k r = record r { sending = []; loop = returned; lost = k ∷ r.lost }

-- A worker returns without sending a result.
unfoldable pub drop_result : String → List String → List String → Run → Run
drop_result k before after r = record r {
  working = before ++ after;
  workers = r.workers - 1;
  lost = k ∷ r.lost;
}

-- `on_error` is whether the strategy of the error handler is "continue".
unfoldable pub process : Bool → Message → List Message → Run → Run
unfolding mark_node_completed mark_node_failed set_step
process on_error (succeeded k) rest r = record r {
  dag = mark_node_completed r.dag k;
  steps = set_step k step_completed r.steps;
  results = rest;
}
process on_error (failed k) rest r = record r {
  dag = mark_node_failed r.dag k;
  steps = set_step k step_failed r.steps;
  results = rest;
  main = if on_error then processing else step_failed k;
}
process on_error panicked rest r = record r {
  errors = suc r.errors;
  results = rest;
  main = if on_error then processing else worker_panic;
}

-- One move of a goroutine, while `executeDAG` processes results. Both channels hold 100 entries.
pub data Step (on_error : Bool) (r : Run) : Run → Type 0 where
  looks : r.loop ≡ looping → r.submitting ≡ [] → r.sending ≡ [] → Step on_error r (look r)
  checks_complete : r.loop ≡ checking_complete → Step on_error r (check_complete r)
  checks_running : r.loop ≡ checking_running → Step on_error r (check_running r)
  marks :
      (k : String) (ks : List String)
      → r.loop ≡ looping
      → r.submitting ≡ k ∷ ks
      → r.sending ≡ []
      → Step on_error r (mark k ks r)
  sends : (k : String) → r.sending ≡ k ∷ [] → length r.task_queue < 100 → Step on_error r (send k r)
  takes :
      (k : String) (ks : List String)
      → r.task_queue ≡ k ∷ ks
      → length r.working < r.workers
      → Step on_error r (take_task k ks r)
  answers :
      (k : String) (ok : Bool) (before after : List String)
      → r.working ≡ before ++ k ∷ after
      → length r.results < 100
      → Step on_error r (answer k ok before after r)
  panics :
      (k : String) (before after : List String)
      → r.working ≡ before ++ k ∷ after
      → length r.results < 100
      → Step on_error r (panic_worker k before after r)
  -- The message of the recovery is not sent: the context has ended, or there was no room in time.
  panics_unsent :
      (k : String) (before after : List String)
      → r.working ≡ before ++ k ∷ after
      → Step on_error r (drop_result k before after r)
  processes :
      (m : Message) (ms : List Message)
      → r.results ≡ m ∷ ms
      → Step on_error r (process on_error m ms r)
  ends : r.loop ≡ returned → Step on_error r (record r { main = finished })
  context_ends : Step on_error r (record r { context_done = true })
  gives_up :
      (k : String) → r.sending ≡ k ∷ [] → r.context_done ≡ true → Step on_error r (give_up k r)
  drops :
      (k : String) (before after : List String)
      → r.working ≡ before ++ k ∷ after
      → r.context_done ≡ true
      → Step on_error r (drop_result k before after r)
  cancels : r.context_done ≡ true → Step on_error r (record r { main = cancelled })

-- The states of a run of a graph; moves are followed while results are processed.
pub data Reach (on_error : Bool) (dag : WorkflowDag) : Run → Type 0 where
  started : Reach on_error dag (start dag)
  moved :
      {r t : Run}
      → Reach on_error dag r
      → r.main ≡ processing
      → Step on_error r t
      → Reach on_error dag t
