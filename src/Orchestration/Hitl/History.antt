-- ===== src/Orchestration/Hitl/History.antt =====
-- The operations on checkpoints in any order.
use gomind.Base.{ℕ, Option, List, [], ◌∷◌, String}
use gomind.Orchestration.PlanExecutor.{StepResult}
use gomind.Orchestration.Hitl.{ExecutionCheckpoint, Command}
use gomind.Orchestration.Hitl.Store.{Client, delete_checkpoint}
use gomind.Orchestration.Hitl.Controller.{
  process_command, resume_execution, update_checkpoint_progress,
}
use gomind.Orchestration.Hitl.Expiry.{Processor, process_expired_checkpoints}
use gomind.Orchestration.Hitl.Lifecycle.{Moves}
use gomind.Orchestration.Hitl.StoreMoves.{IsRedis, IsKeyed, From, From-refl, From-trans}
use gomind.Orchestration.Hitl.Moves.{
  process_command-From, resume_execution-From, update_checkpoint_progress-From,
}
use gomind.Orchestration.Hitl.ExpiryMoves.{
  CallbackKeeps, delete_checkpoint-From, process_expired_checkpoints-From,
}

-- What happens to the store.
pub data Operation : Type 0 where
  command : Command → Operation
  resume : String → Operation
  progress : String → List StepResult → Operation
  delete : String → Operation
  -- A scan of the expiry processor, at a time.
  expire : ℕ → Operation

module _ {S : Type 0} (client : Client S) (processor : Processor S) where
  unfoldable pub run_operation : Operation → S → S
  run_operation (command c) s = (process_command client c s).0
  run_operation (resume id) s = (resume_execution client id s).0
  run_operation (progress id steps) s = (update_checkpoint_progress client id steps s).0
  run_operation (delete id) s = (delete_checkpoint client id s).0
  run_operation (expire now) s = process_expired_checkpoints client processor now s

  unfoldable pub run : List Operation → S → S
  unfolding run_operation
  run [] s = s
  run (o ∷ rest) s = run rest (run_operation o s)

  module _ (view : S → String → Option ExecutionCheckpoint) where
    run_operation-From :
        (o : Operation) (s : S)
        → IsRedis client view
        → CallbackKeeps client view processor
        → IsKeyed client view s
        → From client view s (run_operation o s)
    unfolding run_operation
    run_operation-From (command c) s redis keeps keyed =
        process_command-From client view redis c s keyed
    run_operation-From (resume id) s redis keeps keyed =
        resume_execution-From client view redis id s keyed
    run_operation-From (progress id steps) s redis keeps keyed =
        update_checkpoint_progress-From client view redis id steps s keyed
    run_operation-From (delete id) s redis keeps keyed =
        delete_checkpoint-From client view redis id s keyed
    run_operation-From (expire now) s redis keeps keyed =
        process_expired_checkpoints-From client view redis processor keeps now s keyed

    run-From :
        (operations : List Operation) (s : S)
        → IsRedis client view
        → CallbackKeeps client view processor
        → IsKeyed client view s
        → From client view s (run operations s)
    unfolding run
    run-From [] s redis keeps keyed = From-refl client view s keyed
    run-From (o ∷ rest) s redis keeps keyed =
        let h = run_operation-From o s redis keeps keyed in
        From-trans client view s (run_operation o s) (run rest (run_operation o s)) h
          (run-From rest (run_operation o s) redis keeps h.0)

    -- Whatever commands, resumptions, reports of progress, deletions and expiry scans follow each
    -- other, one at a time, each checkpoint only moves along its life: a pending one gets any status
    -- once, an approved or edited one is at most completed, and any other status is final. Redis may
    -- fail at each command, and may forget a checkpoint. Checkpoints are stored under their own IDs at
    -- the start, and the callback of the expiry processor does not write them.
    pub run-Moves :
        (operations : List Operation) (s : S) (id : String)
        → IsRedis client view
        → CallbackKeeps client view processor
        → IsKeyed client view s
        → Moves (view s id) (view (run operations s) id)
    run-Moves operations s id redis keeps keyed = (run-From operations s redis keeps keyed).1 id
