-- ===== src/Orchestration/Hitl/Controller.antt =====
-- The commands of humans and the resumption, of orchestration/hitl_controller.go:
-- `ProcessCommand`, `ResumeExecution` and `UpdateCheckpointProgress`.
use gomind.Base.{Bool, true, false, Option, none, some, List, [], ◌∷◌, String, if◌then◌else◌}
use gomind.Orchestration.PlanExecutor.{StepResult}
use gomind.Orchestration.Hitl.{
  CheckpointStatus, approved, rejected, edited, completed, aborted, pending, CommandType, approve,
  edit, reject, skip, abort, retry, respond, unknown, RoutingPlan, Command, ResumeResult,
  is_pending_status, expired, expired_approved, expired_rejected, expired_aborted,
}
use gomind.Orchestration.Hitl.Store.{
  Client, Loaded, found, not_found, failed, save_checkpoint, load_checkpoint,
  update_checkpoint_status,
}

-- The new status of the checkpoint; none for an unknown command.
unfoldable pub status_for : CommandType → Option CheckpointStatus
status_for approve = some approved
status_for edit = some edited
status_for reject = some rejected
status_for skip = some approved
status_for abort = some aborted
status_for retry = some approved
status_for respond = some approved
status_for unknown = none

-- The result before the command's type is looked at.
abbrev pub empty_result : Command → ResumeResult
empty_result command = record {
  checkpoint_id = command.checkpoint_id;
  action = command.type;
  should_resume = false;
  modified_plan = none;
  skip_step = false;
  abort = false;
  feedback = "";
}

unfoldable pub result_of : CommandType → Command → ResumeResult
result_of approve command = record (empty_result command) { should_resume = true }
result_of edit command = record (empty_result command) {
  should_resume = true;
  modified_plan = command.edited_plan;
}
result_of reject command = record (empty_result command) { feedback = command.feedback }
result_of skip command = record (empty_result command) { should_resume = true; skip_step = true }
result_of abort command = record (empty_result command) {
  abort = true;
  feedback = command.feedback;
}
result_of retry command = record (empty_result command) { should_resume = true }
result_of respond command = record (empty_result command) { should_resume = true }
result_of unknown command = empty_result command

-- What `ResumeExecution` returns; it panics where the checkpoint has no plan.
pub data Resumption : Type 0 where
  resumed : String → Resumption
  not_resumable no_checkpoint panicked : Resumption

unfoldable pub may_resume : CheckpointStatus → Bool
may_resume pending = false
may_resume approved = true
may_resume rejected = false
may_resume edited = true
may_resume completed = false
may_resume aborted = false
may_resume expired = false
may_resume expired_approved = false
may_resume expired_rejected = false
may_resume expired_aborted = false

abbrev pub resumption_of : Option RoutingPlan → Resumption
resumption_of none = panicked
resumption_of (some plan) = resumed plan.plan_id

-- checkpoint.StepResults[step.StepID] = step, for each step.
unfoldable pub add_results :
    List StepResult → List (String × StepResult) → List (String × StepResult)
add_results [] results = results
add_results (r ∷ rest) results = add_results rest ((r.step_id, r) ∷ results)

module _ {S : Type 0} (client : Client S) where
  -- None is an error.
  unfoldable pub answered : Command → S × Bool → S × Option ResumeResult
  unfolding result_of
  answered command (s, true) = (s, some (result_of command.type command))
  answered command (s, false) = (s, none)

  unfoldable pub decided : Command → Option CheckpointStatus → S → S × Option ResumeResult
  unfolding answered
  decided command none s = (s, none)
  decided command (some status) s =
      answered command (update_checkpoint_status client command.checkpoint_id status s)

  unfoldable pub commanded : Command → S × Loaded → S × Option ResumeResult
  unfolding decided status_for
  commanded command (s, found cp) =
      if is_pending_status cp.status then decided command (status_for command.type) s else (s, none)
  commanded command (s, not_found) = (s, none)
  commanded command (s, failed) = (s, none)

  unfoldable pub process_command : Command → S → S × Option ResumeResult
  unfolding commanded
  process_command command s = commanded command (load_checkpoint client command.checkpoint_id s)

  unfoldable pub resumed_from : S × Loaded → S × Resumption
  unfolding may_resume
  resumed_from (s, found cp) =
      if may_resume cp.status
      then ((save_checkpoint client (record cp { status = completed }) s).0, resumption_of cp.plan)
      else (s, not_resumable)
  resumed_from (s, not_found) = (s, no_checkpoint)
  resumed_from (s, failed) = (s, no_checkpoint)

  unfoldable pub resume_execution : String → S → S × Resumption
  unfolding resumed_from
  resume_execution id s = resumed_from (load_checkpoint client id s)

  unfoldable pub progressed : List StepResult → S × Loaded → S × Bool
  unfolding add_results
  progressed steps (s, found cp) =
      save_checkpoint client
        (record cp { completed_steps = steps; step_results = add_results steps cp.step_results }) s
  progressed steps (s, not_found) = (s, false)
  progressed steps (s, failed) = (s, false)

  unfoldable pub update_checkpoint_progress : String → List StepResult → S → S × Bool
  unfolding progressed
  update_checkpoint_progress id steps s = progressed steps (load_checkpoint client id s)
