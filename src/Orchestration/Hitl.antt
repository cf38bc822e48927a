-- ===== src/Orchestration/Hitl.antt =====
-- The checkpoints that wait for a human: their statuses, commands and results, of
-- orchestration/hitl_interfaces.go and orchestration/hitl_helpers.go.
pub mod Store
pub mod Controller
pub mod Expiry
pub mod Lifecycle
pub mod StoreMoves
pub mod Moves
pub mod ExpiryMoves
pub mod History
pub mod Commands
pub mod Policy
pub mod Guards
use gomind.Base.{ℕ, Bool, true, false, Option, none, some, List, String, ◌∷◌, []}
use gomind.Orchestration.PlanExecutor.{RoutingStep, StepResult}

pub data CheckpointStatus : Type 0 where
  pending approved rejected edited completed aborted : CheckpointStatus
  expired expired_approved expired_rejected expired_aborted : CheckpointStatus

-- `unknown` is any other text.
pub data CommandType : Type 0 where
  approve edit reject skip abort retry respond unknown : CommandType

-- `not_set` is the empty text, and `non_streaming` any but the two others.
pub data RequestMode : Type 0 where
  not_set streaming non_streaming : RequestMode

-- `implicit_deny` is any text but the two others.
pub data ExpiryBehavior : Type 0 where
  no_behavior apply_default implicit_deny : ExpiryBehavior

-- Of a policy's decision, what the controller and the expiry read. No action is the empty text.
pub record InterruptDecision : Type 0 where
  pub should_interrupt : Bool
  pub default_action : Option CommandType
  pub default_request_mode : RequestMode
  pub streaming_expiry_behavior : ExpiryBehavior
  pub non_streaming_expiry_behavior : ExpiryBehavior

pub record RoutingPlan : Type 0 where
  pub plan_id : String
  pub steps : List RoutingStep

pub record ExecutionCheckpoint : Type 0 where
  pub checkpoint_id : String
  pub request_id : String
  -- The interrupt point is `on_error`.
  pub is_on_error : Bool
  pub decision : Option InterruptDecision
  pub plan : Option RoutingPlan
  pub completed_steps : List StepResult
  pub step_results : List (String × StepResult)
  pub request_mode : RequestMode
  pub status : CheckpointStatus
  pub expires_at : ℕ

pub record Command : Type 0 where
  pub checkpoint_id : String
  pub type : CommandType
  pub edited_plan : Option RoutingPlan
  pub feedback : String

pub record ResumeResult : Type 0 where
  pub checkpoint_id : String
  pub action : CommandType
  pub should_resume : Bool
  pub modified_plan : Option RoutingPlan
  pub skip_step : Bool
  pub abort : Bool
  pub feedback : String

unfoldable pub is_resumable_status : CheckpointStatus → Bool
is_resumable_status pending = false
is_resumable_status approved = true
is_resumable_status rejected = false
is_resumable_status edited = true
is_resumable_status completed = false
is_resumable_status aborted = false
is_resumable_status expired = false
is_resumable_status expired_approved = true
is_resumable_status expired_rejected = false
is_resumable_status expired_aborted = false

unfoldable pub is_terminal_status : CheckpointStatus → Bool
is_terminal_status pending = false
is_terminal_status approved = false
is_terminal_status rejected = true
is_terminal_status edited = false
is_terminal_status completed = true
is_terminal_status aborted = true
is_terminal_status expired = true
is_terminal_status expired_approved = false
is_terminal_status expired_rejected = true
is_terminal_status expired_aborted = true

unfoldable pub is_pending_status : CheckpointStatus → Bool
is_pending_status pending = true
is_pending_status approved = false
is_pending_status rejected = false
is_pending_status edited = false
is_pending_status completed = false
is_pending_status aborted = false
is_pending_status expired = false
is_pending_status expired_approved = false
is_pending_status expired_rejected = false
is_pending_status expired_aborted = false
