-- ===== src/Orchestration/Hitl/Expiry.antt =====
-- The expiry of checkpoints, of orchestration/hitl_checkpoint_store.go: a scan of the expiry processor
-- and what an expired checkpoint becomes.
use gomind.Base.{
  ℕ, suc, Bool, true, false, not, ◌&&◌, Option, none, some, List, [], ◌∷◌, String, if◌then◌else◌,
  ltb,
}
use gomind.Base.Int.{ℤ, pos, leb_ℤ}
use gomind.Orchestration.Hitl.{
  CheckpointStatus, expired, expired_approved, expired_rejected, expired_aborted, CommandType,
  approve, edit, reject, skip, abort, retry, respond, unknown, RequestMode, not_set, streaming,
  non_streaming, ExpiryBehavior, no_behavior, apply_default, implicit_deny, InterruptDecision,
  ExecutionCheckpoint, is_pending_status,
}
use gomind.Orchestration.Hitl.Store.{
  Client, Loaded, found, not_found, failed, load_checkpoint, update_checkpoint_status,
}
use text.Mathlib.Text.{◌==◌}

-- What the processor reads besides Redis: os.Getenv, its configuration and its callback, which says
-- whether it returned and did not panic.
pub record Processor (S : Type 0) : Type 0 where
  pub getenv : String → String
  pub at_least_once : Bool
  pub batch_size : ℤ
  pub callback : Option (ExecutionCheckpoint → Option CommandType → S → S × Bool)

-- The value of an environment variable, where it is one of the two.
abbrev pub env_mode : String → RequestMode
env_mode value = if value == "streaming" then streaming else non_streaming

abbrev pub env_behavior : ExpiryBehavior → String → ExpiryBehavior
env_behavior default value =
    if value == "apply_default"
    then apply_default
    else if value == "implicit_deny"
    then implicit_deny
    else default

abbrev pub mode_or : RequestMode → RequestMode → RequestMode
mode_or not_set default = default
mode_or streaming default = streaming
mode_or non_streaming default = non_streaming

abbrev pub behavior_or : ExpiryBehavior → ExpiryBehavior → ExpiryBehavior
behavior_or no_behavior default = default
behavior_or apply_default default = apply_default
behavior_or implicit_deny default = implicit_deny

-- behavior == "apply_default"
abbrev pub applies_default : ExpiryBehavior → Bool
applies_default no_behavior = false
applies_default apply_default = true
applies_default implicit_deny = false

unfoldable pub action_to_expired_status : CommandType → CheckpointStatus
action_to_expired_status approve = expired_approved
action_to_expired_status edit = expired_rejected
action_to_expired_status reject = expired_rejected
action_to_expired_status skip = expired_rejected
action_to_expired_status abort = expired_aborted
action_to_expired_status retry = expired_rejected
action_to_expired_status respond = expired_rejected
action_to_expired_status unknown = expired_rejected

abbrev pub fallback_action : Bool → CommandType
fallback_action is_on_error = if is_on_error then abort else reject

abbrev pub action_or : Option CommandType → CommandType → CommandType
action_or none default = default
action_or (some action) default = action

unfoldable pub determine_expiry_action : Option InterruptDecision → Bool → CommandType
determine_expiry_action none is_on_error = fallback_action is_on_error
determine_expiry_action (some d) is_on_error =
    action_or d.default_action (fallback_action is_on_error)

module _ {S : Type 0} (client : Client S) (processor : Processor S) where
  open processor use {getenv, at_least_once, batch_size, callback}

  unfoldable pub default_request_mode : Option InterruptDecision → RequestMode
  default_request_mode none = env_mode (getenv "GOMIND_HITL_DEFAULT_REQUEST_MODE")
  default_request_mode (some d) =
      mode_or d.default_request_mode (env_mode (getenv "GOMIND_HITL_DEFAULT_REQUEST_MODE"))

  unfoldable pub effective_request_mode : ExecutionCheckpoint → RequestMode
  unfolding default_request_mode
  effective_request_mode cp = mode_or cp.request_mode (default_request_mode cp.decision)

  unfoldable pub streaming_expiry_behavior : Option InterruptDecision → ExpiryBehavior
  streaming_expiry_behavior none =
      env_behavior implicit_deny (getenv "GOMIND_HITL_STREAMING_EXPIRY")
  streaming_expiry_behavior (some d) =
      behavior_or d.streaming_expiry_behavior
        (env_behavior implicit_deny (getenv "GOMIND_HITL_STREAMING_EXPIRY"))

  unfoldable pub non_streaming_expiry_behavior : Option InterruptDecision → ExpiryBehavior
  non_streaming_expiry_behavior none =
      env_behavior apply_default (getenv "GOMIND_HITL_NON_STREAMING_EXPIRY")
  non_streaming_expiry_behavior (some d) =
      behavior_or d.non_streaming_expiry_behavior
        (env_behavior apply_default (getenv "GOMIND_HITL_NON_STREAMING_EXPIRY"))

  unfoldable pub should_apply_default_action : ExecutionCheckpoint → RequestMode → Bool
  unfolding streaming_expiry_behavior non_streaming_expiry_behavior
  should_apply_default_action cp streaming = applies_default (streaming_expiry_behavior cp.decision)
  should_apply_default_action cp non_streaming =
      applies_default (non_streaming_expiry_behavior cp.decision)
  should_apply_default_action cp not_set =
      applies_default (non_streaming_expiry_behavior cp.decision)

  -- The action that is applied, if any.
  unfoldable pub applied_action : ExecutionCheckpoint → Option CommandType
  unfolding should_apply_default_action effective_request_mode determine_expiry_action
  applied_action cp =
      if should_apply_default_action cp (effective_request_mode cp)
      then some (determine_expiry_action cp.decision cp.is_on_error)
      else none

  unfoldable pub expired_status : Option CommandType → CheckpointStatus
  unfolding action_to_expired_status
  expired_status none = expired
  expired_status (some action) = action_to_expired_status action

  -- The callback, if one is set.
  unfoldable pub invoke_callback : ExecutionCheckpoint → Option CommandType → S → S × Bool
  invoke_callback cp action s = elim callback [ none ↦ (s, true) | some call ↦ call cp action s ]

  unfoldable pub after_callback : String → CheckpointStatus → S × Bool → S
  after_callback id status (s, true) = (update_checkpoint_status client id status s).0
  after_callback id status (s, false) = s

  unfoldable pub after_update : ExecutionCheckpoint → Option CommandType → S × Bool → S
  unfolding invoke_callback
  after_update cp action (s, true) = (invoke_callback cp action s).0
  after_update cp action (s, false) = s

  unfoldable pub deliver : ExecutionCheckpoint → Option CommandType → CheckpointStatus → S → S
  unfolding after_callback after_update invoke_callback
  deliver cp action status s =
      if at_least_once
      then after_callback cp.checkpoint_id status
          (invoke_callback (record cp { status = status }) action s)
      else after_update (record cp { status = status }) action
          (update_checkpoint_status client cp.checkpoint_id status s)

  unfoldable pub process_expired_checkpoint : ExecutionCheckpoint → S → S
  unfolding deliver applied_action expired_status
  process_expired_checkpoint cp s =
      let action = applied_action cp in deliver cp action (expired_status action) s

  unfoldable pub claimed : String → ExecutionCheckpoint → S × Option Bool → S × Bool
  unfolding process_expired_checkpoint
  claimed id cp (s, none) = (s, false)
  claimed id cp (s, some false) = (s, false)
  claimed id cp (s, some true) = (client.release id (process_expired_checkpoint cp s), true)

  -- One pending ID, and whether it counts as processed.
  unfoldable pub visited : String → ℕ → S × Loaded → S × Bool
  unfolding claimed
  visited id now (s, found cp) =
      if is_pending_status cp.status && not (ltb now cp.expires_at)
      then claimed id cp (client.claim id s)
      else (s, false)
  visited id now (s, not_found) = (client.remove_pending id s, false)
  visited id now (s, failed) = (client.remove_pending id s, false)

  unfoldable pub scan : List String → ℕ → ℕ → S → S
  unfolding visited load_checkpoint
  scan [] processed now s = s
  scan (id ∷ ids) processed now s =
      let (after, counts) = visited id now (load_checkpoint client id s) in
      let rest = scan ids (if counts then suc processed else processed) now after in
      if leb_ℤ batch_size (pos processed) then s else rest

  unfoldable pub scanned : ℕ → S × Option (List String) → S
  unfolding scan
  scanned now (s, none) = s
  scanned now (s, some ids) = scan ids 0 now s

  unfoldable pub process_expired_checkpoints : ℕ → S → S
  unfolding scanned
  process_expired_checkpoints now s = scanned now (client.pending_members s)
