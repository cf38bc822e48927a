-- ===== src/Orchestration/Hitl/Store.antt =====
-- The store of checkpoints, of orchestration/hitl_checkpoint_store.go. Redis, with the encoding of
-- checkpoints, is a parameter: a state that its commands read and change, and that may fail.
use gomind.Base.{Bool, true, false, not, ◌&&◌, Option, List, String, if◌then◌else◌}
use gomind.Orchestration.Hitl.{CheckpointStatus, ExecutionCheckpoint, is_pending_status}
use text.Mathlib.Text.{◌==◌}

-- `failed` is an error of Redis or of the decoder.
pub data Loaded : Type 0 where
  found : ExecutionCheckpoint → Loaded
  not_found failed : Loaded

-- The commands sent to Redis. A Boolean result is false for an error.
pub record Client (S : Type 0) : Type 0 where
  -- GET of the key of a checkpoint's ID.
  pub get : String → S → S × Loaded
  -- SET of the key of the checkpoint's ID.
  pub set : ExecutionCheckpoint → S → S × Bool
  pub del : String → S → S × Bool
  -- SADD, SREM and SMEMBERS of the pending index.
  pub add_pending : String → S → S × Bool
  pub remove_pending : String → S → S
  pub pending_members : S → S × Option (List String)
  -- SADD and SREM of the index of a request ID.
  pub add_to_request : String → String → S → S
  pub remove_from_request : String → String → S → S
  -- SETNX of the claim of a checkpoint, and the script that releases it.
  pub claim : String → S → S × Option Bool
  pub release : String → S → S

module _ {S : Type 0} (client : Client S) where
  unfoldable pub index_request : ExecutionCheckpoint → S → S × Bool
  index_request cp s = (
    if cp.request_id == "" then s else client.add_to_request cp.request_id cp.checkpoint_id s,
    true,
  )

  unfoldable pub indexed : ExecutionCheckpoint → S × Bool → S × Bool
  unfolding index_request
  indexed cp (s, true) = index_request cp s
  indexed cp (s, false) = (s, false)

  unfoldable pub saved : ExecutionCheckpoint → S × Bool → S × Bool
  unfolding indexed
  saved cp (s, true) =
      if is_pending_status cp.status
      then indexed cp (client.add_pending cp.checkpoint_id s)
      else index_request cp s
  saved cp (s, false) = (s, false)

  unfoldable pub save_checkpoint : ExecutionCheckpoint → S → S × Bool
  unfolding saved
  save_checkpoint cp s = saved cp (client.set cp s)

  unfoldable pub load_checkpoint : String → S → S × Loaded
  load_checkpoint id s = client.get id s

  -- Out of the pending index, where the checkpoint is no longer pending.
  unfoldable pub leave_pending : String → CheckpointStatus → CheckpointStatus → S → S
  leave_pending id old_status status s =
      if is_pending_status old_status && not (is_pending_status status)
      then client.remove_pending id s
      else s

  unfoldable pub updated : String → CheckpointStatus → S × Loaded → S × Bool
  unfolding save_checkpoint leave_pending
  updated id status (s, found cp) =
      save_checkpoint (record cp { status = status }) (leave_pending id cp.status status s)
  updated id status (s, not_found) = (s, false)
  updated id status (s, failed) = (s, false)

  unfoldable pub update_checkpoint_status : String → CheckpointStatus → S → S × Bool
  unfolding updated load_checkpoint
  update_checkpoint_status id status s = updated id status (load_checkpoint id s)

  unfoldable pub leave_request : Loaded → String → S → S
  leave_request (found cp) id s =
      if cp.request_id == "" then s else client.remove_from_request cp.request_id id s
  leave_request not_found id s = s
  leave_request failed id s = s

  unfoldable pub unindexed : Loaded → String → S × Bool → S × Bool
  unfolding leave_request
  unindexed loaded id (s, true) = (leave_request loaded id (client.remove_pending id s), true)
  unindexed loaded id (s, false) = (s, false)

  unfoldable pub deleted : String → S × Loaded → S × Bool
  unfolding unindexed
  deleted id (s, found cp) = unindexed (found cp) id (client.del id s)
  deleted id (s, not_found) = unindexed not_found id (client.del id s)
  deleted id (s, failed) = (s, false)

  unfoldable pub delete_checkpoint : String → S → S × Bool
  unfolding deleted load_checkpoint
  delete_checkpoint id s = deleted id (load_checkpoint id s)
