-- ===== src/Orchestration/Hitl/ExpiryMoves.antt =====
-- A scan for expired checkpoints moves each checkpoint along its life.
use gomind.Base.{
  ℕ, suc, ◌≡◌, Bool, true, false, not, ◌&&◌, Option, none, some, List, [], ◌∷◌, String,
  if◌then◌else◌, if_cases, ltb, arith, ap, ◌∙◌,
}
use gomind.Base.Int.{pos, leb_ℤ}
use gomind.Orchestration.Hitl.{
  CheckpointStatus, CommandType, ExecutionCheckpoint, is_pending_status,
}
use gomind.Orchestration.Hitl.Store.{
  Client, Loaded, found, not_found, failed, load_checkpoint, update_checkpoint_status,
  leave_request, unindexed, deleted, delete_checkpoint,
}
use gomind.Orchestration.Hitl.Expiry.{
  Processor, applied_action, expired_status, invoke_callback, after_callback, after_update, deliver,
  process_expired_checkpoint, claimed, visited, scan, scanned, process_expired_checkpoints,
}
use gomind.Orchestration.Hitl.StoreMoves.{
  KeepsAll, Reads, IsRedis, IsKeyed, From, From-refl, From-trans, get-From, From-keeps, PendingAt,
  PendingAt-keeps, update_checkpoint_status-From,
}
use gomind.Orchestration.Hitl.Moves.{waiting}
use text.Mathlib.Text.{◌==◌}

and_left : (b c : Bool) → (b && c) ≡ true → b ≡ true
and_left b c h = ground arith

-- The application's callback leaves the stored checkpoints alone.
abbrev pub CallbackKeeps :
    {S : Type 0} → Client S → (S → String → Option ExecutionCheckpoint) → Processor S → Type 0
CallbackKeeps {S} client view processor =
    (cp : ExecutionCheckpoint) (action : Option CommandType) (s : S)
    → KeepsAll client view s (invoke_callback client processor cp action s).0

module _ {S : Type 0} (client : Client S) (view : S → String → Option ExecutionCheckpoint)
    (redis : IsRedis client view) where
  abbrev Follows : S → S → Type 0
  Follows s t = From client view s t

  leave_request-From :
      (l : Loaded) (id : String) (s t : S) → Follows s t → Follows s (leave_request client l id t)
  unfolding leave_request
  leave_request-From (found cp) id s t h =
      if_cases (Follows s) (cp.request_id == "") (λ _. h)
        (λ _.
          From-keeps client view s t (client.remove_from_request cp.request_id id t) h
            (redis.remove_from_request_keeps cp.request_id id t))
  leave_request-From not_found id s t h = h
  leave_request-From failed id s t h = h

  unindexed-From :
      (l : Loaded) (id : String) (s : S) (r : S × Bool)
      → Follows s r.0
      → Follows s (unindexed client l id r).0
  unfolding unindexed
  unindexed-From l id s (t, true) h =
      leave_request-From l id s (client.remove_pending id t) (
        From-keeps client view s t (client.remove_pending id t) h (redis.remove_pending_keeps id t))
  unindexed-From l id s (t, false) h = h

  deleted-From :
      (id : String) (s : S) (r : S × Loaded) → Follows s r.0 → Follows s (deleted client id r).0
  unfolding deleted
  deleted-From id s (t, found cp) h =
      unindexed-From (found cp) id s (client.del id t)
        (From-keeps client view s t (client.del id t).0 h (redis.del_keeps id t))
  deleted-From id s (t, not_found) h =
      unindexed-From not_found id s (client.del id t)
        (From-keeps client view s t (client.del id t).0 h (redis.del_keeps id t))
  deleted-From id s (t, failed) h = h

  pub delete_checkpoint-From :
      (id : String) (s : S) → IsKeyed client view s → Follows s (delete_checkpoint client id s).0
  unfolding delete_checkpoint load_checkpoint
  delete_checkpoint-From id s keyed =
      deleted-From id s (client.get id s) (get-From client view redis id s keyed)

  module _ (processor : Processor S) where
    module _ (callback_keeps : CallbackKeeps client view processor) where
      after_callback-From :
          (id : String) (status : CheckpointStatus) (s : S) (r : S × Bool)
          → Follows s r.0
          → PendingAt client view id r.0
          → Follows s (after_callback client processor id status r)
      unfolding after_callback
      after_callback-From id status s (t, true) h waits =
          From-trans client view s t (update_checkpoint_status client id status t).0 h
            (update_checkpoint_status-From client view redis id status t h.0 waits)
      after_callback-From id status s (t, false) h waits = h

      after_update-From :
          (cp : ExecutionCheckpoint) (action : Option CommandType) (s : S) (r : S × Bool)
          → Follows s r.0
          → Follows s (after_update client processor cp action r)
      unfolding after_update
      after_update-From cp action s (t, true) h =
          From-keeps client view s t (invoke_callback client processor cp action t).0 h
            (callback_keeps cp action t)
      after_update-From cp action s (t, false) h = h

      deliver-From :
          (cp : ExecutionCheckpoint) (action : Option CommandType) (status : CheckpointStatus)
          (s : S)
          → IsKeyed client view s
          → PendingAt client view cp.checkpoint_id s
          → Follows s (deliver client processor cp action status s)
      unfolding deliver
      deliver-From cp action status s keyed waits =
          let new = record cp { status = status } in
          let r = invoke_callback client processor new action s in
          if_cases (Follows s) processor.at_least_once
            (λ _.
              after_callback-From cp.checkpoint_id status s r
                (From-keeps client view s s r.0 (From-refl client view s keyed)
                  (callback_keeps new action s))
                (PendingAt-keeps client view cp.checkpoint_id s r.0 waits
                  (callback_keeps new action s)))
            (λ _.
              after_update-From new action s
                (update_checkpoint_status client cp.checkpoint_id status s)
                (update_checkpoint_status-From client view redis cp.checkpoint_id status s keyed
                  waits))

      claimed-From :
          (id : String) (cp : ExecutionCheckpoint) (s : S) (r : S × Option Bool)
          → Follows s r.0
          → PendingAt client view cp.checkpoint_id r.0
          → Follows s (claimed client processor id cp r).0
      unfolding claimed process_expired_checkpoint
      claimed-From id cp s (t, none) h waits = h
      claimed-From id cp s (t, some false) h waits = h
      claimed-From id cp s (t, some true) h waits =
          let action = applied_action client processor cp in
          let u = deliver client processor cp action (expired_status client processor action) t in
          From-keeps client view s u (client.release id u)
            (From-trans client view s t u h
              (deliver-From cp action (expired_status client processor action) t h.0 waits))
            (redis.release_keeps id u)

      abbrev Ends : S → S × Bool → Type 0
      Ends s r = Follows s r.0

      visited-From :
          (id : String) (now : ℕ) (s : S) (r : S × Loaded)
          → Follows s r.0
          → Reads client view id r
          → Follows s (visited client processor id now r).0
      unfolding visited
      visited-From id now s (t, found cp) h read =
          if_cases (Ends s) (is_pending_status cp.status && not (ltb now cp.expires_at))
            (λ p.
              claimed-From id cp s (client.claim id t)
                (From-keeps client view s t (client.claim id t).0 h (redis.claim_keeps id t))
                (PendingAt-keeps client view cp.checkpoint_id t (client.claim id t).0
                  (waiting client view redis cp.checkpoint_id t cp
                    (ap (view t) (h.0 id cp read) ∙ read)
                    (and_left (is_pending_status cp.status) (not (ltb now cp.expires_at)) p))
                  (redis.claim_keeps id t)))
            (λ _. h)
      visited-From id now s (t, not_found) h read =
          From-keeps client view s t (client.remove_pending id t) h
            (redis.remove_pending_keeps id t)
      visited-From id now s (t, failed) h read =
          From-keeps client view s t (client.remove_pending id t) h
            (redis.remove_pending_keeps id t)

      scan-From :
          (ids : List String) (processed now : ℕ) (s t : S)
          → Follows s t
          → Follows s (scan client processor ids processed now t)
      unfolding scan load_checkpoint
      scan-From [] processed now s t h = h
      scan-From (id ∷ ids) processed now s t h =
          let r = visited client processor id now (client.get id t) in
          if_cases (Follows s) (leb_ℤ processor.batch_size (pos processed)) (λ _. h)
            (λ _. scan-From ids (if r.1 then suc processed else processed) now s r.0 (
              visited-From id now s (client.get id t)
                (From-keeps client view s t (client.get id t).0 h (redis.get_keeps id t))
                (redis.get_reads id t)))

      scanned-From :
          (now : ℕ) (s : S) (r : S × Option (List String))
          → Follows s r.0
          → Follows s (scanned client processor now r)
      unfolding scanned
      scanned-From now s (t, none) h = h
      scanned-From now s (t, some ids) h = scan-From ids 0 now s t h

      pub process_expired_checkpoints-From :
          (now : ℕ) (s : S)
          → IsKeyed client view s
          → Follows s (process_expired_checkpoints client processor now s)
      unfolding process_expired_checkpoints
      process_expired_checkpoints-From now s keyed = scanned-From now s (client.pending_members s) (
          From-keeps client view s s (client.pending_members s).0 (From-refl client view s keyed)
            (redis.members_keeps s))
