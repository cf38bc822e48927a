-- ===== src/Orchestration/Hitl/Moves.antt =====
-- The controller's operations move each checkpoint along its life.
use gomind.Base.{
  ◌≡◌, refl, sym, ap, ◌∙◌, inr, Bool, true, false, Option, none, some, List, String, if_cases,
}
use gomind.Orchestration.PlanExecutor.{StepResult}
use gomind.Orchestration.Hitl.{
  CheckpointStatus, pending, approved, rejected, edited, completed, aborted, expired,
  expired_approved, expired_rejected, expired_aborted, ExecutionCheckpoint, Command, ResumeResult,
  is_pending_status,
}
use gomind.Orchestration.Hitl.Store.{
  Client, Loaded, found, not_found, failed, load_checkpoint, update_checkpoint_status,
}
use gomind.Orchestration.Hitl.Controller.{
  status_for, may_resume, add_results, answered, decided, commanded, process_command, Resumption,
  resumed_from, resume_execution, progressed, update_checkpoint_progress,
}
use gomind.Orchestration.Hitl.Lifecycle.{MayBecome, MayBecome-refl}
use gomind.Orchestration.Hitl.StoreMoves.{
  Reads, IsRedis, IsKeyed, From, From-refl, From-trans, get-From, PendingAt, save_checkpoint-From,
  update_checkpoint_status-From,
}

is_pending_status-pending : (st : CheckpointStatus) → is_pending_status st ≡ true → st ≡ pending
unfolding is_pending_status
is_pending_status-pending pending h = refl
is_pending_status-pending approved h = absurd (cc)
is_pending_status-pending rejected h = absurd (cc)
is_pending_status-pending edited h = absurd (cc)
is_pending_status-pending completed h = absurd (cc)
is_pending_status-pending aborted h = absurd (cc)
is_pending_status-pending expired h = absurd (cc)
is_pending_status-pending expired_approved h = absurd (cc)
is_pending_status-pending expired_rejected h = absurd (cc)
is_pending_status-pending expired_aborted h = absurd (cc)

may_resume-MayBecome : (st : CheckpointStatus) → may_resume st ≡ true → MayBecome st completed
unfolding may_resume
may_resume-MayBecome pending h = tt
may_resume-MayBecome approved h = inr refl
may_resume-MayBecome rejected h = absurd (cc)
may_resume-MayBecome edited h = inr refl
may_resume-MayBecome completed h = refl
may_resume-MayBecome aborted h = absurd (cc)
may_resume-MayBecome expired h = absurd (cc)
may_resume-MayBecome expired_approved h = absurd (cc)
may_resume-MayBecome expired_rejected h = absurd (cc)
may_resume-MayBecome expired_aborted h = absurd (cc)

module _ {S : Type 0} (client : Client S) (view : S → String → Option ExecutionCheckpoint)
    (redis : IsRedis client view) where
  abbrev Follows : S → S → Type 0
  Follows s t = From client view s t

  -- The checkpoint that was just read is pending.
  pub waiting :
      (id : String) (s : S) (cp : ExecutionCheckpoint)
      → view s id ≡ some cp
      → is_pending_status cp.status ≡ true
      → PendingAt client view id s
  waiting id s cp read p other e =
      let same : Path (Option ExecutionCheckpoint) (some cp) (some other) = sym read ∙ e in
      let q = is_pending_status-pending cp.status p in cc

  answered-From :
      (c : Command) (s : S) (r : S × Bool) → Follows s r.0 → Follows s (answered client c r).0
  unfolding answered
  answered-From c s (t, true) h = h
  answered-From c s (t, false) h = h

  decided-From :
      (c : Command) (status : Option CheckpointStatus) (s : S)
      → IsKeyed client view s
      → PendingAt client view c.checkpoint_id s
      → Follows s (decided client c status s).0
  unfolding decided
  decided-From c none s keyed waits = From-refl client view s keyed
  decided-From c (some status) s keyed waits =
      answered-From c s (update_checkpoint_status client c.checkpoint_id status s)
        (update_checkpoint_status-From client view redis c.checkpoint_id status s keyed waits)

  commanded-From :
      (c : Command) (r : S × Loaded)
      → IsKeyed client view r.0
      → Reads client view c.checkpoint_id r
      → Follows r.0 (commanded client c r).0
  unfolding commanded
  commanded-From c (s, found cp) keyed read =
      if_cases (λ (r : S × Option ResumeResult). Follows s r.0) (is_pending_status cp.status)
        (λ p. decided-From c (status_for c.type) s keyed (waiting c.checkpoint_id s cp read p))
        (λ _. From-refl client view s keyed)
  commanded-From c (s, not_found) keyed read = From-refl client view s keyed
  commanded-From c (s, failed) keyed read = From-refl client view s keyed

  resumed_from-From :
      (id : String) (r : S × Loaded)
      → IsKeyed client view r.0
      → Reads client view id r
      → Follows r.0 (resumed_from client r).0
  unfolding resumed_from
  resumed_from-From id (s, found cp) keyed read =
      if_cases (λ (r : S × Resumption). Follows s r.0) (may_resume cp.status)
        (λ m.
          save_checkpoint-From client view redis (record cp { status = completed }) s s
            (cp, ap (view s) (keyed id cp read) ∙ read, may_resume-MayBecome cp.status m)
            (From-refl client view s keyed))
        (λ _. From-refl client view s keyed)
  resumed_from-From id (s, not_found) keyed read = From-refl client view s keyed
  resumed_from-From id (s, failed) keyed read = From-refl client view s keyed

  progressed-From :
      (id : String) (steps : List StepResult) (r : S × Loaded)
      → IsKeyed client view r.0
      → Reads client view id r
      → Follows r.0 (progressed client steps r).0
  unfolding progressed
  progressed-From id steps (s, found cp) keyed read =
      save_checkpoint-From client view redis
        (record cp { completed_steps = steps; step_results = add_results steps cp.step_results }) s
        s (cp, ap (view s) (keyed id cp read) ∙ read, MayBecome-refl cp.status)
        (From-refl client view s keyed)
  progressed-From id steps (s, not_found) keyed read = From-refl client view s keyed
  progressed-From id steps (s, failed) keyed read = From-refl client view s keyed

  pub process_command-From :
      (c : Command) (s : S) → IsKeyed client view s → Follows s (process_command client c s).0
  unfolding process_command load_checkpoint
  process_command-From c s keyed =
      let r = client.get c.checkpoint_id s in
      let h = get-From client view redis c.checkpoint_id s keyed in
      From-trans client view s r.0 (commanded client c r).0 h
        (commanded-From c r h.0 (redis.get_reads c.checkpoint_id s))

  pub resume_execution-From :
      (id : String) (s : S) → IsKeyed client view s → Follows s (resume_execution client id s).0
  unfolding resume_execution load_checkpoint
  resume_execution-From id s keyed =
      let r = client.get id s in
      let h = get-From client view redis id s keyed in
      From-trans client view s r.0 (resumed_from client r).0 h
        (resumed_from-From id r h.0 (redis.get_reads id s))

  pub update_checkpoint_progress-From :
      (id : String) (steps : List StepResult) (s : S)
      → IsKeyed client view s
      → Follows s (update_checkpoint_progress client id steps s).0
  unfolding update_checkpoint_progress load_checkpoint
  update_checkpoint_progress-From id steps s keyed =
      let r = client.get id s in
      let h = get-From client view redis id s keyed in
      From-trans client view s r.0 (progressed client steps r).0 h
        (progressed-From id steps r h.0 (redis.get_reads id s))
