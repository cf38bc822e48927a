-- ===== src/Orchestration/Hitl/Commands.antt =====
-- What an answer to a command and an expiry mean for the checkpoint.
use gomind.Base.{
  ◌≡◌, refl, sym, ◌∙◌, subst, ◌⊎◌, inl, inr, Bool, true, false, Option, none, some, String,
  if_cases,
}
use gomind.Orchestration.Hitl.{
  CheckpointStatus, approved, edited, rejected, aborted, CommandType, approve, edit, reject, skip,
  abort, retry, respond, unknown, InterruptDecision, ExecutionCheckpoint, Command, ResumeResult,
  is_pending_status, is_resumable_status,
}
use gomind.Orchestration.Hitl.Store.{
  Client, Loaded, found, not_found, failed, index_request, indexed, saved, save_checkpoint,
  load_checkpoint, leave_pending, updated, update_checkpoint_status,
}
use gomind.Orchestration.Hitl.Controller.{
  status_for, result_of, answered, decided, commanded, process_command,
}
use gomind.Orchestration.Hitl.Expiry.{
  Processor, should_apply_default_action, effective_request_mode, action_to_expired_status,
  determine_expiry_action, applied_action, expired_status, action_or, fallback_action,
}
use gomind.Orchestration.Hitl.Lifecycle.{Kept}
use gomind.Orchestration.Hitl.StoreMoves.{KeepsAll, Reads, IsRedis, IsKeyed, get-From}
use text.Mathlib.Text.{◌==◌}

Kept-trans : (o p q : Option ExecutionCheckpoint) → Kept o p → Kept p q → Kept o q
Kept-trans o p q h (inl gone) = inl gone
Kept-trans o p q (inl gone) (inr same) = inl (same ∙ gone)
Kept-trans o p q (inr same) (inr same') = inr (same' ∙ same)

approved_action :
    (action : Option CommandType) (is_on_error : Bool)
    → is_resumable_status
        (action_to_expired_status (action_or action (fallback_action is_on_error)))
      ≡ true
    → action ≡ some approve
unfolding is_resumable_status action_to_expired_status
approved_action none true h = absurd (cc)
approved_action none false h = absurd (cc)
approved_action (some approve) e h = refl
approved_action (some edit) e h = absurd (cc)
approved_action (some reject) e h = absurd (cc)
approved_action (some skip) e h = absurd (cc)
approved_action (some abort) e h = absurd (cc)
approved_action (some retry) e h = absurd (cc)
approved_action (some respond) e h = absurd (cc)
approved_action (some unknown) e h = absurd (cc)

approved_decision :
    (o : Option InterruptDecision) (is_on_error : Bool)
    → is_resumable_status (action_to_expired_status (determine_expiry_action o is_on_error)) ≡ true
    → (d : InterruptDecision) × (o ≡ some d) × (d.default_action ≡ some approve)
unfolding determine_expiry_action
approved_decision none e h = absurd (let f = approved_action none e h in cc)
approved_decision (some d) e h = (d, refl, approved_action d.default_action e h)

-- An expired checkpoint may be resumed only where the policy's decision names approval as the action
-- of its expiry, whatever the modes and the environment variables are.
pub expired_status-resumable :
    {S : Type 0} (client : Client S) (processor : Processor S) (cp : ExecutionCheckpoint)
    → is_resumable_status (expired_status client processor (applied_action client processor cp))
      ≡ true
    → (d : InterruptDecision) × (cp.decision ≡ some d) × (d.default_action ≡ some approve)
unfolding applied_action expired_status is_resumable_status
expired_status-resumable client processor cp =
    if_cases
      (λ (o : Option CommandType).
        is_resumable_status (expired_status client processor o) ≡ true
        → (d : InterruptDecision) × (cp.decision ≡ some d) × (d.default_action ≡ some approve))
      (should_apply_default_action client processor cp (effective_request_mode client processor cp))
      (λ _ h. approved_decision cp.decision cp.is_on_error h) (λ _ h. absurd (cc))

resumes :
    (b : Bool) (st status : CheckpointStatus)
    → b ≡ is_resumable_status st
    → Path (Option CheckpointStatus) (some st) (some status)
    → b ≡ is_resumable_status status
resumes b st status h e = cc

result_agrees :
    (t : CommandType) (c : Command) (status : CheckpointStatus)
    → status_for t ≡ some status
    → (result_of t c).should_resume ≡ is_resumable_status status
unfolding status_for result_of is_resumable_status
result_agrees approve c status e = resumes true approved status refl e
result_agrees edit c status e = resumes true edited status refl e
result_agrees reject c status e = resumes false rejected status refl e
result_agrees skip c status e = resumes true approved status refl e
result_agrees abort c status e = resumes false aborted status refl e
result_agrees retry c status e = resumes true approved status refl e
result_agrees respond c status e = resumes true approved status refl e
result_agrees unknown c status e = absurd (cc)

module _ {S : Type 0} (view : S → String → Option ExecutionCheckpoint) where
  -- The checkpoint has this status, unless Redis has forgotten it.
  abbrev pub HasStatus : String → CheckpointStatus → S → Type 0
  HasStatus id status s =
      (view s id ≡ none)
      ⊎ ((cp : ExecutionCheckpoint) × (view s id ≡ some cp) × (cp.status ≡ status))

  -- The result goes with the status that is now stored.
  abbrev pub Agrees : Command → S × Option ResumeResult → Type 0
  Agrees c (s, none) = Unit
  Agrees c (s, some result) =
      (status : CheckpointStatus) × HasStatus c.checkpoint_id status s
      × (status_for c.type ≡ some status)
      × (result.should_resume ≡ is_resumable_status status)

module _ {S : Type 0} (client : Client S) (view : S → String → Option ExecutionCheckpoint)
    (redis : IsRedis client view) where
  index_request-keeps :
      (cp : ExecutionCheckpoint) (s : S) → KeepsAll client view s (index_request client cp s).0
  unfolding index_request
  index_request-keeps cp s =
      if_cases (KeepsAll client view s) (cp.request_id == "") (λ _ k. inr refl)
        (λ _. redis.add_to_request_keeps cp.request_id cp.checkpoint_id s)

  -- A save that gives no error.
  abbrev Stored : ExecutionCheckpoint → S × Bool → Type 0
  Stored cp r = r.1 ≡ true → Kept (some cp) (view r.0 cp.checkpoint_id)

  indexed-Stored :
      (cp : ExecutionCheckpoint) (r : S × Bool)
      → Kept (some cp) (view r.0 cp.checkpoint_id)
      → Stored cp (indexed client cp r)
  unfolding indexed
  indexed-Stored cp (s, true) h _ =
      Kept-trans (some cp) (view s cp.checkpoint_id)
        (view (index_request client cp s).0 cp.checkpoint_id) h
        (index_request-keeps cp s cp.checkpoint_id)
  indexed-Stored cp (s, false) h e = absurd (cc)

  saved-Stored :
      (cp : ExecutionCheckpoint) (r : S × Bool) → Stored cp r → Stored cp (saved client cp r)
  unfolding saved
  saved-Stored cp (s, true) h =
      if_cases (Stored cp) (is_pending_status cp.status)
        (λ _.
          let r = client.add_pending cp.checkpoint_id s in
          indexed-Stored cp r (
            Kept-trans (some cp) (view s cp.checkpoint_id) (view r.0 cp.checkpoint_id) (h refl)
              (redis.add_pending_keeps cp.checkpoint_id s cp.checkpoint_id)))
        (λ _ _.
          Kept-trans (some cp) (view s cp.checkpoint_id)
            (view (index_request client cp s).0 cp.checkpoint_id) (h refl)
            (index_request-keeps cp s cp.checkpoint_id))
  saved-Stored cp (s, false) h = λ e. absurd (cc)

  updated-HasStatus :
      (id : String) (status : CheckpointStatus) (r : S × Loaded)
      → IsKeyed client view r.0
      → Reads client view id r
      → (updated client id status r).1 ≡ true
      → HasStatus view id status (updated client id status r).0
  unfolding updated save_checkpoint
  updated-HasStatus id status (s, found cp) keyed read ok =
      let new = record cp { status = status } in
      let t = leave_pending client id cp.status status s in
      let u = (saved client new (client.set new t)).0 in
      from_kept (view u id) new (
        subst (λ (k : String). Kept (some new) (view u k)) (keyed id cp read)
          (saved-Stored new (client.set new t) (redis.set_stores new t) ok))
    where
      from_kept :
          (o : Option ExecutionCheckpoint) (new : ExecutionCheckpoint)
          → Kept (some new) o
          → (o ≡ none) ⊎ ((c : ExecutionCheckpoint) × (o ≡ some c) × (c.status ≡ new.status))
      from_kept o new (inl gone) = inl gone
      from_kept o new (inr same) = inr (new, same, refl)
  updated-HasStatus id status (s, not_found) keyed read ok = absurd (cc)
  updated-HasStatus id status (s, failed) keyed read ok = absurd (cc)

  answered-Agrees :
      (c : Command) (status : CheckpointStatus) (r : S × Bool)
      → status_for c.type ≡ some status
      → (r.1 ≡ true → HasStatus view c.checkpoint_id status r.0)
      → Agrees view c (answered client c r)
  unfolding answered
  answered-Agrees c status (s, true) e h = (status, h refl, e, result_agrees c.type c status e)
  answered-Agrees c status (s, false) e h = tt

  decided-Agrees :
      (c : Command) (o : Option CheckpointStatus) (s : S)
      → o ≡ status_for c.type
      → IsKeyed client view s
      → Agrees view c (decided client c o s)
  unfolding decided update_checkpoint_status load_checkpoint
  decided-Agrees c none s e keyed = tt
  decided-Agrees c (some status) s e keyed =
      let r = client.get c.checkpoint_id s in
      answered-Agrees c status (updated client c.checkpoint_id status r) (sym e) (
        updated-HasStatus c.checkpoint_id status r
          (get-From client view redis c.checkpoint_id s keyed).0
          (redis.get_reads c.checkpoint_id s))

  commanded-Agrees :
      (c : Command) (r : S × Loaded)
      → IsKeyed client view r.0
      → Agrees view c (commanded client c r)
  unfolding commanded
  commanded-Agrees c (s, found cp) keyed =
      if_cases (Agrees view c) (is_pending_status cp.status)
        (λ _. decided-Agrees c (status_for c.type) s refl keyed) (λ _. tt)
  commanded-Agrees c (s, not_found) keyed = tt
  commanded-Agrees c (s, failed) keyed = tt

  -- Where a command is answered with a result, the checkpoint now has the status of the command,
  -- unless Redis has forgotten it by then; and the result says to resume exactly where that status may
  -- be resumed. Checkpoints are stored under their own IDs.
  pub process_command-Agrees :
      (c : Command) (s : S) → IsKeyed client view s → Agrees view c (process_command client c s)
  unfolding process_command load_checkpoint
  process_command-Agrees c s keyed =
      commanded-Agrees c (client.get c.checkpoint_id s)
        (get-From client view redis c.checkpoint_id s keyed).0
