-- ===== src/Tests/HitlRuns.antt =====
-- Checkpoints at concrete inputs, with a store that never fails.
use gomind.Base.{
  ◌≡◌, refl, sym, ◌∙◌, inl, inr, true, false, Option, none, some, [], ◌∷◌, String, if◌then◌else◌,
  Bool-cases,
}
use gomind.Base.Int.{pos}
use gomind.Orchestration.Hitl.{
  RoutingPlan, CheckpointStatus, pending, approved, expired_rejected, CommandType, approve, reject,
  non_streaming, not_set, no_behavior, InterruptDecision, ExecutionCheckpoint, Command,
  is_resumable_status, is_pending_status,
}
use gomind.Orchestration.Hitl.Store.{
  Client, Loaded, found, not_found, load_checkpoint, update_checkpoint_status,
}
use gomind.Orchestration.Hitl.Controller.{process_command}
use gomind.Orchestration.Hitl.Expiry.{
  Processor, applied_action, expired_status, invoke_callback, process_expired_checkpoints,
}
use gomind.Orchestration.Hitl.Lifecycle.{Moves}
use gomind.Orchestration.Hitl.StoreMoves.{Reads, IsRedis, IsKeyed}
use gomind.Orchestration.Hitl.History.{command, resume, progress, delete, expire, run, run-Moves}
use gomind.Orchestration.Hitl.Commands.{Agrees, process_command-Agrees, expired_status-resumable}
use gomind.Orchestration.PlanExecutor.{RoutingStep}
use gomind.Orchestration.Hitl.Policy.{
  HitlConfig, is_sensitive_step, should_approve_plan, should_approve_before_step,
}
use gomind.Orchestration.Hitl.Guards.{Guards, sensitive_steps_wait}
use text.Mathlib.Text.{◌==◌}
use text.Mathlib.TextEquality.{eq_iff}

-- The pending index is left out: it is always these IDs.
abbrev Store : Type 0
Store = String → Option ExecutionCheckpoint

abbrev loaded : Option ExecutionCheckpoint → Loaded
loaded none = not_found
loaded (some cp) = found cp

abbrev put : ExecutionCheckpoint → Store → Store
put cp s k = if k == cp.checkpoint_id then some cp else s k

abbrev remove : String → Store → Store
remove id s k = if k == id then none else s k

abbrev in_memory : Client Store
in_memory = record {
  get = λ id s. (s, loaded (s id));
  set = λ cp s. (put cp s, true);
  del = λ id s. (remove id s, true);
  add_pending = λ id s. (s, true);
  remove_pending = λ id s. s;
  pending_members = λ s. (s, some ("cp" ∷ []));
  add_to_request = λ r id s. s;
  remove_from_request = λ r id s. s;
  claim = λ id s. (s, some true);
  release = λ id s. s;
}

abbrev stored : Store → String → Option ExecutionCheckpoint
stored s id = s id

loaded-Reads :
    (id : String) (s : Store) (o : Option ExecutionCheckpoint)
    → s id ≡ o
    → Reads in_memory stored id (s, loaded o)
loaded-Reads id s none e = tt
loaded-Reads id s (some cp) e = e

in_memory-IsRedis : IsRedis in_memory stored
in_memory-IsRedis = record {
  get_reads = λ id s. loaded-Reads id s (s id) refl;
  get_keeps = λ id s k. inr refl;
  set_sets = λ cp s k. elim (Bool-cases (k == cp.checkpoint_id)) [
    | inl e ↦ inr ((eq_iff k cp.checkpoint_id).0 e, rw e refl)
    | inr e ↦ inl (inr (rw e refl))
  ];
  set_stores =
      λ cp s e. let same = (eq_iff cp.checkpoint_id cp.checkpoint_id).1 refl in inr (rw same refl);
  del_keeps =
      λ id s k. elim (Bool-cases (k == id)) [ inl e ↦ inl (rw e refl) | inr e ↦ inr (rw e refl) ];
  add_pending_keeps = λ id s k. inr refl;
  remove_pending_keeps = λ id s k. inr refl;
  members_keeps = λ s k. inr refl;
  add_to_request_keeps = λ r id s k. inr refl;
  remove_from_request_keeps = λ r id s k. inr refl;
  claim_keeps = λ id s k. inr refl;
  release_keeps = λ id s k. inr refl;
}

-- Nothing but rejection follows from the silence of the human.
abbrev checkpoint : ExecutionCheckpoint
checkpoint = record {
  checkpoint_id = "cp";
  request_id = "r";
  is_on_error = false;
  decision = none;
  plan = none;
  completed_steps = [];
  step_results = [];
  request_mode = non_streaming;
  status = pending;
  expires_at = 100;
}

abbrev one_waits : Store
one_waits k = if k == "cp" then some checkpoint else none

one_waits-IsKeyed : IsKeyed in_memory stored one_waits
one_waits-IsKeyed k cp h = elim (Bool-cases (k == "cp")) [
  | inl e ↦
      let same = (eq_iff k "cp").0 e in
      let there : one_waits k ≡ some checkpoint = rw e refl in keyed_as k cp same (sym there ∙ h)
  | inr e ↦ absurd (missing k cp (rw e refl) h)
]
  where
    keyed_as :
        (k : String) (cp : ExecutionCheckpoint)
        → k ≡ "cp"
        → Path (Option ExecutionCheckpoint) (some checkpoint) (some cp)
        → cp.checkpoint_id ≡ k
    keyed_as k cp e h = cc

    missing :
        (k : String) (cp : ExecutionCheckpoint) → one_waits k ≡ none → one_waits k ≡ some cp → ⊥
    missing k cp e h = cc

abbrev no_callback : Processor Store
no_callback = record {
  getenv = λ name. "";
  at_least_once = false;
  batch_size = pos 10;
  callback = none;
}

abbrev send : CommandType → Command
send type = record { checkpoint_id = "cp"; type = type; edited_plan = none; feedback = "" }

abbrev status_at : Option ExecutionCheckpoint → Option CheckpointStatus
status_at none = none
status_at (some cp) = some cp.status

-- The rejection comes too late.
approved_first :
    status_at (
      run in_memory no_callback
        (command (send approve) ∷ command (send reject) ∷ [])
        one_waits
        "cp")
    ≡ some approved
unfolding run process_command load_checkpoint is_pending_status update_checkpoint_status
approved_first = refl

-- At 101 it has expired, and the approval comes too late.
expired_first :
    status_at (run in_memory no_callback (expire 101 ∷ command (send approve) ∷ []) one_waits "cp")
    ≡ some expired_rejected
unfolding run process_command process_expired_checkpoints is_pending_status update_checkpoint_status
expired_first = refl

run-Moves_example : Moves (one_waits "cp") (
    run in_memory no_callback
      (progress "cp" [] ∷ command (send approve) ∷ expire 101 ∷ resume "cp" ∷ delete "other" ∷ [])
      one_waits
      "cp")
unfolding invoke_callback
run-Moves_example =
    run-Moves in_memory no_callback stored
      (progress "cp" [] ∷ command (send approve) ∷ expire 101 ∷ resume "cp" ∷ delete "other" ∷ [])
      one_waits "cp" in_memory-IsRedis (λ cp action s k. inr refl) one_waits-IsKeyed

process_command-Agrees_example :
    Agrees stored (send approve) (process_command in_memory (send approve) one_waits)
process_command-Agrees_example =
    process_command-Agrees in_memory stored in_memory-IsRedis (send approve) one_waits
      one_waits-IsKeyed

-- A decision that lets the checkpoint pass when it expires.
abbrev lenient : InterruptDecision
lenient = record {
  should_interrupt = true;
  default_action = some approve;
  default_request_mode = not_set;
  streaming_expiry_behavior = no_behavior;
  non_streaming_expiry_behavior = no_behavior;
}

expired_status-resumable_example :
    (d : InterruptDecision) × (Path (Option InterruptDecision) (some lenient) (some d))
    × (d.default_action ≡ some approve)
unfolding applied_action expired_status is_resumable_status
expired_status-resumable_example =
    expired_status-resumable in_memory no_callback (record checkpoint { decision = some lenient })
      refl

abbrev careful : HitlConfig
careful = record {
  require_plan_approval = false;
  sensitive_capabilities = "transfer_funds" ∷ [];
  sensitive_agents = [];
  step_sensitive_capabilities = [];
  step_sensitive_agents = [];
  escalate_after_retries = pos 3;
  default_action = none;
}

abbrev transfer : RoutingStep
transfer = record {
  step_id = "pay";
  agent_name = "bank";
  depends_on = [];
  capability = some "transfer_funds";
}

abbrev payment : RoutingPlan
payment = record { plan_id = "p"; steps = transfer ∷ [] }

sensitive_steps_wait_example :
    Guards in_memory no_callback checkpoint (should_approve_plan careful payment)
    × Guards in_memory no_callback checkpoint (should_approve_before_step careful transfer)
unfolding is_sensitive_step
sensitive_steps_wait_example =
    sensitive_steps_wait in_memory no_callback checkpoint careful payment transfer
      (λ e. absurd (cc)) (inl refl) refl
