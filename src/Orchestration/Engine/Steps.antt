-- ===== src/Orchestration/Engine/Steps.antt =====
-- What a completed step has done.
use gomind.Base.{
  ℕ, zero, suc, ◌≡◌, refl, inl, inr, Bool, false, ◌&&◌, Option, none, some, arith, ap, ◌∙◌,
  Option-cases, if_cases, if◌then◌else◌,
}
use gomind.Base.Int.{ℤ, pos, negsuc, ◌≤ℤ◌}
use gomind.Core.Errors.{Error}
use gomind.Orchestration.Engine.{
  validated, approved, escalated, StepDefinition, Service, Environment, RetryConfig, CallsEnd,
  answered, failed, interrupted, TaskResult, completed, task_error, Check, clear, stopped_at,
  check_failed, attempts_of, calls_from, calls_up_to, after_step, after_error, finish_step,
  call_step, discover, execute_step, calculate_backoff,
}

and_off : (b c : Bool) → c ≡ false → (b && c) ≡ false
and_off b c h = ground arith

module _ {S Output : Type 0} (env : Environment S Output) where
  -- Some call of the service gave this output, and no error.
  abbrev WasAnswered : Service → Option Output → Type 0
  WasAnswered service output =
      (before : S) × (after : S) × (env.call_service service before ≡ (after, output, none))

  abbrev EndsAnswered : Service → CallsEnd Output → Type 0
  EndsAnswered service (answered output) = WasAnswered service output
  EndsAnswered service (failed e) = Unit
  EndsAnswered service (interrupted e) = Unit

  -- A result that stands for work done.
  abbrev pub WasDone : TaskResult Output → Type 0
  WasDone (completed output) = (service : Service) × WasAnswered service output
  WasDone (task_error e) = Unit

  calls_from-EndsAnswered :
      (service : Service) (retry : Option RetryConfig) (rounds attempt : ℕ) (s : S)
      → EndsAnswered service (calls_from env service retry rounds attempt s).2
  unfolding calls_from
  calls_from-EndsAnswered service retry zero attempt s =
      let r = env.call_service service s in
      elim (Option-cases r.2) [
        | inl fine ↦ rw (fine, calls_from) (s, r.0, ap (λ (o : Option Error). (r.0, r.1, o)) fine)
        | inr (e, bad) ↦ rw (bad, calls_from) tt
      ]
  calls_from-EndsAnswered service retry (suc rounds) attempt s =
      let r = env.call_service service s in
      elim (Option-cases r.2) [
        | inl fine ↦ rw (fine, calls_from) (s, r.0, ap (λ (o : Option Error). (r.0, r.1, o)) fine)
        | inr (e, bad) ↦
            let w = env.sleep (calculate_backoff retry (pos attempt)) r.0 in
            elim (Option-cases w.1) [
              | inl quiet ↦
                  rw (bad, calls_from, quiet)
                    (calls_from-EndsAnswered service retry rounds (suc attempt) w.0)
              | inr (e', stopped) ↦ rw (bad, calls_from, stopped) tt
            ]
      ]

  calls_up_to-EndsAnswered :
      (max : ℤ) (service : Service) (retry : Option RetryConfig) (s : S)
      → pos 1 ≤ℤ max
      → EndsAnswered service (calls_up_to env max service retry s).2
  unfolding calls_up_to
  calls_up_to-EndsAnswered (pos zero) service retry s h = absurd (omega arith)
  calls_up_to-EndsAnswered (pos (suc n)) service retry s h =
      calls_from-EndsAnswered service retry n 1 s
  calls_up_to-EndsAnswered (negsuc n) service retry s h = absurd (omega arith)

  validated-WasDone :
      (output : Option Output) (c : S × Check)
      → WasDone (completed output)
      → WasDone (validated env output c).1
  validated-WasDone output (s, clear) done = done
  validated-WasDone output (s, stopped_at id) done = tt
  validated-WasDone output (s, check_failed e) done = done

  escalated-WasDone : (e : Error) (c : S × Check) → WasDone (escalated env e c).1
  escalated-WasDone e (s, clear) = tt
  escalated-WasDone e (s, stopped_at id) = tt
  escalated-WasDone e (s, check_failed e') = tt

  abbrev IsDone : S × TaskResult Output → Type 0
  IsDone r = WasDone r.1

  finish_step-WasDone :
      (step : StepDefinition) (service : Service) (r : S × ℕ × CallsEnd Output)
      → EndsAnswered service r.2
      → WasDone (finish_step env step r).1
  unfolding finish_step after_step after_error
  finish_step-WasDone step service (s, attempts, answered output) h =
      if_cases IsDone (step.validate_output && env.has_controller)
        (λ _. validated-WasDone output (env.check_after_step output s) (service, h))
        (λ _. (service, h))
  finish_step-WasDone step service (s, attempts, failed e) h =
      if_cases IsDone env.has_controller
        (λ _. escalated-WasDone e (env.check_on_error e (pos attempts) s)) (λ _. tt)
  finish_step-WasDone step service (s, attempts, interrupted e) h = tt

  call_step-WasDone :
      (step : StepDefinition) (service : Option Service) (s : S)
      → pos 1 ≤ℤ attempts_of step.retry
      → WasDone (call_step env step service s).1
  unfolding call_step
  call_step-WasDone step none s h = tt
  call_step-WasDone step (some service) s h =
      finish_step-WasDone step service
        (calls_up_to env (attempts_of step.retry) service step.retry s)
        (calls_up_to-EndsAnswered (attempts_of step.retry) service step.retry s h)

  approved-WasDone :
      (step : StepDefinition) (c : S × Check)
      → pos 1 ≤ℤ attempts_of step.retry
      → WasDone (approved env step c).1
  unfolding approved
  approved-WasDone step (s, clear) h = call_step-WasDone step (discover env step s) s h
  approved-WasDone step (s, stopped_at id) h = tt
  approved-WasDone step (s, check_failed e) h = tt

  -- A step that allows at least one attempt is completed only with an output that a call of a
  -- service gave with no error, whatever the discovery, the approvals and the timers do.
  pub execute_step-WasDone :
      (step : StepDefinition) (s : S)
      → pos 1 ≤ℤ attempts_of step.retry
      → WasDone (execute_step env step s).1
  unfolding execute_step
  execute_step-WasDone step s h =
      if_cases IsDone (step.require_approval && env.has_controller)
        (λ _. approved-WasDone step (env.check_before_step s) h)
        (λ _. approved-WasDone step (s, clear) h)

  no_calls :
      (max : ℤ) (service : Service) (retry : Option RetryConfig) (s : S)
      → max ≤ℤ pos 0
      → calls_up_to env max service retry s ≡ (s, 0, answered none)
  unfolding calls_up_to
  no_calls (pos zero) service retry s h = refl
  no_calls (pos (suc n)) service retry s h = absurd (omega arith)
  no_calls (negsuc n) service retry s h = refl

  -- A step whose retry configuration leaves out the number of attempts, or gives one that is not
  -- positive, is completed with no output and without any call, as soon as a service is found and
  -- no controller of approvals is set.
  pub uncalled_step_completes :
      (step : StepDefinition) (s : S) (service : Service)
      → attempts_of step.retry ≤ℤ pos 0
      → env.has_controller ≡ false
      → discover env step s ≡ some service
      → execute_step env step s ≡ (s, completed none)
  unfolding execute_step approved call_step finish_step after_step
  uncalled_step_completes step s service h off found' =
      ap
        (λ (b : Bool).
          if b then approved env step (env.check_before_step s) else approved env step (s, clear))
        (and_off step.require_approval env.has_controller off)
      ∙ ap (λ (o : Option Service). call_step env step o s) found'
      ∙ ap (finish_step env step) (no_calls (attempts_of step.retry) service step.retry s h)
      ∙ ap
          (λ (b : Bool).
            if b then validated env none (env.check_after_step none s) else (s, completed none))
          (and_off step.validate_output env.has_controller off)
