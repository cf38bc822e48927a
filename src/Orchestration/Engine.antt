-- ===== src/Orchestration/Engine.antt =====
-- The waits and the steps of the workflow engine of orchestration/workflow_engine.go. The services,
-- their discovery, the controller of human approvals and the timers are the environment's: a state
-- that they read and change.
pub mod Backoff
pub mod Steps
pub mod Workflow
pub mod Run
use gomind.Base.{
  ℕ, zero, suc, ◌+◌, ◌/◌, ◌^◌, Bool, true, false, ◌&&◌, Option, none, some, List, [], ◌∷◌, String,
  not, if◌then◌else◌, ltb,
}
use gomind.Base.Int.{ℤ, pos, negsuc, pos_part, ltb_ℤ, ◌+ℤ◌, ◌*ℤ◌, i64}
use gomind.Core.Errors.{Error, plain, wrapped}
use text.Mathlib.Text.{◌==◌}

-- `other` is `fixed` and any other text.
pub data BackoffType : Type 0 where
  exponential linear other : BackoffType

pub record RetryConfig : Type 0 where
  pub max_attempts : ℤ
  pub backoff : BackoffType
  pub initial_wait : ℤ
  pub max_wait : ℤ

-- The shift of the exponential backoff, between 0 and 30.
unfoldable pub clamped_shift : ℤ → ℕ
unfolding ◌+ℤ◌
clamped_shift attempt =
    let shift = attempt +ℤ negsuc 0 in if ltb_ℤ (pos 30) shift then 30 else pos_part shift

-- `if wait > retry.MaxWait`
unfoldable pub at_most_wait : ℤ → ℤ → ℤ
at_most_wait max_wait wait = if ltb_ℤ max_wait wait then max_wait else wait

unfoldable pub exponential_wait : ℤ → ℤ → ℕ → ℤ
unfolding at_most_wait
exponential_wait initial_wait max_wait multiplier =
    if ltb_ℤ (pos 0) initial_wait
      && ltb (9_223_372_036_854_775_807 / pos_part initial_wait) multiplier
    then max_wait
    else at_most_wait max_wait (i64 (initial_wait *ℤ pos multiplier))

unfoldable pub wait_of : BackoffType → ℤ → ℤ → ℤ → ℤ
unfolding exponential_wait clamped_shift
wait_of exponential initial_wait max_wait attempt =
    exponential_wait initial_wait max_wait (2 ^ clamped_shift attempt)
wait_of linear initial_wait max_wait attempt = at_most_wait max_wait (i64 (initial_wait *ℤ attempt))
wait_of other initial_wait max_wait attempt = initial_wait

unfoldable pub calculate_backoff : Option RetryConfig → ℤ → ℤ
unfolding wait_of
calculate_backoff none attempt = pos 2_000_000_000
calculate_backoff (some retry) attempt =
    wait_of retry.backoff retry.initial_wait retry.max_wait attempt

pub record Service : Type 0 where
  pub name : String
  pub is_healthy : Bool

abbrev first_of : List Service → Option Service
first_of [] = none
first_of (s ∷ rest) = some s

unfoldable pub first_healthy : List Service → Option Service
first_healthy [] = none
first_healthy (s ∷ rest) = if s.is_healthy then some s else first_healthy rest

abbrev or_else : Option Service → Option Service → Option Service
or_else none t = t
or_else (some s) t = some s

unfoldable pub select_best_service : List Service → Option Service
unfolding first_healthy
select_best_service services = or_else (first_healthy services) (first_of services)

-- What the controller of human approvals answers.
pub data Check : Type 0 where
  clear : Check
  stopped_at : String → Check
  check_failed : Error → Check

-- Of a step's definition, what its execution reads. An empty text names nothing.
pub record StepDefinition : Type 0 where
  pub agent : String
  pub capability : String
  pub retry : Option RetryConfig
  pub require_approval : Bool
  pub validate_output : Bool

pub record Environment (S Output : Type 0) : Type 0 where
  pub has_controller : Bool
  pub check_before_step : S → S × Check
  pub check_on_error : Error → ℤ → S → S × Check
  pub check_after_step : Option Output → S → S × Check
  -- None where the discovery gives an error.
  pub find_service : String → S → Option (List Service)
  pub find_by_capability : String → S → Option (List Service)
  pub call_service : Service → S → S × Option Output × Option Error
  -- A timer, or the end of the step's context: its error, or none.
  pub sleep : ℤ → S → S × Option Error

-- How the loop of calls ends: `err` is nil after `answered`, and where no call was made.
pub data CallsEnd (Output : Type 0) : Type 0 where
  answered : Option Output → CallsEnd Output
  failed interrupted : Error → CallsEnd Output

pub data TaskResult (Output : Type 0) : Type 0 where
  completed : Option Output → TaskResult Output
  task_error : Error → TaskResult Output

-- The attempts of a step: `maxAttempts`.
unfoldable pub attempts_of : Option RetryConfig → ℤ
attempts_of none = pos 1
attempts_of (some retry) = retry.max_attempts

module _ {S Output : Type 0} (env : Environment S Output) where
  open env use {
    has_controller, check_before_step, check_on_error, check_after_step, find_service,
    find_by_capability, call_service, sleep,
  }

  abbrev found : Option (List Service) → Option Service
  unfolding select_best_service
  found none = none
  found (some services) = select_best_service services

  unfoldable pub discover : StepDefinition → S → Option Service
  unfolding select_best_service
  discover step s =
      if not (step.agent == "")
      then found (find_service step.agent s)
      else if not (step.capability == "")
      then found (find_by_capability step.capability s)
      else none

  unfoldable pub calls_from : Service → Option RetryConfig → ℕ → ℕ → S → S × ℕ × CallsEnd Output
  unfolding calculate_backoff
  calls_from service retry zero attempt s =
      let (called, output, err) = call_service service s in
      elim err [ none ↦ (called, attempt, answered output) | some e ↦ (called, attempt, failed e) ]
  calls_from service retry (suc rounds) attempt s =
      let (called, output, err) = call_service service s in
      elim err [
        | none ↦ (called, attempt, answered output)
        | some e ↦
            let (rested, stopped) = sleep (calculate_backoff retry (pos attempt)) called in
            elim stopped [
              | none ↦ calls_from service retry rounds (suc attempt) rested
              | some e' ↦ (rested, attempt, interrupted e')
            ]
      ]

  -- No call is made where there are no attempts: the output and the error stay nil.
  unfoldable pub calls_up_to : ℤ → Service → Option RetryConfig → S → S × ℕ × CallsEnd Output
  unfolding calls_from
  calls_up_to (pos zero) service retry s = (s, 0, answered none)
  calls_up_to (pos (suc rounds)) service retry s = calls_from service retry rounds 1 s
  calls_up_to (negsuc n) service retry s = (s, 0, answered none)

  abbrev pub validated : Option Output → S × Check → S × TaskResult Output
  validated output (s, clear) = (s, completed output)
  validated output (s, stopped_at id) = (s, task_error (plain "HITL: awaiting output validation"))
  validated output (s, check_failed e) = (s, completed output)

  -- The validation of the output after the step.
  unfoldable pub after_step : StepDefinition → Option Output → S → S × TaskResult Output
  after_step step output s =
      if step.validate_output && has_controller
      then validated output (check_after_step output s)
      else (s, completed output)

  abbrev pub escalated : Error → S × Check → S × TaskResult Output
  escalated e (s, clear) = (s, task_error e)
  escalated e (s, stopped_at id) = (s, task_error (plain "HITL: error escalated"))
  escalated e (s, check_failed e') = (s, task_error e)

  -- The escalation of an error.
  unfoldable pub after_error : Error → ℕ → S → S × TaskResult Output
  after_error e attempts s =
      if has_controller then escalated e (check_on_error e (pos attempts) s) else (s, task_error e)

  unfoldable pub finish_step : StepDefinition → S × ℕ × CallsEnd Output → S × TaskResult Output
  unfolding after_step after_error
  finish_step step (s, attempts, answered output) = after_step step output s
  finish_step step (s, attempts, failed e) = after_error e attempts s
  finish_step step (s, attempts, interrupted e) = (s, task_error e)

  unfoldable pub call_step : StepDefinition → Option Service → S → S × TaskResult Output
  unfolding calls_up_to finish_step attempts_of
  call_step step none s = (s, task_error (plain "no service found"))
  call_step step (some service) s =
      finish_step step (calls_up_to (attempts_of step.retry) service step.retry s)

  -- What follows the check for approval before the step.
  unfoldable pub approved : StepDefinition → S × Check → S × TaskResult Output
  unfolding call_step discover
  approved step (s, clear) = call_step step (discover step s) s
  approved step (s, stopped_at id) = (s, task_error (plain "HITL: awaiting approval"))
  approved step (s, check_failed e) = (s, task_error (wrapped "HITL pre-step check failed" e))

  -- `executeStep`, after the inputs are resolved.
  unfoldable pub execute_step : StepDefinition → S → S × TaskResult Output
  unfolding approved
  execute_step step s =
      if step.require_approval && has_controller
      then approved step (check_before_step s)
      else approved step (s, clear)
