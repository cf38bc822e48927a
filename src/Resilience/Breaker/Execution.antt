-- ===== src/Resilience/Breaker/Execution.antt =====
-- `startExecution` and `ExecuteWithTimeout` of the circuit breaker. The protected function runs
-- between the two ends of an execution, while other executions take their steps: each end is a step.
use gomind.Base.{
  ℕ, zero, suc, ◌+◌, String, Bool, true, false, ◌&&◌, Option, none, some, ◌∷◌, if◌then◌else◌,
}
use gomind.Base.Int.{pos, negsuc, sub_ℕ, ltb_ℤ, leb_ℤ, ◌+ℤ◌, i32, u64}
use gomind.Base.Float.{Float64}
use gomind.Base.Panic.{◌>>=◌}
use gomind.Core.Errors.{Error, sentinel, plain, wrapped, circuit_breaker_open}
use gomind.Resilience.Breaker.Config.{CircuitState, state_closed, state_open, state_half_open}
use gomind.Resilience.Breaker.State.{
  ExecutionToken, CircuitBreaker, zero_token, recorded_rejection, transition_to_unlocked,
}
use gomind.Resilience.Breaker.Evaluation.{incr, delete_token, complete_execution}

module _ (F : Float64) where
  -- The test requests of this half-open period are used up.
  unfoldable pub at_capacity : CircuitBreaker F → Bool
  at_capacity cb =
      ltb_ℤ (pos 0) cb.config.half_open_requests
      && leb_ℤ cb.config.half_open_requests cb.half_open_total

  -- timeInOpen > SleepWindow
  unfoldable pub has_slept : CircuitBreaker F → ℕ → Bool
  has_slept cb now = ltb_ℤ cb.config.sleep_window (sub_ℕ now cb.state_changed_at)

  unfoldable pub admit_closed : CircuitBreaker F → ℕ → CircuitBreaker F × Option ExecutionToken
  admit_closed cb now =
      let id = u64 (cb.token_counter + 1) in
      (
        record cb { token_counter = id },
        some (record { id = id; start_time = now; is_half_open = false }),
      )

  unfoldable pub admit_half_open : CircuitBreaker F → ℕ → CircuitBreaker F × Option ExecutionToken
  admit_half_open cb now =
      let id = u64 (cb.token_counter + 1) in
      let token : ExecutionToken = record { id = id; start_time = now; is_half_open = true } in
      (
        record cb {
          half_open_total = incr cb.half_open_total;
          half_open_count = incr cb.half_open_count;
          token_counter = id;
          half_open_tokens = token ∷ delete_token id cb.half_open_tokens;
        },
        some token,
      )

  -- The `switch` of `startExecution`; `again` is what its call of itself gives.
  unfoldable pub start_in :
      CircuitState
      → CircuitBreaker F
      → ℕ
      → CircuitBreaker F × Option ExecutionToken
      → CircuitBreaker F × Option ExecutionToken
  unfolding admit_closed admit_half_open at_capacity has_slept
  start_in state_closed cb now again = admit_closed cb now
  start_in state_open cb now again = if has_slept cb now then again else (cb, none)
  start_in state_half_open cb now again =
      if at_capacity cb then (cb, none) else admit_half_open cb now

  -- `startExecution`, which calls itself after a move to half-open: the first argument bounds the
  -- number of calls.
  unfoldable pub start_execution_calls :
      ℕ → CircuitBreaker F → ℕ → CircuitBreaker F × Option ExecutionToken
  unfolding start_in transition_to_unlocked
  start_execution_calls zero cb now = (cb, none)
  start_execution_calls (suc n) cb now =
      let again = start_execution_calls n (transition_to_unlocked F cb state_half_open now) now in
      if cb.force_closed
      then (cb, some zero_token)
      else if cb.force_open
      then (cb, none)
      else start_in cb.state cb now again

  unfoldable pub start_execution : CircuitBreaker F → ℕ → CircuitBreaker F × Option ExecutionToken
  unfolding start_execution_calls
  start_execution cb now = start_execution_calls 2 cb now

  -- The counters of `ExecuteWithTimeout` after `startExecution`.
  unfoldable pub count_start :
      CircuitBreaker F × Option ExecutionToken → CircuitBreaker F × Option ExecutionToken
  count_start (cb, none) = (
    record cb {
      rejected_executions = u64 (cb.rejected_executions + 1);
      events = recorded_rejection ∷ cb.events;
    },
    none,
  )
  count_start (cb, some token) = (
    record cb {
      executions_in_flight = incr cb.executions_in_flight;
      total_executions = u64 (cb.total_executions + 1);
    },
    some token,
  )

  -- The first part of `ExecuteWithTimeout`: a rejection, or an execution in flight.
  unfoldable pub begin_execute : CircuitBreaker F → ℕ → CircuitBreaker F × Option ExecutionToken
  unfolding start_execution count_start
  begin_execute cb now = count_start (start_execution cb now)

  abbrev pub land : CircuitBreaker F → CircuitBreaker F
  land cb = record cb { executions_in_flight = i32 (cb.executions_in_flight +ℤ negsuc 0) }

  -- The function has returned `err` (or panicked, which gives an error): the deferred decrement
  -- comes last.
  unfoldable pub finish_execute :
      CircuitBreaker F → ExecutionToken → Option Error → ℕ → Option (CircuitBreaker F)
  unfolding complete_execution
  finish_execute cb token err now = do
    completed ← complete_execution F cb token err now
    some (land completed)

  -- The context is done first: the caller returns, and the function stays in flight as an orphan,
  -- whose end is `complete_execution` with the context's error.
  unfoldable pub cancel_execute : CircuitBreaker F → CircuitBreaker F
  cancel_execute cb = land cb

-- How the protected function ends: it returns, or panics with an error, a text or another value.
pub data Outcome : Type 0 where
  returned : Option Error → Outcome
  panicked_error : Error → Outcome
  panicked_text panicked_value : String → Outcome

-- The value that the goroutine sends to `done`.
unfoldable pub sent_error : Outcome → Option Error
sent_error (returned e) = e
sent_error (panicked_error v) = some (wrapped "panic in circuit breaker" v)
sent_error (panicked_text v) = some (plain v)
sent_error (panicked_value v) = some (plain v)

-- What the caller's `select` receives first.
pub data Ending : Type 0 where
  done_first : Outcome → Ending
  context_first : Error → Ending

unfoldable pub rejection : String → Error
rejection name = wrapped name (sentinel circuit_breaker_open)

module _ (F : Float64) where
  abbrev with_error :
      Option Error → Option (CircuitBreaker F) → Option (CircuitBreaker F × Option Error)
  with_error e none = none
  with_error e (some cb) = some (cb, e)

  abbrev end_execute :
      Ending → CircuitBreaker F → ExecutionToken → ℕ → Option (CircuitBreaker F × Option Error)
  end_execute (done_first outcome) cb token ended =
      with_error (sent_error outcome) (finish_execute F cb token (sent_error outcome) ended)
  end_execute (context_first e) cb token ended = some (cancel_execute F cb, some e)

  abbrev after_begin :
      Ending
      → CircuitBreaker F
      → Option ExecutionToken
      → ℕ
      → Option (CircuitBreaker F × Option Error)
  after_begin ending cb none ended = some (cb, some (rejection cb.config.name))
  after_begin ending cb (some token) ended = end_execute ending cb token ended

  -- `ExecuteWithTimeout` with nothing in between: its breaker and the error that it returns.
  unfoldable pub execute_with_timeout :
      CircuitBreaker F → Ending → ℕ → ℕ → Option (CircuitBreaker F × Option Error)
  unfolding begin_execute finish_execute cancel_execute sent_error rejection
  execute_with_timeout cb ending started ended =
      let (begun, allowed) = begin_execute F cb started in after_begin ending begun allowed ended
