-- ===== src/Resilience/Breaker/Evaluation.antt =====
-- `evaluateState` and `completeExecution` of the circuit breaker. `none` is a panic.
use gomind.Base.{ℕ, Bool, ◌&&◌, ◌||◌, Option, none, some, List, [], ◌∷◌, ◌==◌, if◌then◌else◌}
use gomind.Base.Int.{ℤ, pos, negsuc, ltb_ℤ, leb_ℤ, ◌+ℤ◌, i32}
use gomind.Base.Float.{Float64}
use gomind.Base.Panic.{◌>>=◌}
use gomind.Core.Errors.{Error}
use gomind.Resilience.Window
use gomind.Resilience.Window.{get_total, get_error_rate}
use gomind.Resilience.Breaker.Config.{CircuitState, state_closed, state_open, state_half_open}
use gomind.Resilience.Breaker.State.{
  ExecutionToken, CircuitBreaker, recorded_success, recorded_failure, transition_to_unlocked,
}

-- An `int32` counter one up, or one down.
abbrev pub incr : ℤ → ℤ
incr z = i32 (z +ℤ pos 1)

-- tokens.Delete(id)
unfoldable pub delete_token : ℕ → List ExecutionToken → List ExecutionToken
delete_token id [] = []
delete_token id (t ∷ ts) = if t.id == id then delete_token id ts else t ∷ delete_token id ts

-- cb.config.ErrorClassifier(err): calling a nil function panics.
unfoldable pub classify : Option (Option Error → Bool) → Error → Option Bool
classify none e = none
classify (some f) e = some (f (some e))

module _ (F : Float64) where
  open F use {Float, of_int, literal, mul, div, at_most, trunc}

  -- The legacy threshold, or the error rate over enough requests.
  unfoldable pub should_open : CircuitBreaker F → ℕ → Bool
  should_open cb now =
      let c = cb.config in
      (ltb_ℤ (pos 0) c.failure_threshold && leb_ℤ c.failure_threshold cb.failure_count)
      || (ltb_ℤ (pos 0) c.volume_threshold
          && leb_ℤ c.volume_threshold (pos (get_total cb.window now))
          && at_most c.error_threshold (get_error_rate F cb.window now))

  -- time.Duration(float64(d) * 1.5), at most five minutes
  unfoldable pub backed_off : ℤ → ℤ
  backed_off d =
      let longer = trunc (mul (of_int d) (literal 15 10)) in
      if ltb_ℤ (pos 300_000_000_000) longer then pos 300_000_000_000 else longer

  unfoldable pub total_half_open : CircuitBreaker F → ℤ
  total_half_open cb = i32 (cb.half_open_successes +ℤ cb.half_open_failures)

  -- Enough test requests have finished for a decision.
  unfoldable pub test_complete : CircuitBreaker F → Bool
  unfolding total_half_open
  test_complete cb =
      ltb_ℤ (pos 0) cb.config.half_open_requests
      && leb_ℤ cb.config.half_open_requests (total_half_open cb)

  unfoldable pub success_rate : CircuitBreaker F → Float
  unfolding total_half_open
  success_rate cb = div (of_int cb.half_open_successes) (of_int (total_half_open cb))

  unfoldable pub close_after_test : CircuitBreaker F → ℕ → CircuitBreaker F
  unfolding transition_to_unlocked
  close_after_test cb now = record (transition_to_unlocked F cb state_closed now) {
    failure_count = pos 0;
  }

  unfoldable pub reopen_after_test : CircuitBreaker F → ℕ → CircuitBreaker F
  unfolding transition_to_unlocked backed_off
  reopen_after_test cb now = record (transition_to_unlocked F cb state_open now) {
    config = record (cb.config) { sleep_window = backed_off cb.config.sleep_window };
  }

  unfoldable pub evaluate_in : CircuitState → CircuitBreaker F → ℕ → CircuitBreaker F
  unfolding should_open test_complete success_rate close_after_test reopen_after_test
  evaluate_in state_closed cb now =
      if should_open cb now then transition_to_unlocked F cb state_open now else cb
  evaluate_in state_open cb now = cb
  evaluate_in state_half_open cb now =
      if test_complete cb
      then (if at_most cb.config.success_threshold (success_rate cb)
          then close_after_test cb now
          else reopen_after_test cb now)
      else cb

  unfoldable pub evaluate_state : CircuitBreaker F → ℕ → CircuitBreaker F
  unfolding evaluate_in
  evaluate_state cb now = evaluate_in cb.state cb now

  -- A finished test request is no longer in flight.
  unfoldable pub release_token : CircuitBreaker F → ExecutionToken → CircuitBreaker F
  release_token cb token =
      if token.is_half_open
      then record cb {
        half_open_tokens = delete_token token.id cb.half_open_tokens;
        half_open_count = i32 (cb.half_open_count +ℤ negsuc 0);
      }
      else cb

  unfoldable pub count_success : CircuitBreaker F → ExecutionToken → ℕ → Option (CircuitBreaker F)
  count_success cb token now = do
    window ← Window.record_success cb.window now
    some (record cb {
      window = window;
      events = recorded_success ∷ cb.events;
      half_open_successes =
          if token.is_half_open then incr cb.half_open_successes else cb.half_open_successes;
    })

  unfoldable pub count_failure : CircuitBreaker F → ExecutionToken → ℕ → Option (CircuitBreaker F)
  count_failure cb token now = do
    window ← Window.record_failure cb.window now
    some (record cb {
      window = window;
      events = recorded_failure ∷ cb.events;
      failure_count = incr cb.failure_count;
      half_open_failures =
          if token.is_half_open then incr cb.half_open_failures else cb.half_open_failures;
    })

  unfoldable pub record_outcome :
      CircuitBreaker F → ExecutionToken → Option Error → ℕ → Option (CircuitBreaker F)
  unfolding count_success count_failure classify
  record_outcome cb token none now = count_success cb token now
  record_outcome cb token (some e) now = do
    counts ← classify cb.config.error_classifier e
    if counts then count_failure cb token now else some cb

  unfoldable pub complete_execution :
      CircuitBreaker F → ExecutionToken → Option Error → ℕ → Option (CircuitBreaker F)
  unfolding record_outcome release_token evaluate_state
  complete_execution cb token err now = if cb.force_closed || cb.force_open then some cb else do
    counted ← record_outcome (release_token cb token) token err now
    some (evaluate_state counted now)
