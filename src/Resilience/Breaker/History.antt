-- ===== src/Resilience/Breaker/History.antt =====
-- Histories of a circuit breaker: the steps that its clients take, in the order in which they take
-- effect, each with a reading of the clock. Any interleaving of executions is such a sequence.
use gomind.Base.{ℕ, Option, some, List, [], ◌∷◌}
use gomind.Base.Int.{ℤ}
use gomind.Base.Float.{Float64}
use gomind.Base.Panic.{◌>>=◌, Returns, Returns-bind}
use gomind.Core.Errors.{Error}
use gomind.Resilience.Breaker.State.{ExecutionToken, CircuitBreaker, add_state_change_listener}
use gomind.Resilience.Breaker.Evaluation.{complete_execution}
use gomind.Resilience.Breaker.Execution.{begin_execute, finish_execute, cancel_execute}
use gomind.Resilience.Breaker.Control.{
  reset, force_open, force_closed, clear_force, cleanup_orphaned_requests, can_execute,
  record_success, record_failure,
}

pub data Op : Type 0 where
  begins : Op
  finishes : ExecutionToken → Option Error → Op
  cancels : Op
  orphan_ends : ExecutionToken → Error → Op
  cleans : ℤ → Op
  asks notes_success notes_failure : Op
  forces_open forces_closed clears resets : Op
  listens : ℕ → Op

module _ (F : Float64) where
  unfoldable pub step : CircuitBreaker F → ℕ × Op → Option (CircuitBreaker F)
  step cb (now, begins) = some (begin_execute F cb now).0
  step cb (now, finishes token err) = finish_execute F cb token err now
  step cb (now, cancels) = some (cancel_execute F cb)
  step cb (now, orphan_ends token err) = complete_execution F cb token (some err) now
  step cb (now, cleans max_age) = do
    (cleaned, _) ← cleanup_orphaned_requests F cb max_age now
    some cleaned
  step cb (now, asks) = some (can_execute F cb now).0
  step cb (now, notes_success) = record_success F cb now
  step cb (now, notes_failure) = record_failure F cb now
  step cb (now, forces_open) = some (force_open F cb now)
  step cb (now, forces_closed) = some (force_closed F cb now)
  step cb (now, clears) = some (clear_force F cb)
  step cb (now, resets) = some (reset F cb now)
  step cb (now, listens l) = some (add_state_change_listener F cb l)

  unfoldable pub run : CircuitBreaker F → List (ℕ × Op) → Option (CircuitBreaker F)
  run cb [] = some cb
  run cb (c ∷ cs) = do next ← step cb c; run next cs

module _ (F : Float64) (P : CircuitBreaker F → Type 0)
    (keeps : (cb : CircuitBreaker F) (c : ℕ × Op) → P cb → Returns P (step F cb c)) where
  -- What every step keeps, without a panic, holds after every history.
  pub run_induction : (cb : CircuitBreaker F) (cs : List (ℕ × Op)) → P cb → Returns P (run F cb cs)
  unfolding run
  run_induction cb [] h = h
  run_induction cb (c ∷ cs) h =
      Returns-bind P P (step F cb c) (λ next. run F next cs) (keeps cb c h)
        (λ next h'. run_induction next cs h')
