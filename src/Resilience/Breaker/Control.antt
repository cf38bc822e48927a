-- ===== src/Resilience/Breaker/Control.antt =====
-- The manual controls of the circuit breaker, its metrics, the cleanup of orphaned requests, and
-- the older interface: `CanExecute`, `RecordSuccess`, `RecordFailure`.
use gomind.Base.{
  ℕ, suc, ◌+◌, String, Bool, true, false, ◌&&◌, not, Option, none, some, List, [], ◌∷◌,
  if◌then◌else◌,
}
use gomind.Base.Int.{ℤ, pos, sub_ℕ, ltb_ℤ, u64}
use gomind.Base.Float.{Float64}
use gomind.Base.Panic.{◌>>=◌}
use gomind.Core.Errors.{plain}
use gomind.Resilience.Window
use gomind.Resilience.Window.{new_sliding_window, get_counts, get_error_rate, Counts}
use gomind.Resilience.Breaker.Config.{
  CircuitState, state_closed, state_open, state_half_open, Config, Result, ok, err,
  default_error_classifier,
}
use gomind.Resilience.Breaker.State.{
  ExecutionToken, CircuitBreaker, same_state, transition_to_unlocked, get_state,
  new_circuit_breaker,
}
use gomind.Resilience.Breaker.Evaluation.{incr, delete_token, evaluate_state, complete_execution}
use gomind.Resilience.Breaker.Execution.{has_slept}

module _ (F : Float64) where
  open F use {Float, literal}

  -- Reset. It does not go through `transitionToUnlocked`, and leaves `halfOpenTotal` alone.
  unfoldable pub reset : CircuitBreaker F → ℕ → CircuitBreaker F
  reset cb now = record cb {
    state = state_closed;
    state_changed_at = now;
    failure_count = pos 0;
    half_open_count = pos 0;
    half_open_successes = pos 0;
    half_open_failures = pos 0;
    window = new_sliding_window cb.config.window_size cb.config.bucket_count true now;
    half_open_tokens = [];
  }

  unfoldable pub force_open : CircuitBreaker F → ℕ → CircuitBreaker F
  unfolding transition_to_unlocked
  force_open cb now =
      let forced = record cb { force_open = true; force_closed = false } in
      if not (same_state forced.state state_open)
      then transition_to_unlocked F forced state_open now
      else forced

  unfoldable pub force_closed : CircuitBreaker F → ℕ → CircuitBreaker F
  unfolding transition_to_unlocked
  force_closed cb now =
      let forced = record cb { force_closed = true; force_open = false } in
      if not (same_state forced.state state_closed)
      then transition_to_unlocked F forced state_closed now
      else forced

  unfoldable pub clear_force : CircuitBreaker F → CircuitBreaker F
  clear_force cb = record cb { force_open = false; force_closed = false }

  -- now.Sub(token.startTime) > maxAge
  abbrev pub is_orphaned : ℤ → ℕ → ExecutionToken → Bool
  is_orphaned max_age now token = ltb_ℤ max_age (sub_ℕ now token.start_time)

  unfoldable pub clean_token : CircuitBreaker F → ExecutionToken → ℕ → Option (CircuitBreaker F)
  unfolding complete_execution
  clean_token cb token now =
      complete_execution F
        (record cb { half_open_tokens = delete_token token.id cb.half_open_tokens }) token
        (some (plain "request orphaned")) now

  -- The `Range` over the tokens, with the number of those cleaned up so far.
  unfoldable pub clean_tokens :
      ℤ → ℕ → CircuitBreaker F → ℕ → List ExecutionToken → Option (CircuitBreaker F × ℕ)
  unfolding clean_token
  clean_tokens max_age now cb cleaned [] = some (cb, cleaned)
  clean_tokens max_age now cb cleaned (token ∷ tokens) = elim (is_orphaned max_age now token) [
    | true ↦ do next ← clean_token cb token now; clean_tokens max_age now next (cleaned + 1) tokens
    | false ↦ clean_tokens max_age now cb cleaned tokens
  ]

  unfoldable pub cleanup_orphaned_requests :
      CircuitBreaker F → ℤ → ℕ → Option (CircuitBreaker F × ℕ)
  unfolding clean_tokens
  cleanup_orphaned_requests cb max_age now = clean_tokens max_age now cb 0 cb.half_open_tokens

  -- The tests of `CanExecute`, by state.
  unfoldable pub can_execute_in : CircuitState → CircuitBreaker F → ℕ → CircuitBreaker F × Bool
  unfolding has_slept transition_to_unlocked
  can_execute_in state_closed cb now = (cb, true)
  can_execute_in state_open cb now =
      if has_slept F cb now
      then (transition_to_unlocked F cb state_half_open now, true)
      else (cb, false)
  can_execute_in state_half_open cb now = (
    cb,
    ltb_ℤ (pos 0) cb.config.half_open_requests
        && ltb_ℤ cb.half_open_total cb.config.half_open_requests,
  )

  unfoldable pub can_execute : CircuitBreaker F → ℕ → CircuitBreaker F × Bool
  unfolding can_execute_in
  can_execute cb now = can_execute_in cb.state cb now

  unfoldable pub record_success : CircuitBreaker F → ℕ → Option (CircuitBreaker F)
  unfolding evaluate_state
  record_success cb now = do
    window ← Window.record_success cb.window now
    some (evaluate_state F (record cb { window = window }) now)

  unfoldable pub record_failure : CircuitBreaker F → ℕ → Option (CircuitBreaker F)
  unfolding evaluate_state
  record_failure cb now = do
    window ← Window.record_failure cb.window now
    some (
        evaluate_state F (record cb { window = window; failure_count = incr cb.failure_count }) now)

  -- The configuration of `NewCircuitBreakerLegacy`.
  unfoldable pub legacy_config : ℤ → ℤ → Config F
  legacy_config failure_threshold recovery_timeout = record {
    name = "legacy";
    failure_threshold = failure_threshold;
    recovery_timeout = recovery_timeout;
    sleep_window = recovery_timeout;
    error_threshold = literal 5 10;
    volume_threshold = pos 1;
    half_open_requests = pos 1;
    success_threshold = literal 5 10;
    window_size = pos 60_000_000_000;
    bucket_count = pos 10;
    error_classifier = some default_error_classifier;
  }

  abbrev discard_error {ℓ κ} : {E : Type ℓ} {A : Type κ} → Result E A → Option A
  discard_error (ok a) = some a
  discard_error (err e) = none

  -- `none` is the nil breaker that comes with an error.
  unfoldable pub new_circuit_breaker_legacy : ℤ → ℤ → ℕ → Option (CircuitBreaker F)
  unfolding new_circuit_breaker legacy_config
  new_circuit_breaker_legacy failure_threshold recovery_timeout now =
      discard_error
        (new_circuit_breaker F (some (legacy_config failure_threshold recovery_timeout)) now)

  -- The entries of `GetMetrics` that are there in the half-open state only.
  pub record HalfOpenMetrics : Type 0 where
    pub half_open_count : ℤ
    pub half_open_successes : ℤ
    pub half_open_failures : ℤ
    pub orphaned_requests : ℕ

  pub record Metrics : Type 0 where
    pub name : String
    pub state : String
    pub generation : ℕ
    pub success : ℕ
    pub failure : ℕ
    pub total : ℕ
    pub error_rate : Float
    pub force_open : Bool
    pub force_closed : Bool
    pub executions_in_flight : ℤ
    pub total_executions : ℕ
    pub rejected_executions : ℕ
    pub half_open : Option HalfOpenMetrics

  unfoldable pub count_orphans : ℕ → List ExecutionToken → ℕ
  count_orphans now [] = 0
  count_orphans now (t ∷ ts) =
      let rest = count_orphans now ts in
      if is_orphaned (pos 30_000_000_000) now t then suc rest else rest

  abbrev half_open_metrics : CircuitBreaker F → ℕ → HalfOpenMetrics
  half_open_metrics cb now = record {
    half_open_count = cb.half_open_count;
    half_open_successes = cb.half_open_successes;
    half_open_failures = cb.half_open_failures;
    orphaned_requests = count_orphans now cb.half_open_tokens;
  }

  unfoldable pub get_metrics : CircuitBreaker F → ℕ → Metrics
  unfolding get_state get_counts get_error_rate count_orphans
  get_metrics cb now =
      let c = get_counts cb.window now in
      record {
        name = cb.config.name;
        state = get_state F cb;
        generation = cb.generation;
        success = c.successes;
        failure = c.failures;
        total = u64 (c.successes + c.failures);
        error_rate = get_error_rate F cb.window now;
        force_open = cb.force_open;
        force_closed = cb.force_closed;
        executions_in_flight = cb.executions_in_flight;
        total_executions = cb.total_executions;
        rejected_executions = cb.rejected_executions;
        half_open =
            if same_state cb.state state_half_open then some (half_open_metrics cb now) else none;
      }
