-- ===== src/Tests/BreakerRuns.antt =====
-- The circuit breaker at concrete inputs.
use gomind.Base.{ℕ, ◌+◌, ◌≡◌, refl, true, none, some, List, [], ◌∷◌, ◌++◌, arith}
use gomind.Base.Int.{◌≤ℤ◌, pos, u64, i32, ◌+ℤ◌, ◌-ℤ◌}
use gomind.Base.Panic.{◌>>=◌, Returns}
use gomind.Core.Errors.{Error, sentinel, agent_not_found, invalid_configuration}
use gomind.Resilience.Window
use gomind.Resilience.Window.{new_sliding_window}
use gomind.Resilience.Window.Recording.{new_sliding_window-IsValid}
use gomind.Resilience.Breaker.Config.{
  Config, ok, validate, apply_defaults, default_config, state_closed, state_open, state_half_open,
  default_error_classifier,
}
use gomind.Resilience.Breaker.State.{new_circuit_breaker, CircuitBreaker, ExecutionToken, create}
use gomind.Resilience.Breaker.Evaluation.{classify, delete_token}
use gomind.Resilience.Breaker.Execution.{
  begin_execute, finish_execute, execute_with_timeout, done_first, returned, start_execution,
  has_slept,
}
use gomind.Resilience.Breaker.Control.{can_execute, record_failure}
use gomind.Resilience.Breaker.History.{
  Op, begins, finishes, asks, notes_success, notes_failure, cleans, run, step,
}
use gomind.Resilience.Breaker.Soundness.{IsSound}
use gomind.Resilience.Breaker.Safety.{run-create-IsSound}
use gomind.Resilience.Breaker.Admission.{IsFree, start_open-slept}
use gomind.Resilience.Breaker.Testing.{IsTesting}
use gomind.Resilience.Breaker.Lockout.{uncounted_errors_lock_out}
use gomind.Resilience.Breaker.Legacy.{legacy_never_decides, IsProbing}
use gomind.Resilience.Breaker.Opening.{record_failures, record_failures-open}
use gomind.Resilience.Breaker.Construction.{new_circuit_breaker-keeps, short_window_panics}
use gomind.Tests.Samples.{fractions, sample_config, sample_config-IsUsable}

abbrev new_breaker : CircuitBreaker fractions
new_breaker = create fractions sample_config 0

abbrev failures : List (ℕ × Op)
failures = (1, notes_failure) ∷ (2, notes_failure) ∷ (60, notes_failure) ∷ []

-- Three failures open the breaker, and after the sleep window a request finds it half-open.
opens_and_probes :
    Returns
      (λ (cb : CircuitBreaker fractions).
        (cb.state ≡ state_half_open) × (cb.half_open_total ≡ pos 1))
      (run fractions new_breaker (failures ++ (95, begins) ∷ []))
unfolding run step create new_sliding_window begin_execute record_failure Window.record_failure
    Window.rotate_buckets i32 ◌+ℤ◌ Window.get_total u64 ◌-ℤ◌ Window.clear_next
opens_and_probes = (refl, refl)

run-create-IsSound_example :
    Returns (IsSound fractions) (run fractions new_breaker (failures ++ (95, begins) ∷ []))
run-create-IsSound_example =
    run-create-IsSound fractions sample_config 0 (failures ++ (95, begins) ∷ [])
      sample_config-IsUsable

abbrev ready : CircuitBreaker fractions
ready = record new_breaker {
  state = state_open;
  config = record sample_config { sleep_window = pos 30 };
}

ready-IsFree : IsFree fractions ready
unfolding create
ready-IsFree = record { not_closed = refl; not_open = refl }

start_open-slept_example :
    (cb' : CircuitBreaker fractions) × (token : ExecutionToken) × (start_execution fractions ready
        31
      ≡ (cb', some token))
    × (cb'.state ≡ state_half_open)
    × (cb'.half_open_total ≡ pos 1)
    × (cb'.half_open_tokens ≡ token ∷ [])
    × (token.is_half_open ≡ true)
    × (cb'.generation ≡ u64 (ready.generation + 1))
unfolding create has_slept
start_open-slept_example = start_open-slept fractions ready 31 ready-IsFree refl refl

abbrev probing : CircuitBreaker fractions
probing = record new_breaker { state = state_half_open }

probing-IsFree : IsFree fractions probing
unfolding create
probing-IsFree = record { not_closed = refl; not_open = refl }

abbrev not_found : Error
not_found = sentinel agent_not_found

abbrev bad_config : Error
bad_config = sentinel invalid_configuration

probing-IsTesting : IsTesting fractions (some default_error_classifier) 2 2 probing
unfolding create
probing-IsTesting = record {
  free = probing-IsFree;
  half = refl;
  requests = refl;
  classifies = refl;
  no_success = refl;
  no_failure = refl;
  total = 0;
  admissions = refl;
  within = omega arith;
  enough = omega arith;
}

abbrev test_request : ℕ → ℕ → ExecutionToken
test_request id now = record { id = id; start_time = now; is_half_open = true }

-- Two test requests overlap, and end in different errors; a third request is rejected.
abbrev overlapping : List (ℕ × Op)
overlapping =
    (31, begins)
    ∷ (32, begins)
    ∷ (40, finishes (test_request 2 32) (some not_found))
    ∷ (45, begins)
    ∷ (50, finishes (test_request 1 31) (some bad_config))
    ∷ []

uncounted_errors_lock_out_example :
    Returns
      (λ (cb : CircuitBreaker fractions).
        (cb.state ≡ state_half_open) × ((now : ℕ) → start_execution fractions cb now ≡ (cb, none)))
      (run fractions probing overlapping >>= λ tested.
        run fractions tested ((1000, begins) ∷ (2000, cleans (pos 10)) ∷ []))
unfolding create run step classify default_error_classifier finish_execute begin_execute i32 ◌+ℤ◌
    delete_token u64
uncounted_errors_lock_out_example =
    uncounted_errors_lock_out fractions (some default_error_classifier) 2 2 probing overlapping
      ((1000, begins) ∷ (2000, cleans (pos 10)) ∷ []) (omega arith) (omega arith) probing-IsTesting
      (tt, (tt, (refl, (tt, (refl, tt))))) (omega arith) refl (tt, (tt, tt))

probing-IsProbing : IsProbing fractions probing
unfolding create
probing-IsProbing = record {
  half = refl;
  some_requests = omega arith;
  no_request = refl;
  no_success = refl;
  no_failure = refl;
  counts = new_sliding_window-IsValid 100 1 0 true (omega arith);
}

legacy_never_decides_example :
    Returns
      (λ (cb : CircuitBreaker fractions).
        (cb.state ≡ state_half_open) × ((now : ℕ) → can_execute fractions cb now ≡ (cb, true)))
      (run fractions probing ((1, asks) ∷ (2, notes_success) ∷ (3, asks) ∷ (4, notes_failure) ∷ []))
legacy_never_decides_example =
    legacy_never_decides fractions probing
      ((1, asks) ∷ (2, notes_success) ∷ (3, asks) ∷ (4, notes_failure) ∷ [])
      (tt, (tt, (tt, (tt, tt)))) probing-IsProbing

record_failures-open_example :
    Returns
      (λ (last : CircuitBreaker fractions). last.state ≡ state_open)
      (record_failures fractions new_breaker (5 ∷ 6 ∷ 70 ∷ []))
unfolding create
record_failures-open_example =
    record_failures-open fractions 2 new_breaker (5 ∷ 6 ∷ 70 ∷ []) (omega arith) (omega arith) refl
      (new_sliding_window-IsValid 100 1 0 true (omega arith)) refl refl

new_circuit_breaker-keeps_example :
    let c = default_config fractions in
    let cb = create fractions (apply_defaults fractions c) 9 in
    (cb.state ≡ state_closed)
    × (cb.config.bucket_count ≡ c.bucket_count)
    × (cb.config.half_open_requests ≡ c.half_open_requests)
    × (pos 1 ≤ℤ c.bucket_count)
    × (pos 1 ≤ℤ c.half_open_requests)
new_circuit_breaker-keeps_example =
    new_circuit_breaker-keeps fractions (default_config fractions) 9
      (create fractions (apply_defaults fractions (default_config fractions)) 9)
      (unfold new_circuit_breaker default_config in refl)

-- Two buckets in a window of one nanosecond.
abbrev short_config : Config fractions
short_config = record sample_config { window_size = pos 1 }

short_window_panics_example :
    (cb : CircuitBreaker fractions) × (new_circuit_breaker fractions (some short_config) 0 ≡ ok cb)
    × (execute_with_timeout fractions cb (done_first (returned none)) 5 6 ≡ none)
unfolding validate
short_window_panics_example =
    short_window_panics fractions short_config 0 1 0 5 6 refl refl refl (omega arith) (omega arith)
