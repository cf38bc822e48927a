-- ===== src/Telemetry/Circuit.antt =====
-- The circuit breaker of telemetry/circuit.go, which guards the telemetry backend. Each operation is
-- one step at one reading `now` of the clock. Logging is left out. A nil breaker is `none`.
pub mod Laws
pub mod Recovery
use gomind.Base.{ℕ, Bool, true, false, not, ◌&&◌, Option, none, some, List, [], ◌∷◌, if◌then◌else◌}
use gomind.Base.Int.{ℤ, pos, ltb_ℤ, leb_ℤ, eqb_ℤ, sub_ℕ, ◌+ℤ◌, i64}

-- The strings "closed", "open" and "half-open".
pub data CircuitState : Type 0 where
  state_closed state_open state_half_open : CircuitState

pub record CircuitConfig : Type 0 where
  pub enabled : Bool
  pub max_failures : ℤ
  pub recovery_time : ℤ
  pub half_open_max : ℤ

-- The zero time of `lastFailureTime` is `none`.
pub record TelemetryCircuitBreaker : Type 0 where
  pub config : CircuitConfig
  pub state : CircuitState
  pub failures : ℤ  -- int64
  pub successes : ℤ  -- int64
  pub last_failure_time : Option ℕ

abbrev pub or_default : ℤ → ℤ → ℤ
or_default z d = if eqb_ℤ z (pos 0) then d else z

unfoldable pub new_telemetry_circuit_breaker : CircuitConfig → Option TelemetryCircuitBreaker
new_telemetry_circuit_breaker config =
    if not config.enabled
    then none
    else some (record {
      config = record config {
        max_failures = or_default config.max_failures (pos 10);
        recovery_time = or_default config.recovery_time (pos 30_000_000_000);
        half_open_max = or_default config.half_open_max (pos 5);
      };
      state = state_closed;
      failures = pos 0;
      successes = pos 0;
      last_failure_time = none;
    })

abbrev pub enter_half_open : TelemetryCircuitBreaker → TelemetryCircuitBreaker
enter_half_open cb = record cb { state = state_half_open; successes = pos 0 }

unfoldable pub allow_open : TelemetryCircuitBreaker → Option ℕ → ℕ → TelemetryCircuitBreaker × Bool
allow_open cb none now = (cb, false)
allow_open cb (some last) now =
    if ltb_ℤ cb.config.recovery_time (sub_ℕ now last)
    then (enter_half_open cb, true)
    else (cb, false)

-- The `switch` of `Allow`.
unfoldable pub allow_in :
    CircuitState → TelemetryCircuitBreaker → ℕ → TelemetryCircuitBreaker × Bool
unfolding allow_open
allow_in state_open cb now = allow_open cb cb.last_failure_time now
allow_in state_half_open cb now = (cb, ltb_ℤ cb.successes cb.config.half_open_max)
allow_in state_closed cb now = (cb, true)

unfoldable pub allow : Option TelemetryCircuitBreaker → ℕ → Option TelemetryCircuitBreaker × Bool
unfolding allow_in
allow none now = (none, true)
allow (some cb) now = let (cb', allowed) = allow_in cb.state cb now in (some cb', allowed)

abbrev pub incr : ℤ → ℤ
incr z = i64 (z +ℤ pos 1)

abbrev pub close : TelemetryCircuitBreaker → TelemetryCircuitBreaker
close cb = record cb { state = state_closed; failures = pos 0 }

-- The `switch` of `RecordSuccess`, after the count.
unfoldable pub success_in : CircuitState → TelemetryCircuitBreaker → TelemetryCircuitBreaker
success_in state_half_open cb = if leb_ℤ cb.config.half_open_max cb.successes then close cb else cb
success_in state_closed cb = record cb { failures = pos 0 }
success_in state_open cb = cb

unfoldable pub record_success : TelemetryCircuitBreaker → TelemetryCircuitBreaker
unfolding success_in
record_success cb = success_in cb.state (record cb { successes = incr cb.successes })

abbrev pub open_unless_open : CircuitState → TelemetryCircuitBreaker → TelemetryCircuitBreaker
open_unless_open state_open cb = cb
open_unless_open _ cb = record cb { state = state_open; successes = pos 0 }

unfoldable pub record_failure : TelemetryCircuitBreaker → ℕ → TelemetryCircuitBreaker
record_failure cb now =
    let failed = record cb { failures = incr cb.failures; last_failure_time = some now } in
    if leb_ℤ cb.config.max_failures failed.failures
    then open_unless_open cb.state failed
    else failed

unfoldable pub reset : TelemetryCircuitBreaker → TelemetryCircuitBreaker
reset cb = record cb {
  state = state_closed;
  failures = pos 0;
  successes = pos 0;
  last_failure_time = none;
}

-- On a nil breaker the three operations do nothing.
unfoldable pub on_breaker :
    (TelemetryCircuitBreaker → TelemetryCircuitBreaker)
    → Option TelemetryCircuitBreaker
    → Option TelemetryCircuitBreaker
on_breaker f none = none
on_breaker f (some cb) = some (f cb)

-- The clients' calls, in the order in which they take effect.
pub data Call : Type 0 where
  allows succeeds fails resets : Call

unfoldable pub step : Option TelemetryCircuitBreaker → ℕ × Call → Option TelemetryCircuitBreaker
unfolding allow on_breaker record_success record_failure reset
step cb (now, allows) = (allow cb now).0
step cb (now, succeeds) = on_breaker record_success cb
step cb (now, fails) = on_breaker (λ b. record_failure b now) cb
step cb (now, resets) = on_breaker reset cb

unfoldable pub run :
    Option TelemetryCircuitBreaker → List (ℕ × Call) → Option TelemetryCircuitBreaker
unfolding step
run cb [] = cb
run cb (c ∷ cs) = run (step cb c) cs
