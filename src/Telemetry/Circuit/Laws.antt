-- ===== src/Telemetry/Circuit/Laws.antt =====
-- What holds of the telemetry breaker after every history of calls.
use gomind.Base.{ℕ, ◌≡◌, true, false, Option, none, some, ◌≢◌, if◌then◌else◌}
use gomind.Base.Int.{sub_ℕ, ltb_ℤ}
use gomind.Telemetry.Circuit.{
  state_closed, state_open, TelemetryCircuitBreaker, allow, enter_half_open,
}

-- A breaker that is not closed has a time of its last failure, so that it can recover.
pub record IsSound (cb : TelemetryCircuitBreaker) : Type 0 where
  pub has_failed : cb.state ≢ state_closed → cb.last_failure_time ≢ none

abbrev pub IsSound? : Option TelemetryCircuitBreaker → Type 0
IsSound? none = Unit {0}
IsSound? (some cb) = IsSound cb

-- In the open state: since the last failure, more than the recovery time has passed or not.
abbrev pub Recovers : Option TelemetryCircuitBreaker → Type 0
Recovers none = Unit {0}
Recovers (some cb) =
    cb.state ≡ state_open
    → (last : ℕ) × (cb.last_failure_time ≡ some last)
      × ((now : ℕ)
          → allow (some cb) now ≡ (
              if ltb_ℤ cb.config.recovery_time (sub_ℕ now last)
              then (some (enter_half_open cb), true)
              else (some cb, false)))
