-- ===== src/Tests/TelemetryRuns.antt =====
-- The telemetry module at concrete inputs.
use gomind.Base.{arith, ◌≡◌, refl, true, false, none, some, [], ◌∷◌}
use gomind.Base.Int.{pos, i64, ◌+ℤ◌}
use gomind.Telemetry.Circuit.{
  CircuitConfig, TelemetryCircuitBreaker, state_closed, state_open, allow, allows, fails, succeeds,
  run,
}
use gomind.Telemetry.Circuit.Recovery.{record_failures, telemetry_failures-open}

abbrev two_strikes : CircuitConfig
two_strikes = record {
  enabled = true;
  max_failures = pos 2;
  recovery_time = pos 50;
  half_open_max = pos 1;
}

abbrev fresh_breaker : TelemetryCircuitBreaker
fresh_breaker = record {
  config = two_strikes;
  state = state_closed;
  failures = pos 0;
  successes = pos 0;
  last_failure_time = none;
}

-- Two failures open it; it rejects at 60 ns, tests at 71 ns, and one success closes it.
trips_and_recovers :
    ((allow (run (some fresh_breaker) ((10, fails) ∷ (20, fails) ∷ [])) 60).1 ≡ false)
    × (run (some fresh_breaker) ((10, fails) ∷ (20, fails) ∷ (71, allows) ∷ (72, succeeds) ∷ [])
        ≡ some (record fresh_breaker { successes = pos 1; last_failure_time = some 20 }))
unfolding run allow i64 ◌+ℤ◌
trips_and_recovers = (refl, refl)

telemetry_failures-open_example :
    (record_failures fresh_breaker (10 ∷ 20 ∷ 30 ∷ [])).state ≡ state_open
telemetry_failures-open_example =
    telemetry_failures-open 1 fresh_breaker (10 ∷ 20 ∷ 30 ∷ []) (omega arith) (omega arith) refl
      refl refl
