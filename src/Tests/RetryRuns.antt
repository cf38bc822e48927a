-- ===== src/Tests/RetryRuns.antt =====
-- The retry loop at concrete inputs.
use gomind.Base.{ℕ, suc, ◌≡◌, refl, false, none, some, [], ◌∷◌, ltb, if◌then◌else◌, arith}
use gomind.Base.Int.{pos}
use gomind.Base.Panic.{Returns}
use gomind.Core.Errors.{plain}
use gomind.Resilience.Breaker.Config.{state_open}
use gomind.Resilience.Breaker.State.{CircuitBreaker, create, transition_to_unlocked}
use gomind.Resilience.Breaker.Execution.{has_slept}
use gomind.Resilience.Retry.{Environment, succeeded, RetryConfig, run}
use gomind.Resilience.Retry.Attempts.{logged, IsExplained, run-IsExplained}
use gomind.Resilience.Retry.Delays.{timed, WaitedAtMost, run-WaitedAtMost}
use gomind.Resilience.Retry.Guarded.{watched, watch, EndsUntouched, run-EndsUntouched}
use gomind.Resilience.Retry.{guarded}
use gomind.Tests.Samples.{fractions, sample_config}

-- The state counts the calls: the first two fail.
abbrev third_time_lucky : Environment ℕ
third_time_lucky = record {
  context_error = λ s. none;
  call = λ s. some (suc s, if ltb s 2 then some (plain "down") else none);
  sleep = λ delay s. (s, none);
}

abbrev doubling : RetryConfig fractions
doubling = record {
  max_attempts = pos 5;
  initial_delay = pos 100;
  max_delay = pos 150;
  backoff_factor = (2, 1);
  jitter_enabled = false;
}

abbrev no_sine : ℕ × ℕ → ℕ × ℕ
no_sine x = x

two_failures :
    run fractions no_sine (logged third_time_lucky) doubling (0, [])
    ≡ some ((3, none ∷ some (plain "down") ∷ some (plain "down") ∷ []), succeeded)
unfolding run logged
two_failures = refl

two_waits :
    run fractions no_sine (timed third_time_lucky) doubling (0, [])
    ≡ some ((3, pos 150 ∷ pos 100 ∷ []), succeeded)
unfolding run timed
two_waits = refl

run-IsExplained_example :
    Returns (IsExplained 5) (run fractions no_sine (logged third_time_lucky) doubling (0, []))
run-IsExplained_example = run-IsExplained fractions no_sine third_time_lucky doubling 0 (λ s. tt)

run-WaitedAtMost_example :
    Returns
      (WaitedAtMost fractions no_sine third_time_lucky (pos 150))
      (run fractions no_sine (timed third_time_lucky) doubling (0, []))
run-WaitedAtMost_example =
    run-WaitedAtMost fractions no_sine third_time_lucky (pos 150) doubling 0 (λ s. tt) refl
      (omega arith) (omega arith)

-- A breaker that opened at 1000, asked at 1005: it sleeps for 30.
abbrev just_opened : CircuitBreaker fractions
unfolding create transition_to_unlocked
just_opened = transition_to_unlocked fractions (create fractions sample_config 0) state_open 1000

run-EndsUntouched_example :
    Returns (EndsUntouched fractions no_sine third_time_lucky (λ s. 1005) just_opened (pos 5)) (
      run fractions no_sine
        (guarded fractions no_sine
          (watched third_time_lucky)
          (watch fractions no_sine third_time_lucky (λ s. 1005) just_opened))
        doubling
        (just_opened, (0, [], [])))
unfolding just_opened has_slept
run-EndsUntouched_example =
    run-EndsUntouched fractions no_sine third_time_lucky (λ s. 1005) just_opened doubling 0 refl
      (λ s. refl)
