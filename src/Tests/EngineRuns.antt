-- ===== src/Tests/EngineRuns.antt =====
-- The steps of the workflow engine at concrete inputs.
use gomind.Base.{
  ◌^◌, ◌*◌, ℕ, suc, ◌≡◌, refl, true, false, none, some, [], ◌∷◌, ltb, if◌then◌else◌, arith,
}
use gomind.Base.Int.{pos, negsuc, i64, ◌*ℤ◌}
use gomind.Core.Errors.{plain}
use gomind.Orchestration.Engine.{
  discover, attempts_of, RetryConfig, exponential, linear, at_most_wait, calculate_backoff, Service,
  StepDefinition, Environment, clear, completed, execute_step,
}
use gomind.Orchestration.Engine.Backoff.{calculate_backoff-exponential}
use gomind.Orchestration.Engine.Steps.{WasDone, execute_step-WasDone, uncalled_step_completes}

abbrev doubling : RetryConfig
doubling = record {
  max_attempts = pos 3;
  backoff = exponential;
  initial_wait = pos 100;
  max_wait = pos 1_000;
}

wait_two : calculate_backoff (some doubling) (pos 2) ≡ pos 200
unfolding calculate_backoff i64 ◌*ℤ◌
wait_two = refl

wait_long : calculate_backoff (some doubling) (pos 60) ≡ pos 1_000
unfolding calculate_backoff i64 ◌*ℤ◌
wait_long = refl

-- 100 * 10 ^ 17 is larger than an int64, and the wait is below zero.
linear_wraps :
    calculate_backoff (some (record doubling { backoff = linear })) (pos 100_000_000_000_000_000)
    ≡ negsuc 8_446_744_073_709_551_615
unfolding calculate_backoff i64 ◌*ℤ◌
linear_wraps = refl

calculate_backoff-exponential_example :
    calculate_backoff (some doubling) (pos (suc 3))
    ≡ at_most_wait (pos 1_000) (pos (100 * 2 ^ (if ltb 30 3 then 30 else 3)))
calculate_backoff-exponential_example =
    calculate_backoff-exponential doubling 100 3 refl refl (omega arith)

abbrev pinger : Service
pinger = record { name = "pinger"; is_healthy = true }

-- The state counts the calls: the first fails.
abbrev second_call_answers : Environment ℕ ℕ
second_call_answers = record {
  has_controller = false;
  check_before_step = λ s. (s, clear);
  check_on_error = λ e n s. (s, clear);
  check_after_step = λ o s. (s, clear);
  find_service = λ name s. some (pinger ∷ []);
  find_by_capability = λ name s. none;
  call_service = λ service s. (suc s, some 7, if ltb s 1 then some (plain "down") else none);
  sleep = λ wait s. (s, none);
}

abbrev ping : StepDefinition
ping = record {
  agent = "pinger";
  capability = "";
  retry = some doubling;
  require_approval = true;
  validate_output = true;
}

ping_twice : execute_step second_call_answers ping 0 ≡ (2, completed (some 7))
unfolding execute_step
ping_twice = refl

execute_step-WasDone_example :
    WasDone second_call_answers (execute_step second_call_answers ping 0).1
unfolding attempts_of
execute_step-WasDone_example = execute_step-WasDone second_call_answers ping 0 (omega arith)

-- The number of attempts is left out.
abbrev unset : RetryConfig
unset = record doubling { max_attempts = pos 0 }

uncalled_step_completes_example :
    execute_step second_call_answers (record ping { retry = some unset }) 0 ≡ (0, completed none)
unfolding attempts_of discover
uncalled_step_completes_example =
    uncalled_step_completes second_call_answers (record ping { retry = some unset }) 0 pinger
      (omega arith) refl refl
