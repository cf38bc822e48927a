-- ===== src/Resilience/Retry.antt =====
-- The retry loop of resilience/retry.go. The function that is retried, the context and the timer are
-- the environment's: a state that they read and change. `none` is a panic of the function.
pub mod Rule
pub mod Attempts
pub mod Delays
pub mod Guarded
use gomind.Base.{
  ℕ, zero, suc, ◌+◌, Bool, true, false, Option, none, some, String, if◌then◌else◌, leb, ◌==◌, ltb,
}
use gomind.Base.Int.{ℤ, pos, negsuc, ltb_ℤ, leb_ℤ, ◌+ℤ◌}
use gomind.Base.Float.{Float64}
use gomind.Base.Panic.{◌>>=◌}
use gomind.Core.Errors.{Error, sentinel, wrapped, max_retries_exceeded, circuit_breaker_open}
use gomind.Resilience.Breaker.State.{CircuitBreaker}
use gomind.Resilience.Breaker.Control.{can_execute, record_success, record_failure}

pub record Environment (S : Type 0) : Type 0 where
  -- ctx.Err(), where the context is done
  pub context_error : S → Option Error
  pub call : S → Option (S × Option Error)
  -- A timer of this length or the context, whichever is first: the context's error, or none.
  pub sleep : ℤ → S → S × Option Error

-- How the loop ends.
pub data Ending : Type 0 where
  succeeded : Ending
  cancelled : Error → Ending
  exhausted : Option Error → Ending

-- The text of the last error is part of the message; the error itself is not wrapped.
unfoldable pub error_of : Ending → Option Error
error_of succeeded = none
error_of (cancelled e) = some e
error_of (exhausted last_err) =
    some (wrapped "max retry attempts exceeded" (sentinel max_retries_exceeded))

module _ (F : Float64) where
  open F use {Float, of_int, literal, mul, trunc}

  pub record RetryConfig : Type 0 where
    pub max_attempts : ℤ
    pub initial_delay : ℤ
    pub max_delay : ℤ
    pub backoff_factor : Float
    pub jitter_enabled : Bool

  unfoldable pub default_retry_config : RetryConfig
  default_retry_config = record {
    max_attempts = pos 3;
    initial_delay = pos 100_000_000;
    max_delay = pos 5_000_000_000;
    backoff_factor = literal 20 10;
    jitter_enabled = true;
  }

  unfoldable pub new_retry_executor : Option RetryConfig → RetryConfig
  unfolding default_retry_config
  new_retry_executor none = default_retry_config
  new_retry_executor (some config) = config

  -- `if delay > r.config.MaxDelay`
  unfoldable pub capped : ℤ → ℤ → ℤ
  capped max_delay delay = if ltb_ℤ max_delay delay then max_delay else delay

  -- The delay before the next attempt, without its jitter.
  unfoldable pub backed_off : RetryConfig → ℕ → ℤ → ℤ
  unfolding capped
  backed_off c attempt delay =
      if ltb 1 attempt
      then capped c.max_delay (trunc (mul (of_int delay) c.backoff_factor))
      else delay

  module _ (sin : Float → Float) where
    unfoldable pub next_delay : RetryConfig → ℕ → ℤ → ℤ
    unfolding backed_off
    next_delay c attempt delay =
        let backoff = backed_off c attempt delay in
        if c.jitter_enabled
        then backoff
          +ℤ trunc (mul (mul (of_int backoff) (literal 1 10)) (sin (of_int (pos attempt))))
        else backoff

    module _ {S : Type 0} (env : Environment S) where
      open env use {context_error, call, sleep}

      -- One attempt; `failed` is what follows an error of the function.
      unfoldable pub attempt_once : S → (S → Error → Option (S × Ending)) → Option (S × Ending)
      attempt_once s failed = elim (context_error s) [
        | some e ↦ some (s, cancelled e)
        | none ↦ do
          (tried, outcome) ← call s
          elim outcome [ none ↦ some (tried, succeeded) | some err ↦ failed tried err ]
      ]

      -- The wait before the next attempt; `again` is what follows it.
      unfoldable pub wait_then : ℤ → S → (S → Option (S × Ending)) → Option (S × Ending)
      wait_then delay s again =
          let (rested, stopped) = sleep delay s in
          elim stopped [ none ↦ again rested | some e ↦ some (rested, cancelled e) ]

      -- The loop from one attempt on; the first number is how many may follow it.
      unfoldable pub attempts_from : RetryConfig → ℕ → ℕ → ℤ → S → Option (S × Ending)
      unfolding attempt_once wait_then next_delay
      attempts_from c zero attempt delay s =
          attempt_once s (λ tried err. some (tried, exhausted (some err)))
      attempts_from c (suc rounds) attempt delay s = attempt_once s (λ tried err.
          let waited = next_delay c attempt delay in
          wait_then waited tried (attempts_from c rounds (suc attempt) waited))

      -- With no attempts to make, the loop ends at once.
      unfoldable pub attempts_up_to : ℤ → RetryConfig → S → Option (S × Ending)
      unfolding attempts_from
      attempts_up_to (pos zero) c s = some (s, exhausted none)
      attempts_up_to (pos (suc rounds)) c s = attempts_from c rounds 1 c.initial_delay s
      attempts_up_to (negsuc n) c s = some (s, exhausted none)

      unfoldable pub run : RetryConfig → S → Option (S × Ending)
      unfolding attempts_up_to
      run c s = attempts_up_to c.max_attempts c s

      -- `Execute`: the state that is left, and the error that is returned.
      unfoldable pub execute : RetryConfig → S → Option (S × Option Error)
      unfolding run error_of
      execute c s = do (left, ending) ← run c s; some (left, error_of ending)

    -- The function that `RetryWithCircuitBreaker` retries, over the breaker and the rest of the
    -- state; `clock` reads the time.
    unfoldable pub guarded_call :
        {S : Type 0}
        → Environment S
        → (S → ℕ)
        → CircuitBreaker F × S
        → Option ((CircuitBreaker F × S) × Option Error)
    unfolding can_execute record_success record_failure
    guarded_call env clock (cb, s) =
        let (asked, allowed) = can_execute F cb (clock s) in
        if allowed
        then (do
          (tried, outcome) ← env.call s
          elim outcome [
            | none ↦ do
              counted ← record_success F asked (clock tried)
              some ((counted, tried), none)
            | some err ↦ do
              counted ← record_failure F asked (clock tried)
              some ((counted, tried), some err)
          ])
        else some ((asked, s), some (sentinel circuit_breaker_open))

    unfoldable pub guarded :
        {S : Type 0} → Environment S → (S → ℕ) → Environment (CircuitBreaker F × S)
    unfolding guarded_call
    guarded env clock = record {
      context_error = λ (_, s). env.context_error s;
      call = guarded_call env clock;
      sleep = λ delay (cb, s). let (rested, stopped) = env.sleep delay s in ((cb, rested), stopped);
    }

    unfoldable pub retry_with_circuit_breaker :
        {S : Type 0}
        → Environment S
        → (S → ℕ)
        → Option RetryConfig
        → CircuitBreaker F × S
        → Option ((CircuitBreaker F × S) × Option Error)
    unfolding guarded execute new_retry_executor
    retry_with_circuit_breaker env clock config s =
        execute (guarded env clock) (new_retry_executor config) s
