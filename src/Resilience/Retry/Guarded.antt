-- ===== src/Resilience/Retry/Guarded.antt =====
-- `RetryWithCircuitBreaker` while the breaker rejects.
use gomind.Base.{
  ap, ◌∙◌, ℕ, zero, suc, ◌≡◌, refl, Bool, true, false, Option, none, some, List, [], ◌∷◌, length,
  ◌+◌, ◌≤◌, arith, if◌then◌else◌,
}
use gomind.Base.Int.{ℤ, pos, negsuc}
use gomind.Base.Float.{Float64}
use gomind.Base.Panic.{◌>>=◌, Returns}
use gomind.Core.Errors.{Error, sentinel, circuit_breaker_open}
use gomind.Resilience.Retry.{
  Environment, Ending, succeeded, cancelled, exhausted, RetryConfig, next_delay, guarded,
  guarded_call, attempts_up_to, run,
}
use gomind.Resilience.Retry.Rule.{Keeps, AfterCall, AfterWait, attempts_from_rule}
use gomind.Resilience.Breaker.Config.{CircuitState, state_open, state_half_open}
use gomind.Resilience.Breaker.State.{CircuitBreaker, transition_to_unlocked}
use gomind.Resilience.Breaker.Control.{can_execute, can_execute_in}
use gomind.Resilience.Breaker.Execution.{has_slept}

-- The environment with two logs, newest first: of what the calls gave, and of the waits.
unfoldable pub watched_call :
    {S : Type 0}
    → Environment S
    → S × List (Option Error) × List ℤ
    → Option ((S × List (Option Error) × List ℤ) × Option Error)
watched_call env (s, log, waits) = do
  (tried, outcome) ← env.call s
  some ((tried, outcome ∷ log, waits), outcome)

unfoldable pub watched :
    {S : Type 0} → Environment S → Environment (S × List (Option Error) × List ℤ)
unfolding watched_call
watched env = record {
  context_error = λ (s, _, _). env.context_error s;
  call = watched_call env;
  sleep = λ delay (s, log, waits).
      let (rested, stopped) = env.sleep delay s in ((rested, log, delay ∷ waits), stopped);
}

-- The ending of a run in which every attempt was rejected, and how often it has waited: once
-- between any two attempts, so that it is exhausted only after all of them.
abbrev pub WasRejected : ℤ → List ℤ → Ending → Type 0
WasRejected max waits succeeded = ⊥
WasRejected (pos zero) waits (cancelled e) = ⊥
WasRejected (pos (suc n)) waits (cancelled e) = length waits ≤ n
WasRejected (negsuc n) waits (cancelled e) = ⊥
WasRejected (pos zero) waits (exhausted o) = (o ≡ none) × (waits ≡ [])
WasRejected (pos (suc n)) waits (exhausted o) =
    (o ≡ some (sentinel circuit_breaker_open)) × (length waits ≡ n)
WasRejected (negsuc n) waits (exhausted o) = (o ≡ none) × (waits ≡ [])

module _ (F : Float64) (sin : F.Float → F.Float) {S : Type 0} (env : Environment S) (clock : S → ℕ)
    (cb : CircuitBreaker F) where
  abbrev pub watch : S × List (Option Error) × List ℤ → ℕ
  watch (s, log, waits) = clock s

  abbrev Rejects : Type 0
  Rejects = (s : S) → can_execute F cb (clock s) ≡ (cb, false)

  -- Before an attempt with `r` more after it, out of `n` more than the first.
  abbrev IsUntouched :
      ℕ → ℕ → ℕ → ℤ → CircuitBreaker F × (S × List (Option Error) × List ℤ) → Type 0
  IsUntouched n r a d (cb', (s, log, waits)) = (cb' ≡ cb) × (log ≡ []) × (length waits + r ≡ n)

  abbrev pub EndsUntouched :
      ℤ → (CircuitBreaker F × (S × List (Option Error) × List ℤ)) × Ending → Type 0
  EndsUntouched max ((cb', (s, log, waits)), ending) =
      (cb' ≡ cb) × (log ≡ []) × WasRejected max waits ending

  guarded_call_rejected :
      (s : S) (waits : List ℤ)
      → Rejects
      → guarded_call F sin (watched env) watch (cb, (s, [], waits))
        ≡ some ((cb, (s, [], waits)), some (sentinel circuit_breaker_open))
  unfolding guarded_call
  guarded_call_rejected s waits rejects = rw (rejects s)

  waited-EndsUntouched :
      (n : ℕ) (c : RetryConfig F) (r a : ℕ) (d : ℤ) (waits : List ℤ) (w : S × Option Error)
      → length waits + suc r ≡ n
      → AfterWait F sin
          (guarded F sin (watched env) watch)
          c
          (IsUntouched n)
          (EndsUntouched (pos (suc n)))
          r
          a
          d
          ((cb, (w.0, [], d ∷ waits)), w.1)
  waited-EndsUntouched n c r a d waits (u, none) h = (refl, refl, omega arith)
  waited-EndsUntouched n c r a d waits (u, some e) h = (refl, refl, omega arith)

  called-EndsUntouched :
      (n : ℕ) (c : RetryConfig F) (r a : ℕ) (d : ℤ) (s : S) (waits : List ℤ)
      → length waits + r ≡ n
      → AfterCall F sin
          (guarded F sin (watched env) watch)
          c
          (IsUntouched n)
          (EndsUntouched (pos (suc n)))
          r
          a
          d
          (cb, (s, [], waits))
          (some (sentinel circuit_breaker_open))
  unfolding guarded watched
  called-EndsUntouched n c zero a d s waits h = (refl, refl, (refl, omega arith))
  called-EndsUntouched n c (suc r) a d s waits h =
      let next = next_delay F sin c a d in
      waited-EndsUntouched n c r a next waits (env.sleep next s) h

  guarded-Keeps :
      (n : ℕ) (c : RetryConfig F)
      → Rejects
      → Keeps F sin
          (guarded F sin (watched env) watch)
          c
          (IsUntouched n)
          (EndsUntouched (pos (suc n)))
  unfolding guarded
  guarded-Keeps n c rejects = record {
    stops = λ r a d (cb', (s, log, waits)) e i h. (i.0, i.1, omega (arith, i.2));
    calls = λ r a d (cb', (s, log, waits)) i. (
      (cb, (s, [], waits)),
      some (sentinel circuit_breaker_open),
      ap (λ (x : CircuitBreaker F). guarded_call F sin (watched env) watch (x, (s, log, waits))) i.0
          ∙ ap
              (λ (l : List (Option Error)).
                guarded_call F sin (watched env) watch (cb, (s, l, waits)))
              i.1
          ∙ guarded_call_rejected s waits rejects,
      called-EndsUntouched n c r a d s waits i.2,
    );
  }

  up_to-EndsUntouched :
      (max : ℤ) (c : RetryConfig F) (s : S)
      → Rejects
      → Returns
          (EndsUntouched max)
          (attempts_up_to F sin (guarded F sin (watched env) watch) max c (cb, (s, [], [])))
  unfolding attempts_up_to
  up_to-EndsUntouched (pos zero) c s rejects = (refl, refl, (refl, refl))
  up_to-EndsUntouched (pos (suc n)) c s rejects =
      attempts_from_rule F sin (guarded F sin (watched env) watch) c (IsUntouched n)
        (EndsUntouched (pos (suc n))) (guarded-Keeps n c rejects) n 1 c.initial_delay
        (cb, (s, [], [])) (refl, refl, omega arith)
  up_to-EndsUntouched (negsuc n) c s rejects = (refl, refl, (refl, refl))

  can_execute_rejected :
      cb.state ≡ state_open → ((s : S) → has_slept F cb (clock s) ≡ false) → Rejects
  unfolding can_execute can_execute_in
  can_execute_rejected open' asleep s =
      ap (λ (x : CircuitState). can_execute_in F x cb (clock s)) open'
      ∙ ap
          (λ (b : Bool).
            if b
            then (transition_to_unlocked F cb state_half_open (clock s), true)
            else (cb, false))
          (asleep s)

  -- A retry over an open breaker whose sleep window outlasts it never calls the function and leaves
  -- the breaker as it is, but goes on to its last attempt: unless its context ends it, it ends
  -- exhausted, with the open breaker as the error of the last attempt where there is one, and after
  -- as many waits as there are attempts after the first.
  pub run-EndsUntouched :
      (c : RetryConfig F) (s : S)
      → cb.state ≡ state_open
      → ((s : S) → has_slept F cb (clock s) ≡ false)
      → Returns
          (EndsUntouched c.max_attempts)
          (run F sin (guarded F sin (watched env) watch) c (cb, (s, [], [])))
  unfolding run
  run-EndsUntouched c s open' asleep =
      up_to-EndsUntouched c.max_attempts c s (can_execute_rejected open' asleep)
