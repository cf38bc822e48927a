-- ===== src/Resilience/Retry/Attempts.antt =====
-- How often the function is called, and what the calls gave.
use gomind.Base.{
  subst, ◌≤◌, ◌<◌, ℕ, zero, suc, ◌+◌, ◌≡◌, refl, inl, inr, Option, none, some, List, [], ◌∷◌, arith,
  All, length, Option-cases,
}
use gomind.Base.Int.{ℤ, pos, negsuc}
use gomind.Base.Float.{Float64}
use gomind.Base.Panic.{◌>>=◌, Returns}
use gomind.Core.Errors.{Error}
use gomind.Resilience.Retry.Rule.{Keeps, AfterCall, AfterWait, attempts_from_rule}
use gomind.Resilience.Retry.{
  next_delay, Environment, Ending, succeeded, cancelled, exhausted, RetryConfig, attempts_up_to,
  run,
}

-- The environment with a log of what the calls gave, newest first.
unfoldable pub logged_call :
    {S : Type 0}
    → Environment S
    → S × List (Option Error)
    → Option ((S × List (Option Error)) × Option Error)
logged_call env (s, log) = do (tried, outcome) ← env.call s; some ((tried, outcome ∷ log), outcome)

unfoldable pub logged : {S : Type 0} → Environment S → Environment (S × List (Option Error))
unfolding logged_call
logged env = record {
  context_error = λ (s, _). env.context_error s;
  call = logged_call env;
  sleep = λ delay (s, log). let (rested, stopped) = env.sleep delay s in ((rested, log), stopped);
}

abbrev pub IsFailure : Option Error → Type 0
IsFailure none = ⊥
IsFailure (some e) = Unit

abbrev pub NeverPanics : {S : Type 0} → Environment S → Type 0
NeverPanics {S} env = (s : S) → Returns (λ (_ : S × Option Error). Unit {0}) (env.call s)

-- The attempts that a configuration allows.
abbrev pub allowed_attempts : ℤ → ℕ
allowed_attempts (pos n) = n
allowed_attempts (negsuc n) = 0

-- What the log of a run with so many attempts looks like, by its ending.
abbrev pub Explains : ℕ → List (Option Error) → Ending → Type 0
Explains n [] succeeded = ⊥
Explains n (outcome ∷ log) succeeded = (outcome ≡ none) × All IsFailure log × (length log < n)
Explains n log (cancelled e) = All IsFailure log × (length log ≤ n)
Explains n [] (exhausted last_err) = (last_err ≡ none) × (n ≡ 0)
Explains n (outcome ∷ log) (exhausted last_err) =
    (last_err ≡ outcome) × All IsFailure (outcome ∷ log) × (length (outcome ∷ log) ≡ n)

abbrev pub IsExplained : {S : Type 0} → ℕ → (S × List (Option Error)) × Ending → Type 0
IsExplained n ((s, log), ending) = Explains n log ending

module _ (F : Float64) (sin : F.Float → F.Float) {S : Type 0} (env : Environment S) where
  abbrev IsOngoing : ℕ → ℕ → ℕ → ℤ → S × List (Option Error) → Type 0
  IsOngoing n r a d (s, log) = All IsFailure log × (length log + suc r ≡ n)

  logged_calls :
      (s : S) (log : List (Option Error))
      → NeverPanics env
      → (t : S) × (o : Option Error) × ((logged env).call (s, log) ≡ some ((t, o ∷ log), o))
  unfolding logged
  logged_calls s log total = elim (Option-cases (env.call s)) [
    | inl panic ↦ absurd (subst (Returns (λ (_ : S × Option Error). Unit {0})) panic (total s))
    | inr ((t, o), e) ↦ (t, o, rw (e, logged_call))
  ]

  waited-IsExplained :
      (n : ℕ) (c : RetryConfig F) (r a : ℕ) (d : ℤ) (w : S × Option Error)
      (log : List (Option Error))
      → All IsFailure log × (length log + suc r ≡ n)
      → AfterWait F sin (logged env) c (IsOngoing n) (IsExplained n) r a d ((w.0, log), w.1)
  waited-IsExplained n c r a d (u, none) log i = i
  waited-IsExplained n c r a d (u, some e) log i = (i.0, omega (arith, i.1))

  outcome-IsExplained :
      (n : ℕ) (c : RetryConfig F) (r a : ℕ) (d : ℤ) (t : S) (log : List (Option Error))
      (o : Option Error)
      → All IsFailure log × (length log + suc r ≡ n)
      → AfterCall F sin (logged env) c (IsOngoing n) (IsExplained n) r a d (t, o ∷ log) o
  unfolding logged
  outcome-IsExplained n c r a d t log none i = (refl, i.0, omega (arith, i.1))
  outcome-IsExplained n c zero a d t log (some e) i = (refl, (tt, i.0), omega (arith, i.1))
  outcome-IsExplained n c (suc r) a d t log (some e) i =
      waited-IsExplained n c r a (next_delay F sin c a d) (env.sleep (next_delay F sin c a d) t)
        (some e ∷ log) ((tt, i.0), omega (arith, i.1))

  logged-Keeps :
      (n : ℕ) (c : RetryConfig F)
      → NeverPanics env
      → Keeps F sin (logged env) c (IsOngoing n) (IsExplained n)
  unfolding logged
  logged-Keeps n c total = record {
    stops = λ r a d (s, log) e i h. (i.0, omega (arith, i.1));
    calls = λ r a d (s, log) i.
        let (t, o, called) = logged_calls s log total in
        ((t, o ∷ log), o, called, outcome-IsExplained n c r a d t log o i);
  }

  attempts_up_to-IsExplained :
      (max : ℤ) (c : RetryConfig F) (s : S)
      → NeverPanics env
      → Returns
          (IsExplained (allowed_attempts max))
          (attempts_up_to F sin (logged env) max c (s, []))
  unfolding attempts_up_to
  attempts_up_to-IsExplained (pos zero) c s total = (refl, refl)
  attempts_up_to-IsExplained (pos (suc rounds)) c s total =
      attempts_from_rule F sin (logged env) c (IsOngoing (suc rounds)) (IsExplained (suc rounds))
        (logged-Keeps (suc rounds) c total) rounds 1 c.initial_delay (s, []) (tt, omega arith)
  attempts_up_to-IsExplained (negsuc n) c s total = (refl, refl)

  -- Where the function never panics, the loop ends, whatever the context does. If it succeeds, the
  -- last call gave no error and all calls before it did; otherwise all calls gave an error. There are
  -- at most `MaxAttempts` calls, and exactly so many where the loop ends exhausted, with the error of
  -- the last one; a number of attempts that is not positive allows no call.
  pub run-IsExplained :
      (c : RetryConfig F) (s : S)
      → NeverPanics env
      → Returns (IsExplained (allowed_attempts c.max_attempts)) (run F sin (logged env) c (s, []))
  unfolding run
  run-IsExplained c s total = attempts_up_to-IsExplained c.max_attempts c s total
