-- ===== src/Resilience/Retry/Delays.antt =====
-- How long the loop waits.
use gomind.Base.{
  ℕ, zero, suc, ◌≡◌, inl, inr, false, Option, none, some, List, [], ◌∷◌, arith, All, Option-cases,
  subst,
}
use gomind.Base.Int.{ℤ, pos, negsuc, ◌≤ℤ◌}
use gomind.Base.Float.{Float64}
use gomind.Base.Panic.{◌>>=◌, Returns}
use gomind.Core.Errors.{Error}
use gomind.Resilience.Retry.{
  Environment, Ending, RetryConfig, next_delay, backed_off, capped, attempts_up_to, run,
}
use gomind.Resilience.Retry.Rule.{Keeps, AfterCall, AfterWait, attempts_from_rule}
use gomind.Resilience.Retry.Attempts.{NeverPanics}

-- The environment with a log of the waits, newest first.
unfoldable pub timed_call :
    {S : Type 0} → Environment S → S × List ℤ → Option ((S × List ℤ) × Option Error)
timed_call env (s, log) = do (tried, outcome) ← env.call s; some ((tried, log), outcome)

unfoldable pub timed : {S : Type 0} → Environment S → Environment (S × List ℤ)
unfolding timed_call
timed env = record {
  context_error = λ (s, _). env.context_error s;
  call = timed_call env;
  sleep = λ delay (s, log).
      let (rested, stopped) = env.sleep delay s in ((rested, delay ∷ log), stopped);
}

abbrev pub AreAtMost : ℤ → List ℤ → Type 0
AreAtMost top log = All (λ (d : ℤ). d ≤ℤ top) log

module _ (F : Float64) (sin : F.Float → F.Float) {S : Type 0} (env : Environment S) where
  abbrev IsWithin : ℤ → ℕ → ℕ → ℤ → S × List ℤ → Type 0
  IsWithin top r a d (s, log) = (d ≤ℤ top) × AreAtMost top log

  abbrev pub WaitedAtMost : ℤ → (S × List ℤ) × Ending → Type 0
  WaitedAtMost top ((s, log), ending) = AreAtMost top log

  next_delay-le :
      (top : ℤ) (c : RetryConfig F) (a : ℕ) (d : ℤ)
      → c.jitter_enabled ≡ false
      → c.max_delay ≤ℤ top
      → d ≤ℤ top
      → next_delay F sin c a d ≤ℤ top
  unfolding next_delay backed_off capped
  next_delay-le top c a d plain m h = ground arith

  waited-WaitedAtMost :
      (top : ℤ) (c : RetryConfig F) (r a : ℕ) (d : ℤ) (w : S × Option Error) (log : List ℤ)
      → d ≤ℤ top
      → AreAtMost top log
      → AfterWait F sin (timed env) c (IsWithin top) (WaitedAtMost top) r a d ((w.0, d ∷ log), w.1)
  waited-WaitedAtMost top c r a d (u, none) log h k = (h, (h, k))
  waited-WaitedAtMost top c r a d (u, some e) log h k = (h, k)

  called-WaitedAtMost :
      (top : ℤ) (c : RetryConfig F) (r a : ℕ) (d : ℤ) (t : S) (log : List ℤ) (o : Option Error)
      → c.jitter_enabled ≡ false
      → c.max_delay ≤ℤ top
      → d ≤ℤ top
      → AreAtMost top log
      → AfterCall F sin (timed env) c (IsWithin top) (WaitedAtMost top) r a d (t, log) o
  unfolding timed
  called-WaitedAtMost top c r a d t log none plain m h k = k
  called-WaitedAtMost top c zero a d t log (some e) plain m h k = k
  called-WaitedAtMost top c (suc r) a d t log (some e) plain m h k =
      let next = next_delay F sin c a d in
      waited-WaitedAtMost top c r a next (env.sleep next t) log (next_delay-le top c a d plain m h)
        k

  timed-Keeps :
      (top : ℤ) (c : RetryConfig F)
      → NeverPanics env
      → c.jitter_enabled ≡ false
      → c.max_delay ≤ℤ top
      → Keeps F sin (timed env) c (IsWithin top) (WaitedAtMost top)
  unfolding timed
  timed-Keeps top c total plain m = record {
    stops = λ r a d (s, log) e i h. i.1;
    calls = λ r a d (s, log) i. elim (Option-cases (env.call s)) [
      | inl panic ↦ absurd (subst (Returns (λ (_ : S × Option Error). Unit {0})) panic (total s))
      | inr ((t, o), e) ↦
          ((t, log), o, rw (e, timed_call), called-WaitedAtMost top c r a d t log o plain m i.0 i.1)
    ];
  }

  up_to-WaitedAtMost :
      (top max : ℤ) (c : RetryConfig F) (s : S)
      → NeverPanics env
      → c.jitter_enabled ≡ false
      → c.max_delay ≤ℤ top
      → c.initial_delay ≤ℤ top
      → Returns (WaitedAtMost top) (attempts_up_to F sin (timed env) max c (s, []))
  unfolding attempts_up_to
  up_to-WaitedAtMost top (pos zero) c s total plain m i = tt
  up_to-WaitedAtMost top (pos (suc n)) c s total plain m i =
      attempts_from_rule F sin (timed env) c (IsWithin top) (WaitedAtMost top)
        (timed-Keeps top c total plain m) n 1 c.initial_delay (s, []) (i, tt)
  up_to-WaitedAtMost top (negsuc n) c s total plain m i = tt

  -- Without jitter, no wait of a run is longer than any bound on `MaxDelay` and `InitialDelay`,
  -- whatever the factor is and however floating point rounds.
  pub run-WaitedAtMost :
      (top : ℤ) (c : RetryConfig F) (s : S)
      → NeverPanics env
      → c.jitter_enabled ≡ false
      → c.max_delay ≤ℤ top
      → c.initial_delay ≤ℤ top
      → Returns (WaitedAtMost top) (run F sin (timed env) c (s, []))
  unfolding run
  run-WaitedAtMost top c s total plain m i =
      up_to-WaitedAtMost top c.max_attempts c s total plain m i
