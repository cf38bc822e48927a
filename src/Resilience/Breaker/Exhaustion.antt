-- ===== src/Resilience/Breaker/Exhaustion.antt =====
-- A half-open period whose test requests all end in errors that the classifier does not count: the
-- admissions are used up, and no decision is ever made.
use gomind.Base.{ℕ, ◌≡◌, ◌∙◌, sym, true, none, some, List, [], ◌∷◌, subst, All}
use gomind.Base.Float.{Float64}
use gomind.Base.Panic.{◌>>=◌, Returns, Returns-bind}
use gomind.Resilience.Breaker.Config.{CircuitState, state_half_open}
use gomind.Resilience.Breaker.State.{ExecutionToken, CircuitBreaker, add_state_change_listener}
use gomind.Resilience.Breaker.Execution.{at_capacity, start_execution, begin_execute, count_start}
use gomind.Resilience.Breaker.Control.{
  can_execute, can_execute_in, clean_tokens, cleanup_orphaned_requests,
}
use gomind.Resilience.Breaker.History.{
  Op, begins, finishes, cancels, orphan_ends, cleans, asks, notes_success, notes_failure,
  forces_open, forces_closed, clears, resets, listens, step, run,
}
use gomind.Resilience.Breaker.Admission.{IsFree, start_half_open}

module _ (F : Float64) where
  -- All test requests are used up, none is in flight, and too few were counted for a decision.
  pub record IsExhausted (cb : CircuitBreaker F) : Type 0 where
    pub free : IsFree F cb
    pub half : cb.state ≡ state_half_open
    pub full : at_capacity F cb ≡ true
    pub idle : cb.half_open_tokens ≡ []

  -- Requests, questions, cleanups and listeners: what comes of itself, with no manual control.
  abbrev pub IsPassive : Op → Type 0
  IsPassive begins = Unit {0}
  IsPassive asks = Unit {0}
  IsPassive (cleans max_age) = Unit {0}
  IsPassive (listens l) = Unit {0}
  IsPassive _ = ⊥

  pub exhausted_start :
      (cb : CircuitBreaker F) (now : ℕ) → IsExhausted cb → start_execution F cb now ≡ (cb, none)
  exhausted_start cb now x = start_half_open F cb now x.free x.half ∙ rw x.full

  step-IsExhausted :
      (cb : CircuitBreaker F) (c : ℕ × Op)
      → IsPassive c.1
      → IsExhausted cb
      → Returns IsExhausted (step F cb c)
  unfolding step
  step-IsExhausted cb (now, begins) p x =
      unfold begin_execute count_start at_capacity in
      rw (exhausted_start cb now x) (record {
        free = record { not_closed = x.free.not_closed; not_open = x.free.not_open };
        half = x.half;
        full = x.full;
        idle = x.idle;
      })
  step-IsExhausted cb (now, asks) p x =
      unfold can_execute can_execute_in in
      subst (λ (s : CircuitState). IsExhausted (can_execute_in F s cb now).0) (sym x.half) x
  step-IsExhausted cb (now, cleans max_age) p x =
      unfold cleanup_orphaned_requests clean_tokens in
      subst
        (λ (ts : List ExecutionToken).
          Returns IsExhausted (clean_tokens F max_age now cb 0 ts >>= λ r. some r.0))
        (sym x.idle) x
  step-IsExhausted cb (now, listens l) p x =
      unfold add_state_change_listener at_capacity in
      record {
        free = record { not_closed = x.free.not_closed; not_open = x.free.not_open };
        half = x.half;
        full = x.full;
        idle = x.idle;
      }
  step-IsExhausted cb (now, cancels) p x = absurd p
  step-IsExhausted cb (now, finishes t e) p x = absurd p
  step-IsExhausted cb (now, orphan_ends t e) p x = absurd p
  step-IsExhausted cb (now, notes_success) p x = absurd p
  step-IsExhausted cb (now, notes_failure) p x = absurd p
  step-IsExhausted cb (now, forces_open) p x = absurd p
  step-IsExhausted cb (now, forces_closed) p x = absurd p
  step-IsExhausted cb (now, clears) p x = absurd p
  step-IsExhausted cb (now, resets) p x = absurd p

  pub run-IsExhausted :
      (cb : CircuitBreaker F) (cs : List (ℕ × Op))
      → All (λ (c : ℕ × Op). IsPassive c.1) cs
      → IsExhausted cb
      → Returns IsExhausted (run F cb cs)
  unfolding run
  run-IsExhausted cb [] ps x = x
  run-IsExhausted cb (c ∷ cs) ps x =
      Returns-bind IsExhausted IsExhausted (step F cb c) (λ next. run F next cs)
        (step-IsExhausted cb c ps.0 x) (λ next h. run-IsExhausted next cs ps.1 h)
