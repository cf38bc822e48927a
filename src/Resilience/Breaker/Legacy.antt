-- ===== src/Resilience/Breaker/Legacy.antt =====
-- The older interface, `CanExecute` with `RecordSuccess` and `RecordFailure`, which
-- `RetryWithCircuitBreaker` uses, in the half-open state and in the closed one.
use gomind.Base.{ℕ, ◌≡◌, ◌∙◌, true, false, List, [], ◌∷◌, arith, ap, All}
use gomind.Base.Int.{pos, i32, ◌+ℤ◌, ◌≤ℤ◌}
use gomind.Base.Float.{Float64}
use gomind.Base.Panic.{Returns, Returns-bind, Returns-mono}
use gomind.Resilience.Window
use gomind.Resilience.Window.Shape
use gomind.Resilience.Window.Recording.{record_success-Keeps, record_failure-Keeps}
use gomind.Resilience.Breaker.Config.{CircuitState, state_half_open}
use gomind.Resilience.Breaker.State.{CircuitBreaker}
use gomind.Resilience.Breaker.Evaluation.{incr, test_complete, evaluate_in, evaluate_state}
use gomind.Resilience.Breaker.Control.{can_execute, can_execute_in, record_success, record_failure}
use gomind.Resilience.Breaker.History.{
  Op, begins, finishes, cancels, orphan_ends, cleans, asks, notes_success, notes_failure,
  forces_open, forces_closed, clears, resets, listens, step, run,
}

abbrev pub IsLegacy : Op → Type 0
IsLegacy asks = Unit {0}
IsLegacy notes_success = Unit {0}
IsLegacy notes_failure = Unit {0}
IsLegacy _ = ⊥

module _ (F : Float64) where
  -- Half-open, with no test request admitted or counted.
  pub record IsProbing (cb : CircuitBreaker F) : Type 0 where
    pub half : cb.state ≡ state_half_open
    pub some_requests : pos 1 ≤ℤ cb.config.half_open_requests
    pub no_request : cb.half_open_total ≡ pos 0
    pub no_success : cb.half_open_successes ≡ pos 0
    pub no_failure : cb.half_open_failures ≡ pos 0
    pub counts : Shape.IsValid cb.window

  undecided_probing : (cb : CircuitBreaker F) → IsProbing cb → test_complete F cb ≡ false
  unfolding test_complete i32 ◌+ℤ◌
  undecided_probing cb x = ground arith

  evaluate_probing : (cb : CircuitBreaker F) (now : ℕ) → IsProbing cb → evaluate_state F cb now ≡ cb
  unfolding evaluate_state evaluate_in
  evaluate_probing cb now x =
      ap (λ (s : CircuitState). evaluate_in F s cb now) x.half ∙ rw (undecided_probing cb x)

  probing_can_execute :
      (cb : CircuitBreaker F) (now : ℕ) → IsProbing cb → can_execute F cb now ≡ (cb, true)
  unfolding can_execute can_execute_in
  probing_can_execute cb now x =
      ap (λ (s : CircuitState). can_execute_in F s cb now) x.half ∙ ground arith

  step-IsProbing :
      (cb : CircuitBreaker F) (c : ℕ × Op)
      → IsLegacy c.1
      → IsProbing cb
      → Returns IsProbing (step F cb c)
  unfolding step record_success record_failure
  step-IsProbing cb (now, asks) p x = rw (probing_can_execute cb now x) x
  step-IsProbing cb (now, notes_success) p x =
      Returns-bind _ IsProbing (Window.record_success cb.window now) _
        (record_success-Keeps cb.window now x.counts)
        (λ w good.
          let y : IsProbing (record cb { window = w }) = record {
            half = x.half;
            some_requests = x.some_requests;
            no_request = x.no_request;
            no_success = x.no_success;
            no_failure = x.no_failure;
            counts = good.0;
          } in
          rw (evaluate_probing (record cb { window = w }) now y) y)
  step-IsProbing cb (now, notes_failure) p x =
      Returns-bind _ IsProbing (Window.record_failure cb.window now) _
        (record_failure-Keeps cb.window now x.counts)
        (λ w good.
          let cb' : CircuitBreaker F = record cb {
            window = w;
            failure_count = incr cb.failure_count;
          } in
          let y : IsProbing cb' = record {
            half = x.half;
            some_requests = x.some_requests;
            no_request = x.no_request;
            no_success = x.no_success;
            no_failure = x.no_failure;
            counts = good.0;
          } in
          rw (evaluate_probing cb' now y) y)
  step-IsProbing cb (now, begins) p x = absurd p
  step-IsProbing cb (now, cleans m) p x = absurd p
  step-IsProbing cb (now, listens l) p x = absurd p
  step-IsProbing cb (now, cancels) p x = absurd p
  step-IsProbing cb (now, finishes t e) p x = absurd p
  step-IsProbing cb (now, orphan_ends t e) p x = absurd p
  step-IsProbing cb (now, forces_open) p x = absurd p
  step-IsProbing cb (now, forces_closed) p x = absurd p
  step-IsProbing cb (now, clears) p x = absurd p
  step-IsProbing cb (now, resets) p x = absurd p

  run-IsProbing :
      (cb : CircuitBreaker F) (cs : List (ℕ × Op))
      → All (λ (c : ℕ × Op). IsLegacy c.1) cs
      → IsProbing cb
      → Returns IsProbing (run F cb cs)
  unfolding run
  run-IsProbing cb [] ps x = x
  run-IsProbing cb (c ∷ cs) ps x =
      Returns-bind IsProbing IsProbing (step F cb c) (λ next. run F next cs)
        (step-IsProbing cb c ps.0 x) (λ next h. run-IsProbing next cs ps.1 h)

  abbrev StaysProbing : CircuitBreaker F → Type 0
  StaysProbing cb = (cb.state ≡ state_half_open) × ((now : ℕ) → can_execute F cb now ≡ (cb, true))

  -- A half-open breaker that is used through the older interface alone never leaves the half-open
  -- state, whether the calls succeed or fail, and lets every call through.
  pub legacy_never_decides :
      (cb : CircuitBreaker F) (cs : List (ℕ × Op))
      → All (λ (c : ℕ × Op). IsLegacy c.1) cs
      → IsProbing cb
      → Returns StaysProbing (run F cb cs)
  legacy_never_decides cb cs ps x =
      Returns-mono IsProbing StaysProbing (run F cb cs) (run-IsProbing cb cs ps x)
        (λ last y. (y.half, λ now. probing_can_execute last now y))
