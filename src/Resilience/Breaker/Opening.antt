-- ===== src/Resilience/Breaker/Opening.antt =====
-- How a closed breaker opens: by the legacy threshold, and by the error rate of its window.
use gomind.Base.{
  ℕ, suc, ◌+◌, ◌≤◌, ◌<◌, ◌≡◌, ◌∙◌, sym, false, Option, some, List, [], ◌∷◌, arith, inl, inr, ◌⊎◌,
  length, if_cases, ap, subst,
}
use gomind.Base.Int.{ℤ, pos, i32, ◌+ℤ◌}
use gomind.Base.Float.{Float64}
use gomind.Base.Panic.{◌>>=◌, Returns, Returns-bind, Returns-mono}
use gomind.Resilience.Window
use gomind.Resilience.Window.{get_total, get_error_rate}
use gomind.Resilience.Window.Shape
use gomind.Resilience.Window.Recording.{record_failure-Keeps}
use gomind.Resilience.Breaker.Config.{CircuitState, state_closed, state_open}
use gomind.Resilience.Breaker.State.{CircuitBreaker, transition_to_unlocked}
use gomind.Resilience.Breaker.Evaluation.{incr, should_open, evaluate_in, evaluate_state}
use gomind.Resilience.Breaker.Control.{record_failure}

module _ (F : Float64) where
  -- A breaker with the legacy threshold `suc t` that has opened, or has counted `k` failures of it.
  pub record HasCounted (t k : ℕ) (cb : CircuitBreaker F) : Type 0 where
    pub threshold : cb.config.failure_threshold ≡ pos (suc t)
    pub counts : Shape.IsValid cb.window
    pub opens :
        (cb.state ≡ state_open) ⊎ ((cb.state ≡ state_closed) × (cb.failure_count ≡ pos k) × (k ≤ t))

  transition-HasCounted :
      (t k : ℕ) (cb : CircuitBreaker F) (now : ℕ)
      → cb.config.failure_threshold ≡ pos (suc t)
      → Shape.IsValid cb.window
      → HasCounted t k (transition_to_unlocked F cb state_open now)
  unfolding transition_to_unlocked
  transition-HasCounted t k cb now e v = record {
    threshold = ground arith;
    counts = ground arith;
    opens = inl (ground arith);
  }

  still_closed :
      (t k : ℕ) (cb : CircuitBreaker F) (now : ℕ)
      → cb.config.failure_threshold ≡ pos (suc t)
      → cb.failure_count ≡ pos k
      → should_open F cb now ≡ false
      → k ≤ t
  unfolding should_open
  still_closed t k cb now e c h = ground arith

  evaluate_in-HasCounted :
      (t k : ℕ) (cb : CircuitBreaker F) (now : ℕ)
      → cb.config.failure_threshold ≡ pos (suc t)
      → Shape.IsValid cb.window
      → cb.failure_count ≡ pos k
      → cb.state ≡ state_closed
      → HasCounted t k (evaluate_in F state_closed cb now)
  unfolding evaluate_in
  evaluate_in-HasCounted t k cb now e v c closed =
      if_cases (HasCounted t k) (should_open F cb now) (λ _. transition-HasCounted t k cb now e v)
        (λ h. record {
          threshold = e;
          counts = v;
          opens = inr (closed, c, still_closed t k cb now e c h);
        })

  incr-pos : (k : ℕ) → k < 2147483647 → incr (pos k) ≡ pos (suc k)
  unfolding ◌+ℤ◌ i32
  incr-pos k h = ground arith

  record_failure-HasCounted :
      (t k : ℕ) (cb : CircuitBreaker F) (now : ℕ)
      → t < 2147483647
      → HasCounted t k cb
      → Returns (HasCounted t (suc k)) (record_failure F cb now)
  unfolding record_failure evaluate_state
  record_failure-HasCounted t k cb now m x =
      Returns-bind _ (HasCounted t (suc k)) (Window.record_failure cb.window now) _
        (record_failure-Keeps cb.window now x.counts)
        (λ w good.
          let cb' : CircuitBreaker F = record cb {
            window = w;
            failure_count = incr cb.failure_count;
          } in
          elim x.opens [
            | inl open' ↦
                subst (λ (s : CircuitState). HasCounted t (suc k) (evaluate_in F s cb' now))
                  (sym open')
                  (unfold evaluate_in in
                    record { threshold = x.threshold; counts = good.0; opens = inl open' })
            | inr (closed, c, le) ↦
                subst (λ (s : CircuitState). HasCounted t (suc k) (evaluate_in F s cb' now))
                  (sym closed)
                  (evaluate_in-HasCounted t (suc k) cb' now x.threshold good.0
                    (ap (λ (z : ℤ). incr z) c ∙ incr-pos k (omega arith)) closed)
          ])

  -- `RecordFailure` at each of a list of times.
  unfoldable pub record_failures : CircuitBreaker F → List ℕ → Option (CircuitBreaker F)
  record_failures cb [] = some cb
  record_failures cb (now ∷ later) = do next ← record_failure F cb now; record_failures next later

  record_failures-HasCounted :
      (t k : ℕ) (cb : CircuitBreaker F) (times : List ℕ)
      → t < 2147483647
      → HasCounted t k cb
      → Returns (HasCounted t (k + length times)) (record_failures cb times)
  unfolding record_failures
  record_failures-HasCounted t k cb [] m x =
      let same : k ≡ k + 0 = omega arith in subst (λ (n : ℕ). HasCounted t n cb) same x
  record_failures-HasCounted t k cb (now ∷ later) m x =
      Returns-bind (HasCounted t (suc k)) (HasCounted t (k + suc (length later)))
        (record_failure F cb now) (λ next. record_failures next later)
        (record_failure-HasCounted t k cb now m x)
        (λ next h.
          let same : suc k + length later ≡ k + suc (length later) = omega arith in
          subst (λ (n : ℕ). Returns (HasCounted t n) (record_failures next later)) same
            (record_failures-HasCounted t (suc k) next later m h))

  -- A closed breaker with the legacy threshold `suc t`, a failure count of 0 and a valid window is
  -- open after `suc t` or more failures in a row, at whatever times, and none of them panics.
  pub record_failures-open :
      (t : ℕ) (cb : CircuitBreaker F) (times : List ℕ)
      → t < 2147483647
      → t < length times
      → cb.config.failure_threshold ≡ pos (suc t)
      → Shape.IsValid cb.window
      → cb.state ≡ state_closed
      → cb.failure_count ≡ pos 0
      → Returns (λ (last : CircuitBreaker F). last.state ≡ state_open) (record_failures cb times)
  record_failures-open t cb times m long e v closed c =
      Returns-mono (HasCounted t (0 + length times))
        (λ (last : CircuitBreaker F). last.state ≡ state_open) (record_failures cb times)
        (record_failures-HasCounted t 0 cb times m
          (record { threshold = e; counts = v; opens = inr (closed, c, omega arith) }))
        (λ last h. elim h.opens [ inl open' ↦ open' | inr (_, _, few) ↦ absurd (omega arith) ])
