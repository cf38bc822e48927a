-- ===== src/Telemetry/Circuit/Recovery.antt =====
-- How the telemetry breaker opens, and how it closes.
use gomind.Base.{
  ℕ, zero, suc, ◌+◌, ◌≤◌, ◌<◌, ◌≡◌, ◌∙◌, ap, List, [], ◌∷◌, arith, length, subst, inl, inr, ◌⊎◌,
}
use gomind.Base.Int.{ℤ, pos, i64, ◌+ℤ◌}
use gomind.Telemetry.Circuit.{
  state_closed, state_open, state_half_open, TelemetryCircuitBreaker, incr, success_in,
  record_success, record_failure,
}

incr-pos : (k : ℕ) → k < 9223372036854775807 → incr (pos k) ≡ pos (suc k)
unfolding ◌+ℤ◌ i64
incr-pos k h = ground arith

-- `RecordFailure` at each of a list of times, and `RecordSuccess` a number of times.
unfoldable pub record_failures : TelemetryCircuitBreaker → List ℕ → TelemetryCircuitBreaker
unfolding record_failure
record_failures cb [] = cb
record_failures cb (now ∷ later) = record_failures (record_failure cb now) later

unfoldable pub record_successes : ℕ → TelemetryCircuitBreaker → TelemetryCircuitBreaker
unfolding record_success
record_successes zero cb = cb
record_successes (suc n) cb = record_successes n (record_success cb)

-- With the threshold `suc t`: open, or closed with `k` failures counted.
record HasCounted (t k : ℕ) (cb : TelemetryCircuitBreaker) : Type 0 where
  threshold : cb.config.max_failures ≡ pos (suc t)
  opens : (cb.state ≡ state_open) ⊎ ((cb.state ≡ state_closed) × (cb.failures ≡ pos k) × (k ≤ t))

record_failure-HasCounted :
    (t k : ℕ) (cb : TelemetryCircuitBreaker) (now : ℕ)
    → t < 9223372036854775807
    → HasCounted t k cb
    → HasCounted t (suc k) (record_failure cb now)
unfolding record_failure
record_failure-HasCounted t k cb now m x = record {
  threshold = let e = x.threshold in ground arith;
  opens = elim x.opens [
    | inl open' ↦ inl (ground arith)
    | inr (closed, c, le) ↦
        let up : incr cb.failures ≡ pos (suc k) =
          ap (λ (z : ℤ). incr z) c ∙ incr-pos k (omega arith) in
        let e = x.threshold in ground arith
  ];
}

record_failures-HasCounted :
    (t k : ℕ) (cb : TelemetryCircuitBreaker) (times : List ℕ)
    → t < 9223372036854775807
    → HasCounted t k cb
    → HasCounted t (k + length times) (record_failures cb times)
unfolding record_failures
record_failures-HasCounted t k cb [] m x =
    let same : k ≡ k + 0 = omega arith in subst (λ (n : ℕ). HasCounted t n cb) same x
record_failures-HasCounted t k cb (now ∷ later) m x =
    let same : suc k + length later ≡ k + suc (length later) = omega arith in
    subst (λ (n : ℕ). HasCounted t n (record_failures (record_failure cb now) later)) same
      (record_failures-HasCounted t (suc k) (record_failure cb now) later m
        (record_failure-HasCounted t k cb now m x))

-- A closed breaker with the threshold `suc t`, which an `int` can hold, and no failure counted is
-- open after more than `t` failures in a row, at whatever times.
pub telemetry_failures-open :
    (t : ℕ) (cb : TelemetryCircuitBreaker) (times : List ℕ)
    → t < 9223372036854775807
    → t < length times
    → cb.config.max_failures ≡ pos (suc t)
    → cb.state ≡ state_closed
    → cb.failures ≡ pos 0
    → (record_failures cb times).state ≡ state_open
telemetry_failures-open t cb times m long e closed c =
    let last =
      record_failures-HasCounted t 0 cb times m
        (record { threshold = e; opens = inr (closed, c, omega arith) }) in
    elim last.opens [ inl open' ↦ open' | inr (_, _, few) ↦ absurd (omega arith) ]

-- In a half-open breaker with the limit `m`, `s` successes counted.
record HasTested (m s : ℕ) (cb : TelemetryCircuitBreaker) : Type 0 where
  limit : cb.config.half_open_max ≡ pos m
  half : cb.state ≡ state_half_open
  counted : cb.successes ≡ pos s

record_success-HasTested :
    (m s : ℕ) (cb : TelemetryCircuitBreaker)
    → m < 9223372036854775807
    → suc s < m
    → HasTested m s cb
    → HasTested m (suc s) (record_success cb)
unfolding record_success success_in
record_success-HasTested m s cb b h x =
    let up : incr cb.successes ≡ pos (suc s) =
      ap (λ (z : ℤ). incr z) x.counted ∙ incr-pos s (omega arith) in
    ground arith

record_success-closes :
    (s : ℕ) (cb : TelemetryCircuitBreaker)
    → s < 9223372036854775807
    → HasTested (suc s) s cb
    → ((record_success cb).state ≡ state_closed) × ((record_success cb).failures ≡ pos 0)
unfolding record_success success_in
record_success-closes s cb b x =
    let up : incr cb.successes ≡ pos (suc s) = ap (λ (z : ℤ). incr z) x.counted ∙ incr-pos s b in
    ground arith

tested_closes :
    (n m s : ℕ) (cb : TelemetryCircuitBreaker)
    → m < 9223372036854775807
    → s + suc n ≡ m
    → HasTested m s cb
    → ((record_successes (suc n) cb).state ≡ state_closed)
      × ((record_successes (suc n) cb).failures ≡ pos 0)
unfolding record_successes
tested_closes zero m s cb b e x =
    let same : m ≡ suc s = omega arith in
    record_success-closes s cb (omega arith) (subst (λ (k : ℕ). HasTested k s cb) same x)
tested_closes (suc n) m s cb b e x =
    tested_closes n m (suc s) (record_success cb) b (omega arith)
      (record_success-HasTested m s cb b (omega arith) x)

-- A half-open breaker with no success counted closes, with no failure counted, after as many
-- successes as its limit.
telemetry_successes-close :
    (m : ℕ) (cb : TelemetryCircuitBreaker)
    → suc m < 9223372036854775807
    → cb.config.half_open_max ≡ pos (suc m)
    → cb.state ≡ state_half_open
    → cb.successes ≡ pos 0
    → ((record_successes (suc m) cb).state ≡ state_closed)
      × ((record_successes (suc m) cb).failures ≡ pos 0)
telemetry_successes-close m cb b e half c =
    tested_closes m (suc m) 0 cb b (omega arith) (record { limit = e; half = half; counted = c })
