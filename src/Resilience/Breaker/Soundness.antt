-- ===== src/Resilience/Breaker/Soundness.antt =====
-- What holds of a circuit breaker after any history: nothing panics, and a half-open period admits
-- no more test requests than its configuration allows.
use gomind.Base.{
  ℕ, suc, ◌+◌, ◌≤◌, ◌≡◌, Bool, true, false, Option, none, some, List, [], ◌∷◌, arith, length,
  Bool-cases, inl, inr, if◌then◌else◌, ◌||◌,
}
use gomind.Base.Int.{ℤ, pos, pos_part, neg_part, ◌≤ℤ◌, ◌+ℤ◌, +ℤ_parts, i32_in_range}
use gomind.Base.Float.{Float64}
use gomind.Base.Panic.{Returns, Returns-bind}
use gomind.Core.Errors.{Error}
use gomind.Resilience.Window
use gomind.Resilience.Window.{SlidingWindow}
use gomind.Resilience.Window.Shape
use gomind.Resilience.Window.Shape.{Keeps}
use gomind.Resilience.Window.Recording.{record_success-Keeps, record_failure-Keeps}
use gomind.Resilience.Breaker.Config.{
  CircuitState, state_closed, state_open, state_half_open, Config,
}
use gomind.Resilience.Breaker.State.{ExecutionToken, CircuitBreaker, transition_to_unlocked}
use gomind.Resilience.Breaker.Evaluation.{
  incr, delete_token, should_open, test_complete, success_rate, close_after_test, reopen_after_test,
  evaluate_in, evaluate_state, release_token, count_success, count_failure, classify,
  record_outcome, complete_execution,
}

abbrev HasClassifier : Option (Option Error → Bool) → Type 0
HasClassifier none = ⊥
HasClassifier (some f) = Unit {0}

-- The parts of a configuration that no step changes, and that are as they should be.
pub record IsUsable (F : Float64) (c : Config F) : Type 0 where
  pub some_requests : pos 1 ≤ℤ c.half_open_requests
  pub few_requests : c.half_open_requests ≤ℤ pos 2147483647
  pub classifies : HasClassifier c.error_classifier
  pub buckets_fit :
      (n : ℕ) × (w : ℕ) × (c.bucket_count ≡ pos (suc n)) × (c.window_size ≡ pos w) × (suc n ≤ w)

module _ (F : Float64) where
  -- The test requests of a half-open period, those in flight among them.
  abbrev pub HasSlots : CircuitBreaker F → Type 0
  HasSlots cb =
      (pos 0 ≤ℤ cb.half_open_total)
      × (cb.half_open_total ≤ℤ cb.config.half_open_requests)
      × (pos (length cb.half_open_tokens) ≤ℤ cb.half_open_total)

  pub record IsSound (cb : CircuitBreaker F) : Type 0 where
    pub usable : IsUsable F cb.config
    pub counts : Shape.IsValid cb.window
    pub slots : cb.state ≡ state_half_open → HasSlots cb

  pub transition-IsSound :
      (cb : CircuitBreaker F) (s : CircuitState) (now : ℕ)
      → IsSound cb
      → IsSound (transition_to_unlocked F cb s now)
  unfolding transition_to_unlocked
  transition-IsSound cb state_half_open now v = record {
    usable = ground arith;
    counts = ground arith;
    slots = ground arith;
  }
  transition-IsSound cb state_open now v = record {
    usable = ground arith;
    counts = ground arith;
    slots = ground arith;
  }
  transition-IsSound cb state_closed now v = record {
    usable = ground arith;
    counts = ground arith;
    slots = ground arith;
  }

  pub state-transition :
      (cb : CircuitBreaker F) (s : CircuitState) (now : ℕ)
      → (transition_to_unlocked F cb s now).state ≡ s
  unfolding transition_to_unlocked
  state-transition cb state_closed now = ground arith
  state-transition cb state_open now = ground arith
  state-transition cb state_half_open now = ground arith

  close_after_test-IsSound :
      (cb : CircuitBreaker F) (now : ℕ) → IsSound cb → IsSound (close_after_test F cb now)
  unfolding close_after_test
  close_after_test-IsSound cb now v =
      let t = transition-IsSound cb state_closed now v in
      record { usable = t.usable; counts = t.counts; slots = t.slots }

  reopen_after_test-IsSound :
      (cb : CircuitBreaker F) (now : ℕ) → IsSound cb → IsSound (reopen_after_test F cb now)
  unfolding reopen_after_test
  reopen_after_test-IsSound cb now v =
      let t = transition-IsSound cb state_open now v in
      let u = v.usable in
      record {
        usable = record {
          some_requests = u.some_requests;
          few_requests = u.few_requests;
          classifies = u.classifies;
          buckets_fit = u.buckets_fit;
        };
        counts = t.counts;
        slots = λ e. cc (state-transition cb state_open now);
      }

  evaluate_in-IsSound :
      (s : CircuitState) (cb : CircuitBreaker F) (now : ℕ)
      → IsSound cb
      → IsSound (evaluate_in F s cb now)
  unfolding evaluate_in
  evaluate_in-IsSound state_closed cb now v = elim (Bool-cases (should_open F cb now)) [
    | inl e ↦ rw e (transition-IsSound cb state_open now v)
    | inr e ↦ rw e v
  ]
  evaluate_in-IsSound state_open cb now v = v
  evaluate_in-IsSound state_half_open cb now v = elim (Bool-cases (test_complete F cb)) [
    | inl e ↦ elim (Bool-cases (F.at_most cb.config.success_threshold (success_rate F cb))) [
      | inl good ↦ rw (e, good) (close_after_test-IsSound cb now v)
      | inr bad ↦ rw (e, bad) (reopen_after_test-IsSound cb now v)
    ]
    | inr e ↦ rw e v
  ]

  pub evaluate_state-IsSound :
      (cb : CircuitBreaker F) (now : ℕ) → IsSound cb → IsSound (evaluate_state F cb now)
  unfolding evaluate_state
  evaluate_state-IsSound cb now v = evaluate_in-IsSound cb.state cb now v

pub length-delete_token :
    (id : ℕ) (ts : List ExecutionToken) → length (delete_token id ts) ≤ length ts
unfolding delete_token
length-delete_token id [] = omega arith
length-delete_token id (t ∷ ts) = ground (arith, length-delete_token id ts)

-- One more, where `int32` has room.
pub incr_parts :
    (z : ℤ)
    → pos 0 ≤ℤ z
    → z ≤ℤ pos 2147483646
    → pos_part (incr z) + neg_part z ≡ neg_part (incr z) + pos_part z + 1
incr_parts z lo hi =
    let sum = +ℤ_parts z (pos 1) in
    rw (i32_in_range (z +ℤ pos 1) (omega arith) (omega arith)) (omega arith)

classify-Returns :
    (f : Option (Option Error → Bool)) (e : Error)
    → HasClassifier f
    → Returns (λ (_ : Bool). Unit {0}) (classify f e)
unfolding classify
classify-Returns none e has = has
classify-Returns (some f) e has = tt

module _ (F : Float64) where
  release_token-IsSound :
      (cb : CircuitBreaker F) (token : ExecutionToken)
      → IsSound F cb
      → IsSound F (release_token F cb token)
  unfolding release_token
  release_token-IsSound cb token v = elim (Bool-cases token.is_half_open) [
    | inl e ↦ rw e (record {
      usable = v.usable;
      counts = v.counts;
      slots = λ h.
          let (lo, hi, few) = v.slots h in
          (lo, hi, omega (arith, length-delete_token token.id cb.half_open_tokens));
    })
    | inr e ↦ rw e v
  ]

  count_success-IsSound :
      (cb : CircuitBreaker F) (token : ExecutionToken) (now : ℕ)
      → IsSound F cb
      → Returns (IsSound F) (count_success F cb token now)
  unfolding count_success
  count_success-IsSound cb token now v =
      Returns-bind _ (IsSound F) (Window.record_success cb.window now) _
        (record_success-Keeps cb.window now v.counts)
        (λ w good. record { usable = v.usable; counts = good.0; slots = v.slots })

  count_failure-IsSound :
      (cb : CircuitBreaker F) (token : ExecutionToken) (now : ℕ)
      → IsSound F cb
      → Returns (IsSound F) (count_failure F cb token now)
  unfolding count_failure
  count_failure-IsSound cb token now v =
      Returns-bind _ (IsSound F) (Window.record_failure cb.window now) _
        (record_failure-Keeps cb.window now v.counts)
        (λ w good. record { usable = v.usable; counts = good.0; slots = v.slots })

  record_outcome-IsSound :
      (cb : CircuitBreaker F) (token : ExecutionToken) (err : Option Error) (now : ℕ)
      → IsSound F cb
      → Returns (IsSound F) (record_outcome F cb token err now)
  unfolding record_outcome
  record_outcome-IsSound cb token none now v = count_success-IsSound cb token now v
  record_outcome-IsSound cb token (some e) now v =
      Returns-bind (λ _. Unit {0}) (IsSound F) (classify cb.config.error_classifier e) _
        (classify-Returns cb.config.error_classifier e v.usable.classifies)
        (λ counts _.
          elim counts
            as (λ (b : Bool).
              Returns (IsSound F) (if b then count_failure F cb token now else some cb)) [
                | true ↦ count_failure-IsSound cb token now v
                | false ↦ v
              ])

  pub complete_execution-IsSound :
      (cb : CircuitBreaker F) (token : ExecutionToken) (err : Option Error) (now : ℕ)
      → IsSound F cb
      → Returns (IsSound F) (complete_execution F cb token err now)
  unfolding complete_execution
  complete_execution-IsSound cb token err now v =
      elim (Bool-cases (cb.force_closed || cb.force_open)) [
        | inl forced ↦ rw forced v
        | inr free ↦ rw free (
            Returns-bind _ (IsSound F) (record_outcome F (release_token F cb token) token err now) _
              (record_outcome-IsSound (release_token F cb token) token err now
                (release_token-IsSound cb token v))
              (λ counted h. evaluate_state-IsSound F counted now h))
      ]
