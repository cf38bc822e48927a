-- ===== src/Resilience/Breaker/Safety.antt =====
-- Every step of a history keeps a sound circuit breaker sound, and none panics.
use gomind.Base.{
  ℕ, zero, suc, ◌+◌, ◌≤◌, ◌≡◌, refl, Bool, true, false, Option, none, some, List, [], ◌∷◌, arith,
  Bool-cases, inl, inr, if_cases, not,
}
use gomind.Base.Int.{ℤ, pos_part, neg_part, u64}
use gomind.Base.Float.{Float64}
use gomind.Base.Panic.{Returns, Returns-bind}
use gomind.Core.Errors.{Error, plain}
use gomind.Resilience.Window
use gomind.Resilience.Window.{SlidingWindow, new_sliding_window}
use gomind.Resilience.Window.Recording.{
  record_success-Keeps, record_failure-Keeps, new_sliding_window-IsValid,
}
use gomind.Resilience.Breaker.Config.{
  CircuitState, state_closed, state_open, state_half_open, Config,
}
use gomind.Resilience.Breaker.State.{
  ExecutionToken, CircuitBreaker, transition_to_unlocked, create, same_state,
  add_state_change_listener,
}
use gomind.Resilience.Breaker.Evaluation.{delete_token, complete_execution}
use gomind.Resilience.Breaker.Execution.{
  at_capacity, has_slept, admit_half_open, start_in, start_execution_calls, start_execution,
  begin_execute, count_start, land, finish_execute, cancel_execute,
}
use gomind.Resilience.Breaker.Control.{
  reset, force_open, force_closed, clear_force, clean_token, clean_tokens,
  cleanup_orphaned_requests, can_execute, can_execute_in, record_success, record_failure,
  is_orphaned,
}
use gomind.Resilience.Breaker.History.{
  Op, begins, finishes, cancels, orphan_ends, cleans, asks, notes_success, notes_failure,
  forces_open, forces_closed, clears, resets, listens, step, run, run_induction,
}
use gomind.Resilience.Breaker.Soundness.{
  IsUsable, IsSound, transition-IsSound, evaluate_state-IsSound, complete_execution-IsSound,
  length-delete_token, incr_parts,
}

module _ (F : Float64) where
  admit_half_open-IsSound :
      (cb : CircuitBreaker F) (now : ℕ)
      → cb.state ≡ state_half_open
      → at_capacity F cb ≡ false
      → IsSound F cb
      → IsSound F (admit_half_open F cb now).0
  unfolding admit_half_open at_capacity
  admit_half_open-IsSound cb now half room v =
      let (lo, hi, few) = v.slots half in
      let some_requests = v.usable.some_requests in
      let few_requests = v.usable.few_requests in
      let room' : pos_part cb.half_open_total + 1 + neg_part cb.config.half_open_requests
          ≤ pos_part cb.config.half_open_requests + neg_part cb.half_open_total =
        ground arith in
      let up = incr_parts cb.half_open_total lo (omega arith) in
      record {
        usable = v.usable;
        counts = v.counts;
        slots = λ _. (
          omega arith,
          omega arith,
          omega (arith, length-delete_token (u64 (cb.token_counter + 1)) cb.half_open_tokens),
        );
      }

  start_in-IsSound :
      (s : CircuitState) (cb : CircuitBreaker F) (now : ℕ)
      (again : CircuitBreaker F × Option ExecutionToken)
      → cb.state ≡ s
      → IsSound F cb
      → IsSound F again.0
      → IsSound F (start_in F s cb now again).0
  unfolding start_in
  start_in-IsSound state_closed cb now again e v w = record {
    usable = v.usable;
    counts = v.counts;
    slots = v.slots;
  }
  start_in-IsSound state_open cb now again e v w = elim (Bool-cases (has_slept F cb now)) [
    | inl slept ↦ rw slept w
    | inr early ↦ rw early v
  ]
  start_in-IsSound state_half_open cb now again e v w = elim (Bool-cases (at_capacity F cb)) [
    | inl full ↦ rw full v
    | inr room ↦ rw room (admit_half_open-IsSound cb now e room v)
  ]

  start_execution_calls-IsSound :
      (n : ℕ) (cb : CircuitBreaker F) (now : ℕ)
      → IsSound F cb
      → IsSound F (start_execution_calls F n cb now).0
  unfolding start_execution_calls
  start_execution_calls-IsSound zero cb now v = v
  start_execution_calls-IsSound (suc n) cb now v =
      let again =
        start_execution_calls-IsSound n (transition_to_unlocked F cb state_half_open now) now
          (transition-IsSound F cb state_half_open now v) in
      let free =
        start_in-IsSound cb.state cb now
          (start_execution_calls F n (transition_to_unlocked F cb state_half_open now) now) refl v
          again in
      let started = λ (r : CircuitBreaker F × Option ExecutionToken). IsSound F r.0 in
      if_cases started cb.force_closed (λ _. v)
        (λ _. if_cases started cb.force_open (λ _. v) (λ _. free))

  count_start-IsSound :
      (r : CircuitBreaker F × Option ExecutionToken) → IsSound F r.0 → IsSound F (count_start F r).0
  unfolding count_start
  count_start-IsSound (cb, none) v = record {
    usable = v.usable;
    counts = v.counts;
    slots = v.slots;
  }
  count_start-IsSound (cb, some t) v = record {
    usable = v.usable;
    counts = v.counts;
    slots = v.slots;
  }

  begin_execute-IsSound :
      (cb : CircuitBreaker F) (now : ℕ) → IsSound F cb → IsSound F (begin_execute F cb now).0
  unfolding begin_execute start_execution
  begin_execute-IsSound cb now v =
      count_start-IsSound (start_execution F cb now) (start_execution_calls-IsSound 2 cb now v)

  land-IsSound : (cb : CircuitBreaker F) → IsSound F cb → IsSound F (land F cb)
  land-IsSound cb v = record { usable = v.usable; counts = v.counts; slots = v.slots }

  finish_execute-IsSound :
      (cb : CircuitBreaker F) (token : ExecutionToken) (err : Option Error) (now : ℕ)
      → IsSound F cb
      → Returns (IsSound F) (finish_execute F cb token err now)
  unfolding finish_execute
  finish_execute-IsSound cb token err now v =
      Returns-bind (IsSound F) (IsSound F) (complete_execution F cb token err now) _
        (complete_execution-IsSound F cb token err now v) (λ c h. land-IsSound c h)

  clean_token-IsSound :
      (cb : CircuitBreaker F) (token : ExecutionToken) (now : ℕ)
      → IsSound F cb
      → Returns (IsSound F) (clean_token F cb token now)
  unfolding clean_token
  clean_token-IsSound cb token now v =
      complete_execution-IsSound F
        (record cb { half_open_tokens = delete_token token.id cb.half_open_tokens }) token
        (some (plain "request orphaned")) now
        (record {
          usable = v.usable;
          counts = v.counts;
          slots = λ h.
              let (lo, hi, few) = v.slots h in
              (lo, hi, omega (arith, length-delete_token token.id cb.half_open_tokens));
        })

  clean_tokens-IsSound :
      (max_age : ℤ) (now : ℕ) (cb : CircuitBreaker F) (n : ℕ) (ts : List ExecutionToken)
      → IsSound F cb
      → Returns (λ r. IsSound F r.0) (clean_tokens F max_age now cb n ts)
  unfolding clean_tokens
  clean_tokens-IsSound max_age now cb n [] v = v
  clean_tokens-IsSound max_age now cb n (t ∷ ts) v =
      elim (Bool-cases (is_orphaned F max_age now t)) [
        | inl old ↦
            rw (old, clean_tokens)
              (Returns-bind (IsSound F) (λ r. IsSound F r.0) (clean_token F cb t now) _
                (clean_token-IsSound cb t now v)
                (λ next h. clean_tokens-IsSound max_age now next (n + 1) ts h))
        | inr young ↦ rw (young, clean_tokens) (clean_tokens-IsSound max_age now cb n ts v)
      ]

  can_execute_in-IsSound :
      (s : CircuitState) (cb : CircuitBreaker F) (now : ℕ)
      → IsSound F cb
      → IsSound F (can_execute_in F s cb now).0
  unfolding can_execute_in
  can_execute_in-IsSound state_closed cb now v = v
  can_execute_in-IsSound state_open cb now v =
      if_cases (λ (r : CircuitBreaker F × Bool). IsSound F r.0) (has_slept F cb now)
        (λ _. transition-IsSound F cb state_half_open now v) (λ _. v)
  can_execute_in-IsSound state_half_open cb now v = v

  record_success-IsSound :
      (cb : CircuitBreaker F) (now : ℕ)
      → IsSound F cb
      → Returns (IsSound F) (record_success F cb now)
  unfolding record_success
  record_success-IsSound cb now v =
      Returns-bind _ (IsSound F) (Window.record_success cb.window now) _
        (record_success-Keeps cb.window now v.counts)
        (λ w good.
          evaluate_state-IsSound F _ now
            (record { usable = v.usable; counts = good.0; slots = v.slots }))

  record_failure-IsSound :
      (cb : CircuitBreaker F) (now : ℕ)
      → IsSound F cb
      → Returns (IsSound F) (record_failure F cb now)
  unfolding record_failure
  record_failure-IsSound cb now v =
      Returns-bind _ (IsSound F) (Window.record_failure cb.window now) _
        (record_failure-Keeps cb.window now v.counts)
        (λ w good.
          evaluate_state-IsSound F _ now
            (record { usable = v.usable; counts = good.0; slots = v.slots }))

  reset-IsSound : (cb : CircuitBreaker F) (now : ℕ) → IsSound F cb → IsSound F (reset F cb now)
  unfolding reset
  reset-IsSound cb now v =
      let (n, w, eb, ew, fits) = v.usable.buckets_fit in
      record {
        usable = v.usable;
        counts = rw (eb, ew) (new_sliding_window-IsValid w n now true fits);
        slots = λ e. cc;
      }

  force_open-IsSound :
      (cb : CircuitBreaker F) (now : ℕ) → IsSound F cb → IsSound F (force_open F cb now)
  unfolding force_open
  force_open-IsSound cb now v =
      let forced : IsSound F (record cb { force_open = true; force_closed = false }) = record {
        usable = v.usable;
        counts = v.counts;
        slots = v.slots;
      } in
      if_cases (IsSound F) (not (same_state cb.state state_open))
        (λ _. transition-IsSound F _ state_open now forced) (λ _. forced)

  force_closed-IsSound :
      (cb : CircuitBreaker F) (now : ℕ) → IsSound F cb → IsSound F (force_closed F cb now)
  unfolding force_closed
  force_closed-IsSound cb now v =
      let forced : IsSound F (record cb { force_closed = true; force_open = false }) = record {
        usable = v.usable;
        counts = v.counts;
        slots = v.slots;
      } in
      if_cases (IsSound F) (not (same_state cb.state state_closed))
        (λ _. transition-IsSound F _ state_closed now forced) (λ _. forced)

  -- Every step of a sound breaker ends, without a panic, in a sound breaker.
  pub step-IsSound :
      (cb : CircuitBreaker F) (c : ℕ × Op) → IsSound F cb → Returns (IsSound F) (step F cb c)
  unfolding step
  step-IsSound cb (now, begins) v = begin_execute-IsSound cb now v
  step-IsSound cb (now, finishes token err) v = finish_execute-IsSound cb token err now v
  step-IsSound cb (now, cancels) v = unfold cancel_execute in land-IsSound cb v
  step-IsSound cb (now, orphan_ends token err) v =
      complete_execution-IsSound F cb token (some err) now v
  step-IsSound cb (now, cleans max_age) v =
      unfold cleanup_orphaned_requests in
      Returns-bind (λ r. IsSound F r.0) (IsSound F)
        (clean_tokens F max_age now cb 0 cb.half_open_tokens) _
        (clean_tokens-IsSound max_age now cb 0 cb.half_open_tokens v) (λ r h. h)
  step-IsSound cb (now, asks) v = unfold can_execute in can_execute_in-IsSound cb.state cb now v
  step-IsSound cb (now, notes_success) v = record_success-IsSound cb now v
  step-IsSound cb (now, notes_failure) v = record_failure-IsSound cb now v
  step-IsSound cb (now, forces_open) v = force_open-IsSound cb now v
  step-IsSound cb (now, forces_closed) v = force_closed-IsSound cb now v
  step-IsSound cb (now, clears) v =
      unfold clear_force in record { usable = v.usable; counts = v.counts; slots = v.slots }
  step-IsSound cb (now, resets) v = reset-IsSound cb now v
  step-IsSound cb (now, listens l) v =
      unfold add_state_change_listener in
      record { usable = v.usable; counts = v.counts; slots = v.slots }

  create-IsSound : (c : Config F) (now : ℕ) → IsUsable F c → IsSound F (create F c now)
  unfolding create
  create-IsSound c now u =
      let (n, w, eb, ew, fits) = u.buckets_fit in
      record {
        usable = u;
        counts = rw (eb, ew) (new_sliding_window-IsValid w n now true fits);
        slots = λ e. cc;
      }

  -- From a new breaker with a usable configuration, every history ends without a panic in a breaker
  -- whose window is valid and which, if it is half-open, has admitted at least 0 and at most
  -- `half_open_requests` test requests in this period, those in flight among them.
  pub run-create-IsSound :
      (c : Config F) (now : ℕ) (cs : List (ℕ × Op))
      → IsUsable F c
      → Returns (IsSound F) (run F (create F c now) cs)
  run-create-IsSound c now cs u =
      run_induction F (IsSound F) step-IsSound (create F c now) cs (create-IsSound c now u)
