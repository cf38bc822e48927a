-- ===== src/Resilience/Breaker/Admission.antt =====
-- Whom `startExecution` admits, by state and by the manual overrides.
use gomind.Base.{
  ℕ, suc, ◌+◌, ◌≡◌, ◌∙◌, sym, refl, true, false, Option, none, some, [], ◌∷◌, arith, Bool-cases,
  inl, inr, if◌then◌else◌, if_cases, ap,
}
use gomind.Base.Int.{pos, u64, i32, ◌+ℤ◌}
use gomind.Base.Float.{Float64}
use gomind.Resilience.Breaker.Config.{CircuitState, state_closed, state_open, state_half_open}
use gomind.Resilience.Breaker.State.{
  ExecutionToken, CircuitBreaker, zero_token, transition_to_unlocked,
}
use gomind.Resilience.Breaker.Evaluation.{delete_token}
use gomind.Resilience.Breaker.Execution.{
  at_capacity, has_slept, admit_half_open, start_in, start_execution_calls, start_execution,
}
use gomind.Resilience.Breaker.Soundness.{state-transition}

-- No manual override is in force.
pub record IsFree (F : Float64) (cb : CircuitBreaker F) : Type 0 where
  pub not_closed : cb.force_closed ≡ false
  pub not_open : cb.force_open ≡ false

module _ (F : Float64) where
  calls_free :
      (n : ℕ) (cb : CircuitBreaker F) (now : ℕ)
      → IsFree F cb
      → start_execution_calls F (suc n) cb now
        ≡ start_in F cb.state cb now
            (start_execution_calls F n (transition_to_unlocked F cb state_half_open now) now)
  unfolding start_execution_calls
  calls_free n cb now free =
      let again = start_execution_calls F n (transition_to_unlocked F cb state_half_open now) now in
      let goal =
        λ (r : CircuitBreaker F × Option ExecutionToken). r ≡ start_in F cb.state cb now again in
      if_cases goal cb.force_closed (λ e. cc (free.not_closed))
        (λ _. if_cases goal cb.force_open (λ e. cc (free.not_open)) (λ _. refl))

  transition-IsFree :
      (cb : CircuitBreaker F) (s : CircuitState) (now : ℕ)
      → IsFree F cb
      → IsFree F (transition_to_unlocked F cb s now)
  unfolding transition_to_unlocked
  transition-IsFree cb state_closed now free = ground arith
  transition-IsFree cb state_open now free = ground arith
  transition-IsFree cb state_half_open now free = ground arith

  calls_in :
      (n : ℕ) (s : CircuitState) (cb : CircuitBreaker F) (now : ℕ)
      → IsFree F cb
      → cb.state ≡ s
      → start_execution_calls F (suc n) cb now
        ≡ start_in F s cb now
            (start_execution_calls F n (transition_to_unlocked F cb state_half_open now) now)
  calls_in n s cb now free e =
      let again = start_execution_calls F n (transition_to_unlocked F cb state_half_open now) now in
      calls_free n cb now free ∙ ap (λ (t : CircuitState). start_in F t cb now again) e

  calls_half_open :
      (n : ℕ) (cb : CircuitBreaker F) (now : ℕ)
      → IsFree F cb
      → cb.state ≡ state_half_open
      → start_execution_calls F (suc n) cb now
        ≡ (if at_capacity F cb then (cb, none) else admit_half_open F cb now)
  unfolding start_in
  calls_half_open n cb now free half = calls_in n state_half_open cb now free half

  -- In the half-open state, with no override: a rejection that changes nothing at capacity, and
  -- otherwise a test request is admitted.
  pub start_half_open :
      (cb : CircuitBreaker F) (now : ℕ)
      → IsFree F cb
      → cb.state ≡ state_half_open
      → start_execution F cb now
        ≡ (if at_capacity F cb then (cb, none) else admit_half_open F cb now)
  unfolding start_execution
  start_half_open cb now free half = calls_half_open 1 cb now free half

  transitioned_room :
      (cb : CircuitBreaker F) (now : ℕ)
      → cb.state ≡ state_open
      → at_capacity F (transition_to_unlocked F cb state_half_open now) ≡ false
  unfolding transition_to_unlocked at_capacity
  transitioned_room cb now e = ground arith

  calls_open :
      (n : ℕ) (cb : CircuitBreaker F) (now : ℕ)
      → IsFree F cb
      → cb.state ≡ state_open
      → start_execution_calls F (suc (suc n)) cb now ≡ (
          if has_slept F cb now
          then admit_half_open F (transition_to_unlocked F cb state_half_open now) now
          else (cb, none))
  unfolding start_in
  calls_open n cb now free e =
      let half = transition_to_unlocked F cb state_half_open now in
      let again =
        calls_half_open n half now (transition-IsFree cb state_half_open now free)
          (state-transition F cb state_half_open now) in
      calls_in (suc n) state_open cb now free e ∙ rw again (rw (transitioned_room cb now e))

  -- In the open state, with no override: until the sleep window is over the request is rejected and
  -- nothing changes; after it, the breaker becomes half-open and the request is its first test.
  start_open :
      (cb : CircuitBreaker F) (now : ℕ)
      → IsFree F cb
      → cb.state ≡ state_open
      → start_execution F cb now ≡ (
          if has_slept F cb now
          then admit_half_open F (transition_to_unlocked F cb state_half_open now) now
          else (cb, none))
  unfolding start_execution
  start_open cb now free e = calls_open 0 cb now free e

  entered :
      (cb : CircuitBreaker F) (now : ℕ)
      → cb.state ≡ state_open
      → let half = transition_to_unlocked F cb state_half_open now in
        (half.half_open_total ≡ pos 0)
        × (half.half_open_tokens ≡ [])
        × (half.generation ≡ u64 (cb.generation + 1))
  unfolding transition_to_unlocked
  entered cb now e = (ground arith, ground arith, ground arith)

  -- An admission after the sleep window starts a new half-open period: its total is 1, the only
  -- token in flight is the new one, which is marked half-open, and the generation is one up.
  pub start_open-slept :
      (cb : CircuitBreaker F) (now : ℕ)
      → IsFree F cb
      → cb.state ≡ state_open
      → has_slept F cb now ≡ true
      → (cb' : CircuitBreaker F) × (token : ExecutionToken) × (start_execution F cb now
          ≡ (cb', some token))
        × (cb'.state ≡ state_half_open)
        × (cb'.half_open_total ≡ pos 1)
        × (cb'.half_open_tokens ≡ token ∷ [])
        × (token.is_half_open ≡ true)
        × (cb'.generation ≡ u64 (cb.generation + 1))
  unfolding admit_half_open
  start_open-slept cb now free e slept =
      let half = transition_to_unlocked F cb state_half_open now in
      let new = entered cb now e in
      (
        (admit_half_open F half now).0,
        record { id = u64 (half.token_counter + 1); start_time = now; is_half_open = true },
        start_open cb now free e ∙ rw slept,
        state-transition F cb state_half_open now,
        rw (new.0) (unfold i32 ◌+ℤ◌ in refl),
        rw (new.1) (unfold delete_token in refl),
        refl,
        new.2,
      )

  calls_forced :
      (n : ℕ) (cb : CircuitBreaker F) (now : ℕ)
      → ¬ IsFree F cb
      → start_execution_calls F (suc n) cb now
        ≡ (cb, if cb.force_closed then some zero_token else none)
  unfolding start_execution_calls
  calls_forced n cb now forced = elim (Bool-cases cb.force_closed) [
    | inl e ↦ ground arith
    | inr e ↦ elim (Bool-cases cb.force_open) [
      | inl e' ↦ ground arith
      | inr e' ↦ absurd (forced (record { not_closed = e; not_open = e' }))
    ]
  ]

  calls_agree :
      (s : CircuitState) (n : ℕ) (cb : CircuitBreaker F) (now : ℕ)
      → IsFree F cb
      → cb.state ≡ s
      → start_execution_calls F (suc (suc n)) cb now ≡ start_execution_calls F 2 cb now
  unfolding start_in
  calls_agree state_closed n cb now free e =
      calls_in (suc n) state_closed cb now free e ∙ sym (calls_in 1 state_closed cb now free e)
  calls_agree state_open n cb now free e =
      calls_open n cb now free e ∙ sym (calls_open 0 cb now free e)
  calls_agree state_half_open n cb now free e =
      calls_half_open (suc n) cb now free e ∙ sym (calls_half_open 1 cb now free e)

  free? : (cb : CircuitBreaker F) → Dec (IsFree F cb)
  free? cb = elim (Bool-cases cb.force_closed) [
    | inl e ↦ no (λ f. cc (f.not_closed))
    | inr e ↦ elim (Bool-cases cb.force_open) [
      | inl e' ↦ no (λ f. cc (f.not_open))
      | inr e' ↦ yes (record { not_closed = e; not_open = e' })
    ]
  ]

  -- `startExecution` calls itself at most once: with room for more calls the result is the same.
  start_execution_calls-enough :
      (n : ℕ) (cb : CircuitBreaker F) (now : ℕ)
      → start_execution_calls F (suc (suc n)) cb now ≡ start_execution F cb now
  unfolding start_execution
  start_execution_calls-enough n cb now = elim (free? cb) [
    | yes free ↦ calls_agree cb.state n cb now free refl
    | no forced ↦ calls_forced (suc n) cb now forced ∙ sym (calls_forced 1 cb now forced)
  ]
