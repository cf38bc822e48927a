-- ===== src/Resilience/Breaker/Lockout.antt =====
-- How a half-open period comes to be exhausted: every test request ends in an error that the
-- classifier does not count. The requests may overlap, in any interleaving.
use gomind.Base.{
  ℕ, ◌≤◌, ◌<◌, ◌≡◌, Bool, Option, none, some, List, [], ◌∷◌, arith, subst, sym, ◌-◌, All,
}
use gomind.Base.Float.{Float64}
use gomind.Base.Panic.{◌>>=◌, Returns, Returns-bind, Returns-mono}
use gomind.Core.Errors.{Error}
use gomind.Resilience.Breaker.Config.{CircuitState, state_half_open}
use gomind.Resilience.Breaker.State.{CircuitBreaker, add_state_change_listener}
use gomind.Resilience.Breaker.Evaluation.{complete_execution}
use gomind.Resilience.Breaker.Execution.{start_execution, finish_execute, cancel_execute, land}
use gomind.Resilience.Breaker.History.{
  Op, begins, finishes, cancels, orphan_ends, cleans, asks, notes_success, notes_failure,
  forces_open, forces_closed, clears, resets, listens, step, run,
}
use gomind.Resilience.Breaker.Control.{can_execute, can_execute_in}
use gomind.Resilience.Breaker.Testing.{
  IsTesting, IsUncounted, requests_in, begun-IsTesting, completed-IsTesting, land-IsTesting,
  full_testing,
}
use gomind.Resilience.Breaker.Exhaustion.{IsExhausted, IsPassive, run-IsExhausted, exhausted_start}

module _ (F : Float64) where
  step-IsTesting :
      (cl : Option (Option Error → Bool)) (n r : ℕ) (cb : CircuitBreaker F) (now : ℕ) (op : Op)
      (cs : List (ℕ × Op))
      → 0 < n
      → n ≤ 2147483647
      → IsUncounted F cl op
      → r ≤ requests_in F ((now, op) ∷ cs)
      → IsTesting F cl n r cb
      → Returns
          (λ next. (k : ℕ) × (k ≤ requests_in F cs) × IsTesting F cl n k next)
          (step F cb (now, op))
  unfolding step finish_execute cancel_execute add_state_change_listener
  step-IsTesting cl n r cb now begins cs p m u h x =
      (r - 1, omega arith, begun-IsTesting F cl n r cb now x p m)
  step-IsTesting cl n r cb now (finishes t (some e)) cs p m u h x =
      Returns-bind (IsTesting F cl n r) _ (complete_execution F cb t (some e) now)
        (λ completed. some (land F completed)) (completed-IsTesting F cl n r cb t e now x p u)
        (λ completed y. (r, h, land-IsTesting F cl n r completed y))
  step-IsTesting cl n r cb now (orphan_ends t e) cs p m u h x =
      Returns-mono (IsTesting F cl n r) _ (complete_execution F cb t (some e) now)
        (completed-IsTesting F cl n r cb t e now x p u) (λ completed y. (r, h, y))
  step-IsTesting cl n r cb now cancels cs p m u h x = (r, h, land-IsTesting F cl n r cb x)
  step-IsTesting cl n r cb now asks cs p m u h x =
      unfold can_execute can_execute_in in
      (
        r,
        h,
        subst (λ (s : CircuitState). IsTesting F cl n r (can_execute_in F s cb now).0) (sym x.half)
            x,
      )
  step-IsTesting cl n r cb now (listens l) cs p m u h x = (
    r,
    h,
    record {
      free = record { not_closed = x.free.not_closed; not_open = x.free.not_open };
      half = x.half;
      requests = x.requests;
      classifies = x.classifies;
      no_success = x.no_success;
      no_failure = x.no_failure;
      total = x.total;
      admissions = x.admissions;
      within = x.within;
      enough = x.enough;
    },
  )
  step-IsTesting cl n r cb now (finishes t none) cs p m u h x = absurd u
  step-IsTesting cl n r cb now (cleans max_age) cs p m u h x = absurd u
  step-IsTesting cl n r cb now notes_success cs p m u h x = absurd u
  step-IsTesting cl n r cb now notes_failure cs p m u h x = absurd u
  step-IsTesting cl n r cb now forces_open cs p m u h x = absurd u
  step-IsTesting cl n r cb now forces_closed cs p m u h x = absurd u
  step-IsTesting cl n r cb now clears cs p m u h x = absurd u
  step-IsTesting cl n r cb now resets cs p m u h x = absurd u

  run-IsTesting :
      (cl : Option (Option Error → Bool)) (n r : ℕ) (cb : CircuitBreaker F) (cs : List (ℕ × Op))
      → 0 < n
      → n ≤ 2147483647
      → All (λ (c : ℕ × Op). IsUncounted F cl c.1) cs
      → r ≤ requests_in F cs
      → IsTesting F cl n r cb
      → Returns (IsTesting F cl n 0) (run F cb cs)
  unfolding run
  run-IsTesting cl n r cb [] p m us h x =
      let none_left : r ≡ 0 = omega arith in subst (λ (k : ℕ). IsTesting F cl n k cb) none_left x
  run-IsTesting cl n r cb ((now, op) ∷ cs) p m us h x =
      Returns-bind (λ next. (k : ℕ) × (k ≤ requests_in F cs) × IsTesting F cl n k next)
        (IsTesting F cl n 0) (step F cb (now, op)) (λ next. run F next cs)
        (step-IsTesting cl n r cb now op cs p m us.0 h x)
        (λ next (k, h', y). run-IsTesting cl n k next cs p m us.1 h' y)

  abbrev Rejects : CircuitBreaker F → Type 0
  Rejects cb = (cb.state ≡ state_half_open) × ((now : ℕ) → start_execution F cb now ≡ (cb, none))

  abbrev IsIdle : CircuitBreaker F → Type 0
  IsIdle cb = cb.half_open_tokens ≡ []

  IsTesting-IsExhausted :
      (cl : Option (Option Error → Bool)) (n : ℕ) (o : Option (CircuitBreaker F))
      → 0 < n
      → Returns (IsTesting F cl n 0) o
      → Returns IsIdle o
      → Returns (IsExhausted F) o
  IsTesting-IsExhausted cl n none p x idle = absurd x
  IsTesting-IsExhausted cl n (some cb) p x idle = record {
    free = x.free;
    half = x.half;
    full = full_testing F cl n cb p x;
    idle = idle;
  }

  -- In a half-open period in which no outcome is counted yet: if as many requests come as there are
  -- admissions left, in whatever interleaving with the ends of requests, each end has an error that
  -- the classifier does not count, there is no manual control and no cleanup meanwhile, and then no
  -- test request is in flight, the breaker is locked out. Whatever requests, questions, cleanups of
  -- orphans and new listeners follow, at whatever times, it is still half-open and rejects every
  -- request.
  pub uncounted_errors_lock_out :
      (cl : Option (Option Error → Bool)) (n r : ℕ) (cb : CircuitBreaker F)
      (cs later : List (ℕ × Op))
      → 0 < n
      → n ≤ 2147483647
      → IsTesting F cl n r cb
      → All (λ (c : ℕ × Op). IsUncounted F cl c.1) cs
      → r ≤ requests_in F cs
      → Returns IsIdle (run F cb cs)
      → All (λ (c : ℕ × Op). IsPassive F c.1) later
      → Returns Rejects (run F cb cs >>= λ tested. run F tested later)
  uncounted_errors_lock_out cl n r cb cs later p m x us h idle passive =
      Returns-bind (IsExhausted F) Rejects (run F cb cs) (λ tested. run F tested later)
        (IsTesting-IsExhausted cl n (run F cb cs) p (run-IsTesting cl n r cb cs p m us h x) idle)
        (λ tested y.
          Returns-mono (IsExhausted F) Rejects (run F tested later)
            (run-IsExhausted F tested later passive y)
            (λ last z. (z.half, λ now. exhausted_start F last now z)))
