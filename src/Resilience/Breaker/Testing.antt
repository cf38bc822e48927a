-- ===== src/Resilience/Breaker/Testing.antt =====
-- A half-open period in which requests come and end in errors that the classifier does not count: no
-- outcome is counted, and each request brings the limit on test requests nearer.
use gomind.Base.{
  ℕ, suc, ◌+◌, ◌≤◌, ◌<◌, ◌≡◌, ◌∙◌, Bool, true, false, Option, some, List, [], ◌∷◌, arith,
  if◌then◌else◌, if_cases, ap, subst, sym, inl, inr, ◌-◌, Bool-cases, ◌||◌,
}
use gomind.Base.Int.{ℤ, pos, i32, ◌+ℤ◌}
use gomind.Base.Float.{Float64}
use gomind.Base.Panic.{◌>>=◌, Returns}
use gomind.Core.Errors.{Error}
use gomind.Resilience.Breaker.Config.{CircuitState, state_half_open}
use gomind.Resilience.Breaker.State.{ExecutionToken, CircuitBreaker}
use gomind.Resilience.Breaker.Evaluation.{
  incr, test_complete, evaluate_in, evaluate_state, release_token, classify, record_outcome,
  count_failure, complete_execution,
}
use gomind.Resilience.Breaker.Execution.{
  at_capacity, admit_half_open, begin_execute, count_start, land,
}
use gomind.Resilience.Breaker.History.{Op, begins, finishes, cancels, orphan_ends, asks, listens}
use gomind.Resilience.Breaker.Admission.{IsFree, start_half_open}

module _ (F : Float64) where
  -- A completion whose error is not counted only takes its token back.
  complete_ignored :
      (cb : CircuitBreaker F) (token : ExecutionToken) (e : Error) (now : ℕ)
      → IsFree F cb
      → classify (release_token F cb token).config.error_classifier e ≡ some false
      → (release_token F cb token).state ≡ state_half_open
      → test_complete F (release_token F cb token) ≡ false
      → complete_execution F cb token (some e) now ≡ some (release_token F cb token)
  unfolding complete_execution record_outcome evaluate_state evaluate_in
  complete_ignored cb token e now free ignored half undecided =
      let r = release_token F cb token in
      if_cases (λ (o : Option (CircuitBreaker F)). o ≡ some r) (cb.force_closed || cb.force_open)
        (λ forced. ground arith)
        (λ _.
          ap
            (λ (o : Option Bool).
              (o >>= λ counts. if counts then count_failure F r token now else some r)
              >>= λ counted. some (evaluate_state F counted now))
            ignored
          ∙ ap (λ (s : CircuitState). some (evaluate_in F s r now)) half
          ∙ rw undecided)

  -- Half-open, with no outcome counted: the limit is `n`, and when `r` more test requests have come,
  -- it is reached.
  pub record IsTesting (classifier : Option (Option Error → Bool)) (n r : ℕ) (cb : CircuitBreaker F)
      : Type 0 where
    pub free : IsFree F cb
    pub half : cb.state ≡ state_half_open
    pub requests : cb.config.half_open_requests ≡ pos n
    pub classifies : cb.config.error_classifier ≡ classifier
    pub no_success : cb.half_open_successes ≡ pos 0
    pub no_failure : cb.half_open_failures ≡ pos 0
    pub total : ℕ
    pub admissions : cb.half_open_total ≡ pos total
    pub within : total ≤ n
    pub enough : n ≤ total + r

  -- What may happen in the period: requests, ends with errors that are not counted, cancellations,
  -- questions and new listeners.
  abbrev pub IsUncounted : Option (Option Error → Bool) → Op → Type 0
  IsUncounted classifier begins = Unit {0}
  IsUncounted classifier (finishes t (some e)) = classify classifier e ≡ some false
  IsUncounted classifier (orphan_ends t e) = classify classifier e ≡ some false
  IsUncounted classifier cancels = Unit {0}
  IsUncounted classifier asks = Unit {0}
  IsUncounted classifier (listens l) = Unit {0}
  IsUncounted _ _ = ⊥

  -- How many requests a history has.
  abbrev pub requests_in : List (ℕ × Op) → ℕ
  requests_in [] = 0
  requests_in ((now, begins) ∷ cs) = suc (requests_in cs)
  requests_in ((now, _) ∷ cs) = requests_in cs

  undecided_testing :
      (cl : Option (Option Error → Bool)) (n r : ℕ) (cb : CircuitBreaker F)
      → IsTesting cl n r cb
      → 0 < n
      → test_complete F cb ≡ false
  unfolding test_complete i32 ◌+ℤ◌
  undecided_testing cl n r cb x p =
      let requests = x.requests in
      let no_success = x.no_success in let no_failure = x.no_failure in ground arith

  released-IsTesting :
      (cl : Option (Option Error → Bool)) (n r : ℕ) (cb : CircuitBreaker F) (t : ExecutionToken)
      → IsTesting cl n r cb
      → IsTesting cl n r (release_token F cb t)
  unfolding release_token
  released-IsTesting cl n r cb t x =
      if_cases (IsTesting cl n r) t.is_half_open
        (λ _. record {
          free = record { not_closed = x.free.not_closed; not_open = x.free.not_open };
          half = x.half;
          requests = x.requests;
          classifies = x.classifies;
          no_success = x.no_success;
          no_failure = x.no_failure;
          total = x.total;
          admissions = x.admissions;
          within = x.within;
          enough = x.enough;
        })
        (λ _. x)

  pub land-IsTesting :
      (cl : Option (Option Error → Bool)) (n r : ℕ) (cb : CircuitBreaker F)
      → IsTesting cl n r cb
      → IsTesting cl n r (land F cb)
  land-IsTesting cl n r cb x = record {
    free = record { not_closed = x.free.not_closed; not_open = x.free.not_open };
    half = x.half;
    requests = x.requests;
    classifies = x.classifies;
    no_success = x.no_success;
    no_failure = x.no_failure;
    total = x.total;
    admissions = x.admissions;
    within = x.within;
    enough = x.enough;
  }

  pub completed-IsTesting :
      (cl : Option (Option Error → Bool)) (n r : ℕ) (cb : CircuitBreaker F) (t : ExecutionToken)
      (e : Error) (now : ℕ)
      → IsTesting cl n r cb
      → 0 < n
      → classify cl e ≡ some false
      → Returns (IsTesting cl n r) (complete_execution F cb t (some e) now)
  completed-IsTesting cl n r cb t e now x p ignored =
      let y = released-IsTesting cl n r cb t x in
      subst (Returns (IsTesting cl n r))
        (sym (
          complete_ignored cb t e now x.free
            (ap (λ (c : Option (Option Error → Bool)). classify c e) y.classifies ∙ ignored) y.half
            (undecided_testing cl n r (release_token F cb t) y p)))
        y

  pub full_testing :
      (cl : Option (Option Error → Bool)) (n : ℕ) (cb : CircuitBreaker F)
      → 0 < n
      → IsTesting cl n 0 cb
      → at_capacity F cb ≡ true
  unfolding at_capacity
  full_testing cl n cb p x =
      let requests = x.requests in
      let admissions = x.admissions in let enough = x.enough in ground arith

  incr-pos : (i : ℕ) → i < 2147483647 → incr (pos i) ≡ pos (suc i)
  unfolding ◌+ℤ◌ i32
  incr-pos i h = ground arith

  -- Where the limit is not reached, it is above the number of admissions, and else they are equal.
  room_testing :
      (cl : Option (Option Error → Bool)) (n r : ℕ) (cb : CircuitBreaker F)
      (x : IsTesting cl n r cb)
      → at_capacity F cb ≡ false
      → 0 < n
      → x.total < n
  unfolding at_capacity
  room_testing cl n r cb x room p =
      let requests = x.requests in let admissions = x.admissions in ground arith

  spent_testing :
      (cl : Option (Option Error → Bool)) (n r : ℕ) (cb : CircuitBreaker F)
      (x : IsTesting cl n r cb)
      → at_capacity F cb ≡ true
      → n ≤ x.total
  unfolding at_capacity
  spent_testing cl n r cb x full =
      let requests = x.requests in let admissions = x.admissions in ground arith

  -- A request brings the limit nearer, whether it is admitted or rejected.
  pub begun-IsTesting :
      (cl : Option (Option Error → Bool)) (n r : ℕ) (cb : CircuitBreaker F) (now : ℕ)
      → IsTesting cl n r cb
      → 0 < n
      → n ≤ 2147483647
      → IsTesting cl n (r - 1) (begin_execute F cb now).0
  unfolding begin_execute count_start admit_half_open
  begun-IsTesting cl n r cb now x p m = elim (Bool-cases (at_capacity F cb)) [
    | inl full ↦
        let spent = spent_testing cl n r cb x full in
        rw (start_half_open F cb now x.free x.half) (
          rw full (record {
            free = record { not_closed = x.free.not_closed; not_open = x.free.not_open };
            half = x.half;
            requests = x.requests;
            classifies = x.classifies;
            no_success = x.no_success;
            no_failure = x.no_failure;
            total = x.total;
            admissions = x.admissions;
            within = x.within;
            enough = omega arith;
          }))
    | inr room ↦
        let below = room_testing cl n r cb x room p in
        let enough = x.enough in
        rw (start_half_open F cb now x.free x.half) (
          rw room (record {
            free = record { not_closed = x.free.not_closed; not_open = x.free.not_open };
            half = x.half;
            requests = x.requests;
            classifies = x.classifies;
            no_success = x.no_success;
            no_failure = x.no_failure;
            total = suc x.total;
            admissions = ap (λ (z : ℤ). incr z) x.admissions ∙ incr-pos x.total (omega arith);
            within = omega arith;
            enough = omega arith;
          }))
  ]
