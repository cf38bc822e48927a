-- ===== src/Orchestration/PlanExecutor/Coverage.antt =====
-- When `Execute` finishes, it has a result for each step of the plan.
use gomind.Base.{
  suc, ◌+◌, ◌≤◌, ◌≡◌, refl, inl, inr, true, List, [], ◌∷◌, ◌++◌, String, if_cases, length, arith,
  All, subst,
}
use gomind.Base.Panic.{Returns, Returns-mono}
use gomind.Orchestration.Dag.Names.{In}
use gomind.Orchestration.PlanExecutor.{
  RoutingStep, StepResult, Environment, Progress, Outcome, finished, interrupted,
  no_executable_steps, cancelled, contains, insert, put, add_result, add_completed, nothing_done,
  add_skipped, skip_blocked, run_batch, execute, is_skippable,
}
use gomind.Orchestration.PlanExecutor.Missing.{
  missing, missing-length, missing-nil, none_missing, length-insert-missing,
}
use gomind.Orchestration.PlanExecutor.Rounds.{Keeps, Ends, KeepsBatches, rounds_rule}

-- The executed names are names of the plan, each once: they leave room for the missing steps.
abbrev HasRoom : List RoutingStep → Progress → Type 0
HasRoom plan p = length p.executed + missing p.executed plan ≤ length plan

-- The name of a step of the plan.
abbrev pub IsNamed : List RoutingStep → String × StepResult → Type 0
IsNamed plan e = (s : RoutingStep) × In s plan × (s.step_id ≡ e.0)

inserted-HasRoom :
    (plan : List RoutingStep) (s : RoutingStep) (ks : List String)
    → In s plan
    → length ks + missing ks plan ≤ length plan
    → length (insert s.step_id ks) + missing (insert s.step_id ks) plan ≤ length plan
inserted-HasRoom plan s ks i h = omega (arith, length-insert-missing s ks plan i)

skip_blocked-HasRoom :
    (plan rest : List RoutingStep) (p : Progress)
    → ((x : RoutingStep) → In x rest → In x plan)
    → HasRoom plan p
    → HasRoom plan (skip_blocked rest p).0
unfolding skip_blocked add_skipped add_result
skip_blocked-HasRoom plan [] p within h = h
skip_blocked-HasRoom plan (s ∷ rest) p within h =
    skip_blocked-HasRoom plan rest (add_skipped p s) (λ x i. within x (inr i))
      (if_cases (HasRoom plan) (is_skippable p s)
        (λ _. inserted-HasRoom plan s p.executed (within s (inl refl)) h) (λ _. h))

add_completed-HasRoom :
    (plan : List RoutingStep) (completed : List (String × StepResult)) (p : Progress)
    → All (IsNamed plan) completed
    → HasRoom plan p
    → HasRoom plan (add_completed completed p)
unfolding add_completed
add_completed-HasRoom plan [] p named h = h
add_completed-HasRoom plan ((k, r) ∷ rest) p ((s, i, e), named) h =
    add_completed-HasRoom plan rest
      (record p {
        executed = insert k p.executed;
        step_results = put k r p.step_results;
        steps = p.steps ++ r ∷ [];
      })
      named
      (subst
        (λ (j : String).
          length (insert j p.executed) + missing (insert j p.executed) plan ≤ length plan)
        e (inserted-HasRoom plan s p.executed i h))

module _ {S : Type 0} (env : Environment S) (plan : List RoutingStep) where
  run_batch-HasRoom :
      (before : List (String × StepResult)) (batch : List RoutingStep) (p : Progress) (s : S)
      → ((x : RoutingStep) → In x batch → In x plan)
      → HasRoom plan p
      → HasRoom plan (run_batch env before batch p s).0
  unfolding run_batch add_result
  run_batch-HasRoom before [] p s within h = h
  run_batch-HasRoom before (step ∷ rest) p s within h =
      let r = env.execute_step step before s in
      run_batch-HasRoom before rest (add_result step.step_id r.1 p) r.0 (λ x i. within x (inr i))
        (inserted-HasRoom plan step p.executed (within step (inl refl)) h)

  abbrev KeepsRoom : Progress → S → Type 0
  KeepsRoom p s = HasRoom plan p

  abbrev AnyState : S → Type 0
  AnyState s = Unit

  room-Keeps : Keeps env plan KeepsRoom AnyState
  room-Keeps = record {
    safe = λ p s h. tt;
    updates = λ p s id done h. tt;
    batches =
        λ p s batch ready h. run_batch-HasRoom p.step_results batch p s (λ x i. (ready x i).0) h;
    skips = λ p s h. skip_blocked-HasRoom plan plan p (λ x i. i) h;
  }

  -- Where `Execute` finishes, each step of the plan is executed or skipped.
  abbrev pub Covers : S × Outcome → Type 0
  Covers (s, finished p) =
      (step : RoutingStep) → In step plan → contains p.executed step.step_id ≡ true
  Covers (s, interrupted id) = Unit
  Covers (s, no_executable_steps) = Unit
  Covers (s, cancelled e) = Unit

  full-Covers : (r : S × Outcome) → Ends env plan KeepsRoom AnyState r → Covers r
  full-Covers (s, finished p) h =
      λ step i. none_missing p.executed plan step (ground (arith, h.0, h.1)) i
  full-Covers (s, interrupted id) h = tt
  full-Covers (s, no_executable_steps) h = tt
  full-Covers (s, cancelled e) h = tt

  -- `Execute` ends; and where it finishes, with neither an interrupt nor an error, every step of the
  -- plan has been executed or skipped, provided that the results that it starts from are of steps of
  -- the plan.
  pub execute-Covers :
      (completed : List (String × StepResult)) (s : S)
      → KeepsBatches env
      → All (IsNamed plan) completed
      → Returns Covers (execute env plan completed s)
  unfolding execute
  execute-Covers completed s orders named =
      let start = add_completed completed nothing_done in
      let few = missing-length start.executed plan in
      let room = missing-nil plan in
      Returns-mono (Ends env plan KeepsRoom AnyState) Covers (execute env plan completed s)
        (rounds_rule env plan KeepsRoom AnyState room-Keeps orders (suc (length plan)) start s
          (omega arith) (add_completed-HasRoom plan completed nothing_done named (omega arith)))
        full-Covers
