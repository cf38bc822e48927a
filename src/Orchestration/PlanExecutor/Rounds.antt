-- ===== src/Orchestration/PlanExecutor/Rounds.antt =====
-- The rule for the loop of `Execute`: an invariant that batches and skips keep, and enough fuel.
use gomind.Base.{
  ℕ, zero, suc, ◌<◌, ◌≡◌, refl, inl, inr, Bool, true, false, Option, List, [], ◌∷◌, String,
  if_cases, length, ltb, arith, Option-cases,
}
use gomind.Base.Panic.{Returns}
use gomind.Orchestration.Dag.Names.{In}
use gomind.Orchestration.PlanExecutor.{
  RoutingStep, StepResult, Environment, Progress, Outcome, finished, interrupted,
  no_executable_steps, cancelled, find_ready_steps, skip_blocked, run_batch, after_batch,
  after_skips, after_search, rounds, first_checkpoint, completed_but, is_empty,
}
use gomind.Orchestration.PlanExecutor.Missing.{
  missing, missing-lt, IsReady, find_ready_steps-IsReady, run_batch-Includes, run_batch-executed,
  skip_blocked-Includes, skip_blocked-missing,
}

-- A batch finishes in some order: its steps, all of them and no others.
abbrev pub KeepsBatches : {S : Type 0} → Environment S → Type 0
KeepsBatches {S} env =
    (batch : List RoutingStep) (s : S) (x : RoutingStep)
    → (In x batch → In x (env.finishing_order batch s))
      × (In x (env.finishing_order batch s) → In x batch)

module _ {S : Type 0} (env : Environment S) (plan : List RoutingStep) (Inv : Progress → S → Type 0)
    (Safe : S → Type 0) where
  abbrev pub batch_of : Progress → S → RoutingStep → List RoutingStep → Progress × S
  batch_of p s step rest = run_batch env p.step_results (env.finishing_order (step ∷ rest) s) p s

  pub record Keeps : Type 0 where
    pub safe : (p : Progress) (s : S) → Inv p s → Safe s
    pub updates :
        (p : Progress) (s : S) (id : String) (done : List StepResult)
        → Inv p s
        → Safe (env.update_checkpoint_progress id done s)
    pub batches :
        (p : Progress) (s : S) (batch : List RoutingStep)
        → ((x : RoutingStep) → In x batch → IsReady plan p x)
        → Inv p s
        → Inv (run_batch env p.step_results batch p s).0 (run_batch env p.step_results batch p s).1
    pub skips : (p : Progress) (s : S) → Inv p s → Inv (skip_blocked plan p).0 s

  -- The end of the loop.
  abbrev pub Ends : S × Outcome → Type 0
  Ends (s, finished p) = Inv p s × (ltb (length p.executed) (length plan) ≡ false)
  Ends (s, interrupted id) = Safe s
  Ends (s, no_executable_steps) = Safe s
  Ends (s, cancelled e) = Safe s

  module _ (k : Keeps) (orders : KeepsBatches env) where
    after_batch_rule :
        (again : Progress → S → Option (S × Outcome)) (p : Progress) (s : S)
        → Inv p s
        → Returns Ends (again p s)
        → Returns Ends (after_batch env again (p, s))
    unfolding after_batch
    after_batch_rule again p s i go = elim (Option-cases (first_checkpoint p.steps)) [
      | inr ((id, step_id), e) ↦
          rw (e, after_batch)
            (if_cases Safe (is_empty (completed_but step_id p.steps)) (λ _. k.safe p s i)
              (λ _. k.updates p s id (completed_but step_id p.steps) i))
      | inl quiet ↦ elim (Option-cases (env.context_error s)) [
        | inl live ↦ rw (quiet, after_batch, live) go
        | inr (e, done) ↦ rw (quiet, after_batch, done) (k.safe p s i)
      ]
    ]

    after_skips_rule :
        (again : Progress → S → Option (S × Outcome)) (s : S) (r : Progress × Bool)
        → Safe s
        → (r.1 ≡ true → Returns Ends (again r.0 s))
        → Returns Ends (after_skips env again s r)
    unfolding after_skips
    after_skips_rule again s (p, true) safe go = go refl
    after_skips_rule again s (p, false) safe go = safe

    after_search_rule :
        (again : Progress → S → Option (S × Outcome)) (p : Progress) (s : S)
        (ready : List RoutingStep)
        → Inv p s
        → ((x : RoutingStep) → In x ready → IsReady plan p x)
        → ((p' : Progress) (s' : S)
            → Inv p' s'
            → missing p'.executed plan < missing p.executed plan
            → Returns Ends (again p' s'))
        → Returns Ends (after_search env again plan p s ready)
    unfolding after_search
    after_search_rule again p s [] i ready go =
        let r = skip_blocked plan p in
        after_skips_rule again s r (k.safe p s i) (λ some_skipped.
          let (t, there, new, done) = skip_blocked-missing plan p some_skipped in
          go r.0 s (k.skips p s i) (
            missing-lt p.executed r.0.executed plan t (skip_blocked-Includes plan p) there new
              done))
    after_search_rule again p s (step ∷ rest) i ready go =
        let order = env.finishing_order (step ∷ rest) s in
        let all_ready : (x : RoutingStep) → In x order → IsReady plan p x =
          λ x j. ready x ((orders (step ∷ rest) s x).1 j) in
        let r = run_batch env p.step_results order p s in
        let kept : Inv r.0 r.1 = k.batches p s order all_ready i in
        let (there, new, deps) = ready step (inl refl) in
        let less =
          missing-lt p.executed r.0.executed plan step
            (run_batch-Includes env p.step_results order p s) there new
            (run_batch-executed env p.step_results order p s step
              ((orders (step ∷ rest) s step).0 (inl refl))) in
        after_batch_rule again r.0 r.1 kept (go r.0 r.1 kept less)

    -- With more fuel than there are missing steps, the loop ends, and as it should.
    pub rounds_rule :
        (fuel : ℕ) (p : Progress) (s : S)
        → missing p.executed plan < fuel
        → Inv p s
        → Returns Ends (rounds env fuel plan p s)
    unfolding rounds
    rounds_rule zero p s enough i = absurd (omega arith)
    rounds_rule (suc fuel) p s enough i =
        if_cases (Returns Ends) (ltb (length p.executed) (length plan))
          (λ _.
            after_search_rule (rounds env fuel plan) p s (find_ready_steps plan p) i
              (find_ready_steps-IsReady plan p)
              (λ p' s' j less. rounds_rule fuel p' s' (omega arith) j))
          (λ full. (i, full))
