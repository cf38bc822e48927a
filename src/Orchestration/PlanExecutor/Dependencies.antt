-- ===== src/Orchestration/PlanExecutor/Dependencies.antt =====
-- A step is executed only after the steps that it depends on, and with their results.
use gomind.Base.{
  ◌++◌, if_cases, suc, ◌≡◌, refl, inl, inr, true, some, List, [], ◌∷◌, String, length, arith, All,
  Bool-cases,
}
use text.Mathlib.Text.{◌==◌}
use gomind.Base.Panic.{Returns-mono, Returns}
use gomind.Orchestration.Dag.Names.{In}
use gomind.Orchestration.PlanExecutor.{
  interrupted, no_executable_steps, cancelled, cancelled, interrupted, RoutingStep, StepResult,
  Environment, Progress, Outcome, finished, contains, lookup, insert, put, add_result,
  add_completed, nothing_done, all_deps_ready, add_skipped, skip_blocked, run_batch, execute,
  skipped_result, is_skippable,
}
use gomind.Orchestration.PlanExecutor.Missing.{missing-length, IsReady}
use gomind.Orchestration.PlanExecutor.Rounds.{Keeps, Ends, KeepsBatches, rounds_rule}

-- The environment with a log of the steps that were executed, with the results that they saw.
abbrev pub Log : Type 0
Log = List (RoutingStep × List (String × StepResult))

unfoldable pub logged : {S : Type 0} → Environment S → Environment (S × Log)
logged env = record {
  execute_step = λ step results (s, log).
      let (ran, result) = env.execute_step step results s in ((ran, (step, results) ∷ log), result);
  finishing_order = λ batch (s, log). env.finishing_order batch s;
  update_checkpoint_progress = λ id done (s, log). (env.update_checkpoint_progress id done s, log);
  context_error = λ (s, log). env.context_error s;
}

-- A result of this name is there, and is a success.
abbrev pub Succeeded : List (String × StepResult) → String → Type 0
Succeeded results dep = (r : StepResult) × (lookup dep results ≡ some r) × (r.success ≡ true)

abbrev pub SawItsDependencies : RoutingStep × List (String × StepResult) → Type 0
SawItsDependencies (step, results) = All (Succeeded results) step.depends_on

-- Every executed name has a result.
abbrev HasResults : Progress → Type 0
HasResults p =
    (k : String)
    → contains p.executed k ≡ true
    → (r : StepResult) × (lookup k p.step_results ≡ some r)

recorded :
    (k : String) (r : StepResult) (ks : List String) (results : List (String × StepResult))
    → ((x : String) → contains ks x ≡ true → (y : StepResult) × (lookup x results ≡ some y))
    → (x : String) → contains (insert k ks) x ≡ true
    → (y : StepResult) × (lookup x (put k r results) ≡ some y)
unfolding insert put contains lookup
recorded k r ks results h x i = elim (Bool-cases (k == x)) [
  | inl e ↦ (r, rw e)
  | inr e ↦ let (y, l) = h x (ground arith) in (y, ground arith)
]

all_deps_ready-Succeeded :
    (p : Progress) (deps : List String)
    → HasResults p
    → all_deps_ready p deps ≡ true
    → All (Succeeded p.step_results) deps
unfolding all_deps_ready
all_deps_ready-Succeeded p [] h r = tt
all_deps_ready-Succeeded p (dep ∷ deps) h r =
    let (y, l) = h dep (ground arith) in
    ((y, l, ground arith), all_deps_ready-Succeeded p deps h (ground arith))

add_result-HasResults :
    (k : String) (r : StepResult) (p : Progress) → HasResults p → HasResults (add_result k r p)
unfolding add_result
add_result-HasResults k r p h = recorded k r p.executed p.step_results h

skip_blocked-HasResults :
    (plan : List RoutingStep) (p : Progress) → HasResults p → HasResults (skip_blocked plan p).0
unfolding skip_blocked add_skipped
skip_blocked-HasResults [] p h = h
skip_blocked-HasResults (s ∷ rest) p h = skip_blocked-HasResults rest (add_skipped p s) (
    if_cases HasResults (is_skippable p s)
      (λ _. add_result-HasResults s.step_id (skipped_result s) p h) (λ _. h))

add_completed-HasResults :
    (completed : List (String × StepResult)) (p : Progress)
    → HasResults p
    → HasResults (add_completed completed p)
unfolding add_completed
add_completed-HasResults [] p h = h
add_completed-HasResults ((k, r) ∷ rest) p h =
    add_completed-HasResults rest
      (record p {
        executed = insert k p.executed;
        step_results = put k r p.step_results;
        steps = p.steps ++ r ∷ [];
      })
      (recorded k r p.executed p.step_results h)

abbrev AreLogged : {S : Type 0} → S × Log → Type 0
AreLogged (s, log) = All SawItsDependencies log

abbrev pub IsConsistent : {S : Type 0} → Progress → S × Log → Type 0
IsConsistent p sl = HasResults p × AreLogged sl

module _ {S : Type 0} (env : Environment S) (plan : List RoutingStep) where
  run_batch-IsConsistent :
      (first : Progress) (batch : List RoutingStep) (p : Progress) (s : S) (log : Log)
      → HasResults first
      → ((x : RoutingStep) → In x batch → IsReady plan first x)
      → IsConsistent p (s, log)
      → IsConsistent
          (run_batch (logged env) first.step_results batch p (s, log)).0
          (run_batch (logged env) first.step_results batch p (s, log)).1
  unfolding run_batch logged
  run_batch-IsConsistent first [] p s log f ready c = c
  run_batch-IsConsistent first (step ∷ rest) p s log f ready c =
      let r = env.execute_step step first.step_results s in
      let (there, new, deps) = ready step (inl refl) in
      run_batch-IsConsistent first rest (add_result step.step_id r.1 p) r.0
        ((step, first.step_results) ∷ log) f (λ x i. ready x (inr i))
        (
          add_result-HasResults step.step_id r.1 p c.0,
          (all_deps_ready-Succeeded first step.depends_on f deps, c.1),
        )

  logged-Keeps : Keeps (logged env) plan IsConsistent AreLogged
  unfolding logged
  logged-Keeps = record {
    safe = λ p (s, log) c. c.1;
    updates = λ p (s, log) id done c. c.1;
    batches = λ p (s, log) batch ready c. run_batch-IsConsistent p batch p s log c.0 ready c;
    skips = λ p (s, log) c. (skip_blocked-HasResults plan p c.0, c.1);
  }

  logged-KeepsBatches : KeepsBatches env → KeepsBatches (logged env)
  unfolding logged
  logged-KeepsBatches orders batch (s, log) x = orders batch s x

  abbrev pub EndsLogged : (S × Log) × Outcome → Type 0
  EndsLogged ((s, log), outcome) = All SawItsDependencies log

  -- `Execute` ends on every plan, with cycles, repeated names and unknown dependencies too, whatever
  -- the steps do and in whatever order a batch finishes. Every step that it has executed by then was
  -- given, for each step that it depends on, a result that is a success.
  pub execute-EndsLogged :
      (completed : List (String × StepResult)) (s : S)
      → KeepsBatches env
      → Returns EndsLogged (execute (logged env) plan completed (s, []))
  unfolding execute
  execute-EndsLogged completed s orders =
      let start = add_completed completed nothing_done in
      let few = missing-length start.executed plan in
      Returns-mono (Ends (logged env) plan IsConsistent AreLogged) EndsLogged
        (execute (logged env) plan completed (s, []))
        (rounds_rule (logged env) plan IsConsistent AreLogged logged-Keeps
          (logged-KeepsBatches orders) (suc (length plan)) start (s, []) (omega arith)
          (
            add_completed-HasResults completed nothing_done (λ k h. absurd (unfold contains in cc)),
            tt,
          ))
        ended
    where
      ended :
          (r : (S × Log) × Outcome) → Ends (logged env) plan IsConsistent AreLogged r → EndsLogged r
      ended (s, finished p) h = h.0.1
      ended (s, interrupted id) h = h
      ended (s, no_executable_steps) h = h
      ended (s, cancelled e) h = h
