-- ===== src/Tests/PlanRuns.antt =====
-- The execution of plans at concrete inputs.
use gomind.Base.{inl, inr, ℕ, suc, ◌≡◌, refl, true, Option, none, some, List, [], ◌∷◌, String, not}
use gomind.Base.Panic.{Returns}
use gomind.Orchestration.PlanExecutor.{
  cancelled, interrupted, Outcome, RoutingStep, StepResult, Environment, finished,
  no_executable_steps, execute,
}
use gomind.Orchestration.PlanExecutor.Dependencies.{logged, EndsLogged, execute-EndsLogged}
use gomind.Orchestration.PlanExecutor.Coverage.{Covers, execute-Covers}
use text.Mathlib.Text.{◌==◌}

abbrev step : String → List String → RoutingStep
step name deps = record {
  step_id = name;
  agent_name = "agent";
  depends_on = deps;
  capability = none;
}

-- A step "bad" fails; the others succeed. The state counts the executed steps.
abbrev one_fails : Environment ℕ
one_fails = record {
  execute_step = λ s results n. (
    suc n,
    record {
      step_id = s.step_id;
      success = not (s.step_id == "bad");
      error = "";
      checkpoint = none;
    },
  );
  finishing_order = λ batch n. batch;
  update_checkpoint_progress = λ id done n. n;
  context_error = λ n. none;
}

abbrev fetch_then_report : List RoutingStep
fetch_then_report =
    step "report" ("fetch" ∷ []) ∷ step "after" ("bad" ∷ []) ∷ step "fetch" [] ∷ step "bad" [] ∷ []

abbrev steps_and_names : Option (ℕ × Outcome) → ℕ × List String
steps_and_names none = (0, [])
steps_and_names (some (n, finished p)) = (n, p.executed)
steps_and_names (some (n, interrupted id)) = (n, id ∷ [])
steps_and_names (some (n, no_executable_steps)) = (n, [])
steps_and_names (some (n, cancelled e)) = (n, [])

-- "after" is skipped.
three_run :
    steps_and_names (execute one_fails fetch_then_report [] 0)
    ≡ (3, "after" ∷ "report" ∷ "bad" ∷ "fetch" ∷ [])
unfolding execute
three_run = refl

abbrev cycle : List RoutingStep
cycle = step "a" ("b" ∷ []) ∷ step "b" ("a" ∷ []) ∷ []

cycle_found : execute one_fails cycle [] 0 ≡ some (0, no_executable_steps)
unfolding execute
cycle_found = refl

-- Two steps of one name both run, and count as one.
repeated_name :
    execute one_fails (step "a" [] ∷ step "a" [] ∷ []) [] 0 ≡ some (2, no_executable_steps)
unfolding execute
repeated_name = refl

execute-EndsLogged_example :
    Returns
      (EndsLogged one_fails fetch_then_report)
      (execute (logged one_fails) fetch_then_report [] (0, []))
execute-EndsLogged_example =
    execute-EndsLogged one_fails fetch_then_report [] 0 (λ batch s x. ((λ i. i), (λ i. i)))

abbrev fetched : StepResult
fetched = record { step_id = "fetch"; success = true; error = ""; checkpoint = none }

execute-Covers_example :
    Returns
      (Covers one_fails fetch_then_report)
      (execute one_fails fetch_then_report (("fetch", fetched) ∷ []) 0)
execute-Covers_example =
    execute-Covers one_fails fetch_then_report (("fetch", fetched) ∷ []) 0
      (λ batch s x. ((λ i. i), (λ i. i))) ((step "fetch" [], inr (inr (inl refl)), refl), tt)
