-- ===== src/Orchestration/Engine/Run/Fresh.antt =====
-- The graph that `buildDAG` returns for a workflow which `validateWorkflow` accepts.
use gomind.Base.{
  ◌+◌, ◌≤◌, ◌≡◌, refl, ◌↔◌, inl, inr, false, List, [], ◌∷◌, String, arith, none, Bool-cases, subst,
  sym, All,
}
use text.Mathlib.Text.{◌==◌}
use text.Mathlib.TextEquality.{eq_iff}
use gomind.Orchestration.Dag.{WorkflowDag, contains, new_workflow_dag}
use gomind.Orchestration.Dag.Marks.{waits}
use gomind.Orchestration.Dag.Validation.Walks.{Edge}
use gomind.Orchestration.Dag.Validation.Links.{has}
use gomind.Orchestration.Dag.Validation.Adding.{keys}
use gomind.Orchestration.Dag.Validation.Deciding.{HasOrder}
use gomind.Orchestration.Engine.Workflow.{
  Workflow, WorkflowStep, step_names, duplicate_among, validate_workflow, accepted, build_dag,
  built, add_steps,
}
use gomind.Orchestration.Engine.Workflow.Building.{
  Mirrors, StepDependsOn, validate_workflow-accepted, AreKnown,
}
use gomind.Orchestration.Engine.Workflow.Outcome.{
  new-Mirrors, build_dag-graph, depends_step, StepDependsOn-known, steps-mirrored,
  validated_workflow-builds,
}
use gomind.Orchestration.Engine.Run.Counting.{one_if, count}
use gomind.Orchestration.Engine.Run.Looking.{IsPlan}

distinct_names :
    (names : List String) (steps : List WorkflowStep) (k : String)
    → duplicate_among names steps ≡ none
    → count k (step_names steps) + one_if (contains names k) ≤ 1
unfolding duplicate_among step_names count contains
distinct_names names [] k h = ground arith
distinct_names names (step ∷ rest) k h = elim (Bool-cases (contains names step.name)) [
  | inl old ↦ absurd (ground arith)
  | inr new ↦
      let later = distinct_names (step.name ∷ names) rest k (ground arith) in
      elim (Bool-cases (step.name == k)) [
        | inl e ↦
            let out : contains names k ≡ false =
              subst (λ z. contains names z ≡ false) ((eq_iff step.name k).0 e) new in
            ground arith
        | inr e ↦ ground arith
      ]
]

-- What a graph from `buildDAG` is before anything has run.
pub record IsFresh (w : Workflow) (d : WorkflowDag) : Type 0 where
  pub plan : IsPlan d.nodes
  pub has_order : HasOrder d.nodes
  pub mirrored : (a b : String) → Edge d.nodes a b ↔ StepDependsOn w.steps b a
  pub named : keys d.nodes ≡ step_names w.steps
  pub waiting : (k : String) → waits d.nodes k ≡ has d.nodes k

module _ (w : Workflow)
    (known : All (λ (step : WorkflowStep). AreKnown (step_names w.steps) step.depends_on) w.steps)
    (new : duplicate_among [] w.steps ≡ none)
    (m : Mirrors w.steps new_workflow_dag (add_steps new_workflow_dag w.steps)) where
  abbrev graph : WorkflowDag
  graph = add_steps new_workflow_dag w.steps

  graph-named : keys graph.nodes ≡ step_names w.steps
  unfolding new_workflow_dag keys
  graph-named = m.named

  graph-IsPlan : IsPlan graph.nodes
  graph-IsPlan = record {
    linked = m.linked;
    closed = λ a b h.
        let (n, there) =
          StepDependsOn-known w known graph m a b (depends_step w known graph m a b h) in
        rw there refl;
    once = λ k.
        subst (λ l. count k l ≤ 1) (sym graph-named)
          (let h = distinct_names [] w.steps k new in omega arith);
  }

pub built-IsFresh :
    (w : Workflow) (d : WorkflowDag)
    → validate_workflow w ≡ accepted
    → build_dag w.steps ≡ built d
    → IsFresh w d
built-IsFresh w d ok b =
    let (new, known) = validate_workflow-accepted w ok in
    let m = new-Mirrors w.steps new in
    let (e, g) = validated_workflow-builds w ok in
    elim g.outcome [
      | inr (refused', cycle) ↦ absurd (cc)
      | inl (b', acyclic, ordered, closed) ↦
          let same' = build_dag-graph w.steps e b' in
          let same = build_dag-graph w.steps d b in
          subst (IsFresh w) same (record {
            plan = graph-IsPlan w known new m;
            has_order = subst (λ (x : WorkflowDag). HasOrder x.nodes) (sym same') ordered;
            mirrored = steps-mirrored w known (add_steps new_workflow_dag w.steps) m;
            named = graph-named w known new m;
            waiting = m.waiting;
          })
    ]
