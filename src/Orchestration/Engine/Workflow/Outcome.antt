-- ===== src/Orchestration/Engine/Workflow/Outcome.antt =====
-- What `buildDAG` makes of a workflow that `validateWorkflow` has accepted.
use gomind.Base.{◌≡◌, refl, ◌⊎◌, inl, inr, ◌↔◌, true, none, List, [], String, ap, sym, ◌∙◌, All}
use gomind.Orchestration.Dag.{WorkflowDag, contains, lookup, new_workflow_dag}
use gomind.Orchestration.Dag.Names.{All-In}
use gomind.Orchestration.Dag.Marks.{dependents_of, waits}
use gomind.Orchestration.Dag.Ready.{IsNode, HasClosedEdges}
use gomind.Orchestration.Dag.Validation.{
  Verdict, valid, circular, non_existent, verdict_panics, verdict_out_of_fuel, validate,
}
use gomind.Orchestration.Dag.Validation.Walks.{Edge, HasCycle}
use gomind.Orchestration.Dag.Validation.Links.{has_dependent, depends}
use gomind.Orchestration.Dag.Validation.Building.{
  IsLinked-iff, IsLinked-HasLinks, depends-In, In-depends, is_there-IsNode,
}
use gomind.Orchestration.Dag.Validation.Adding.{keys, contains-keys}
use gomind.Orchestration.Dag.Validation.Deciding.{IsAcyclic, HasOrder, IsRight, validate-IsRight}
use gomind.Orchestration.Engine.Workflow.{
  WorkflowStep, Workflow, accepted, duplicate_among, step_names, validate_workflow, add_steps,
  built, refused, build_dag, built_if_valid,
}
use gomind.Orchestration.Engine.Workflow.Building.{
  Mirrors, add_steps-Mirrors, StepDependsOn, step_depends-In, In-step_depends, AreKnown,
  validate_workflow-accepted,
}

-- What `buildDAG` does with the steps; `d` is the graph that it validates.
pub record IsGraphOf (w : Workflow) (d : WorkflowDag) : Type 0 where
  pub named : keys d.nodes ≡ step_names w.steps
  pub waiting : (k : String) → waits d.nodes k ≡ contains (step_names w.steps) k
  pub mirrored : (a b : String) → Edge d.nodes a b ↔ StepDependsOn w.steps b a
  pub outcome :
      ((build_dag w.steps ≡ built d)
        × IsAcyclic d.nodes
        × HasOrder d.nodes
        × All (HasClosedEdges d.nodes) d.nodes)
      ⊎ ((build_dag w.steps ≡ refused circular) × HasCycle d.nodes)

module _ (w : Workflow)
    (known : All (λ (step : WorkflowStep). AreKnown (step_names w.steps) step.depends_on) w.steps)
    (d : WorkflowDag) (m : Mirrors w.steps new_workflow_dag d) where
  contains-IsNode : (a : String) → contains (step_names w.steps) a ≡ true → IsNode d.nodes a
  unfolding new_workflow_dag keys
  contains-IsNode a h =
      is_there-IsNode d.nodes a
        (sym (contains-keys d.nodes a) ∙ ap (λ ks. contains ks a) m.named ∙ h)

  pub depends_step : (a b : String) → depends d.nodes a b ≡ true → StepDependsOn w.steps b a
  unfolding new_workflow_dag depends
  depends_step a b h = step_depends-In w.steps a b (sym (m.depending a b) ∙ h)

  pub StepDependsOn-known : (a b : String) → StepDependsOn w.steps b a → IsNode d.nodes a
  StepDependsOn-known a b (step, i, e, listed) =
      let all =
        All-In (λ (s : WorkflowStep). AreKnown (step_names w.steps) s.depends_on) w.steps step known
          i in
      contains-IsNode a
        (All-In (λ dep. contains (step_names w.steps) dep ≡ true) step.depends_on a all listed)

  pub steps-mirrored : (a b : String) → Edge d.nodes a b ↔ StepDependsOn w.steps b a
  unfolding new_workflow_dag depends
  steps-mirrored a b = (
    λ e.
        let (there, (n, i, l)) = (IsLinked-iff d.nodes a b m.linked).0 e in
        depends_step a b (In-depends d.nodes a b n i l),
    λ s.
        let (step, i, named, l) = s in
        (IsLinked-iff d.nodes a b m.linked).1 (
          StepDependsOn-known a b s,
          depends-In d.nodes a b (m.depending a b ∙ In-step_depends w.steps a b step i named l),
        ),
  )

  verdict-outcome :
      (v : Verdict)
      → validate d ≡ v
      → IsRight d.nodes v
      → build_dag w.steps ≡ built_if_valid d v
      → ((build_dag w.steps ≡ built d)
          × IsAcyclic d.nodes
          × HasOrder d.nodes
          × All (HasClosedEdges d.nodes) d.nodes)
        ⊎ ((build_dag w.steps ≡ refused circular) × HasCycle d.nodes)
  verdict-outcome valid e (acyclic, ordered, closed) b = inl (b, acyclic, ordered, closed)
  verdict-outcome circular e cycle b = inr (b, cycle)
  verdict-outcome (non_existent k dep) e (acyclic, (n, i, l), absent) b =
      absurd
        (absent (StepDependsOn-known dep k (depends_step dep k (In-depends d.nodes dep k n i l))))
  verdict-outcome verdict_panics e wrong b = absurd wrong
  verdict-outcome verdict_out_of_fuel e wrong b = absurd wrong

pub new-Mirrors :
    (steps : List WorkflowStep)
    → duplicate_among [] steps ≡ none
    → Mirrors steps new_workflow_dag (add_steps new_workflow_dag steps)
unfolding waits has_dependent lookup contains depends dependents_of new_workflow_dag
new-Mirrors steps new =
    add_steps-Mirrors steps [] new_workflow_dag new (λ k. refl) (λ k. refl) (λ a b. refl)

built_if_valid-graph : (d e : WorkflowDag) (v : Verdict) → built_if_valid d v ≡ built e → d ≡ e
built_if_valid-graph d e valid h = cc
built_if_valid-graph d e circular h = absurd (cc)
built_if_valid-graph d e (non_existent k dep) h = absurd (cc)
built_if_valid-graph d e verdict_panics h = absurd (cc)
built_if_valid-graph d e verdict_out_of_fuel h = absurd (cc)

pub build_dag-graph :
    (steps : List WorkflowStep) (d : WorkflowDag)
    → build_dag steps ≡ built d
    → add_steps new_workflow_dag steps ≡ d
unfolding build_dag
build_dag-graph steps d h =
    built_if_valid-graph (add_steps new_workflow_dag steps) d
      (validate (add_steps new_workflow_dag steps)) h

-- The graph of a workflow that `validateWorkflow` accepts has one pending node for each step, and
-- an edge exactly where a step names another among its dependencies. `buildDAG` returns it where
-- it has no cycle, and then its nodes can be ordered and all its dependencies are nodes; otherwise there is a cycle, and
-- circular dependencies are reported.
pub validated_workflow-builds :
    (w : Workflow) → validate_workflow w ≡ accepted → (d : WorkflowDag) × IsGraphOf w d
unfolding build_dag keys new_workflow_dag
validated_workflow-builds w h =
    let (new, known) = validate_workflow-accepted w h in
    let d = add_steps new_workflow_dag w.steps in
    let m = new-Mirrors w.steps new in
    (
      d,
      record {
        named = m.named;
        waiting =
            λ k. m.waiting k ∙ sym (contains-keys d.nodes k) ∙ ap (λ ks. contains ks k) m.named;
        mirrored = steps-mirrored w known d m;
        outcome =
            verdict-outcome w known d m (validate d) refl
              (validate-IsRight d (IsLinked-HasLinks d.nodes m.linked)) refl;
      },
    )
