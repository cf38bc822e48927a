-- ===== src/Orchestration/Engine/Workflow.antt =====
-- The definition of a workflow, its validation and its graph: `validateWorkflow`,
-- `validateHITLConfig` and `buildDAG` of orchestration/workflow_engine.go.
pub mod Building
pub mod Outcome
use gomind.Base.{
  ℕ, Bool, true, false, ◌&&◌, Option, none, some, List, [], ◌∷◌, ◌++◌, String, if◌then◌else◌, not,
}
use gomind.Base.Int.{ℤ, pos, ltb_ℤ}
use text.Mathlib.Text.{◌==◌}
use gomind.Orchestration.Engine.{StepDefinition}
use gomind.Orchestration.Dag.{WorkflowDag, contains, add_node, new_workflow_dag}
use gomind.Orchestration.Dag.Validation.{Verdict, valid, validate}

-- A step's name, its dependencies, what its execution reads, and the timeouts of its two
-- configurations, where it has them.
pub record WorkflowStep : Type 0 where
  pub name : String
  pub depends_on : List String
  pub definition : StepDefinition
  pub approval_timeout : Option ℤ
  pub validation_timeout : Option ℤ

-- `on_error` is the strategy of the error handler, and `hitl` the default timeout, where they are
-- configured.
pub record Workflow : Type 0 where
  pub name : String
  pub steps : List WorkflowStep
  pub on_error : Option String
  pub hitl : Option ℤ

pub data Validation : Type 0 where
  accepted name_required step_required : Validation
  duplicate_step : String → Validation
  unknown_dependency : String → String → Validation
  negative_default_timeout : Validation
  negative_approval_timeout negative_validation_timeout : String → Validation

abbrev pub is_negative : Option ℤ → Bool
is_negative none = false
is_negative (some t) = ltb_ℤ t (pos 0)

-- The loop that fills `stepNames`; `names` are its keys so far.
unfoldable pub duplicate_among : List String → List WorkflowStep → Option String
unfolding contains
duplicate_among names [] = none
duplicate_among names (step ∷ rest) =
    let later = duplicate_among (step.name ∷ names) rest in
    if contains names step.name then some step.name else later

unfoldable pub step_names : List WorkflowStep → List String
step_names [] = []
step_names (step ∷ rest) = step.name ∷ step_names rest

unfoldable pub unknown_among : List String → List String → Option String
unfolding contains
unknown_among names [] = none
unknown_among names (dep ∷ deps) =
    let rest = unknown_among names deps in if contains names dep then rest else some dep

abbrev pub or_unknown : String → Option String → Validation → Validation
or_unknown name none later = later
or_unknown name (some dep) later = unknown_dependency name dep

unfoldable pub check_known : List String → List WorkflowStep → Validation → Validation
unfolding unknown_among
check_known names [] later = later
check_known names (step ∷ rest) later =
    or_unknown step.name (unknown_among names step.depends_on) (check_known names rest later)

unfoldable pub check_timeouts : List WorkflowStep → Validation
check_timeouts [] = accepted
check_timeouts (step ∷ rest) =
    let later = check_timeouts rest in
    if step.definition.require_approval && is_negative step.approval_timeout
    then negative_approval_timeout step.name
    else if step.definition.validate_output && is_negative step.validation_timeout
    then negative_validation_timeout step.name
    else later

unfoldable pub validate_hitl_config : Workflow → Validation
unfolding check_timeouts
validate_hitl_config w =
    if is_negative w.hitl then negative_default_timeout else check_timeouts w.steps

abbrev pub is_empty : List WorkflowStep → Bool
is_empty [] = true
is_empty (step ∷ rest) = false

abbrev pub or_duplicate : Option String → Validation → Validation
or_duplicate none later = later
or_duplicate (some name) later = duplicate_step name

unfoldable pub validate_workflow : Workflow → Validation
unfolding duplicate_among check_known step_names validate_hitl_config
validate_workflow w =
    if w.name == ""
    then name_required
    else if is_empty w.steps
    then step_required
    else or_duplicate (duplicate_among [] w.steps)
        (check_known (step_names w.steps) w.steps (validate_hitl_config w))

unfoldable pub add_steps : WorkflowDag → List WorkflowStep → WorkflowDag
unfolding add_node
add_steps d [] = d
add_steps d (step ∷ rest) = add_steps (add_node d step.name step.depends_on) rest

pub data Built : Type 0 where
  built : WorkflowDag → Built
  refused : Verdict → Built

abbrev pub built_if_valid : WorkflowDag → Verdict → Built
built_if_valid d valid = built d
built_if_valid d verdict = refused verdict

unfoldable pub build_dag : List WorkflowStep → Built
unfolding add_steps validate new_workflow_dag
build_dag steps = let d = add_steps new_workflow_dag steps in built_if_valid d (validate d)
