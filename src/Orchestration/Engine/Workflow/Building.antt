-- ===== src/Orchestration/Engine/Workflow/Building.antt =====
-- `buildDAG`, of a workflow that `validateWorkflow` has accepted.
use gomind.Base.{
  ◌≡◌, refl, inl, inr, Bool, true, false, Option, none, some, List, [], ◌∷◌, ◌++◌, ◌||◌, ◌&&◌,
  String, arith, ap, sym, ◌∙◌, subst, Bool-cases, All,
}
use text.Mathlib.Text.{◌==◌}
use text.Mathlib.TextEquality.{eq_iff}
use gomind.Orchestration.Dag.{DagNode, WorkflowDag, contains, add_node}
use gomind.Orchestration.Dag.Names.{In, contains→In, In→contains}
use gomind.Orchestration.Dag.Marks.{waits}
use gomind.Orchestration.Dag.Validation.Links.{has, depends, IsLinked, contains-snoc}
use gomind.Orchestration.Dag.Validation.Building.{add_node-IsLinked}
use gomind.Orchestration.Dag.Validation.Adding.{keys, contains-keys, add_node-Adds}
use gomind.Orchestration.Engine.Workflow.{
  WorkflowStep, Workflow, Validation, accepted, duplicate_among, step_names, unknown_among,
  check_known, or_unknown, or_duplicate, validate_workflow, validate_hitl_config, is_empty,
  add_steps,
}

unfoldable pub step_depends : List WorkflowStep → String → String → Bool
unfolding contains
step_depends [] a b = false
step_depends (step ∷ rest) a b =
    ((step.name == b) && contains step.depends_on a) || step_depends rest a b

-- The graph has, besides what `before` has, a pending node for each step.
pub record Mirrors (steps : List WorkflowStep) (before after : WorkflowDag) : Type 0 where
  pub named : keys after.nodes ≡ keys before.nodes ++ step_names steps
  pub depending :
      (a b : String) → depends after.nodes a b ≡ depends before.nodes a b || step_depends steps a b
  pub waiting : (k : String) → waits after.nodes k ≡ has after.nodes k
  pub linked : IsLinked after.nodes

append_assoc : (xs ys zs : List String) → (xs ++ ys) ++ zs ≡ xs ++ (ys ++ zs)
append_assoc [] ys zs = refl
append_assoc (x ∷ xs) ys zs = ap (λ l. x ∷ l) (append_assoc xs ys zs)

append_nil : (xs : List String) → xs ≡ xs ++ []
append_nil [] = refl
append_nil (x ∷ xs) = ap (λ l. x ∷ l) (append_nil xs)

has-snoc :
    (before after : List (String × DagNode)) (id k : String)
    → keys after ≡ keys before ++ id ∷ []
    → has after k ≡ has before k || (id == k)
has-snoc before after id k e =
    sym (contains-keys after k)
    ∙ ap (λ ks. contains ks k) e
    ∙ contains-snoc (keys before) id k
    ∙ ap (λ b. b || (id == k)) (contains-keys before k)

pub add_steps-Mirrors :
    (steps : List WorkflowStep) (names : List String) (d : WorkflowDag)
    → duplicate_among names steps ≡ none
    → ((k : String) → contains names k ≡ has d.nodes k)
    → ((k : String) → waits d.nodes k ≡ has d.nodes k)
    → IsLinked d.nodes
    → Mirrors steps d (add_steps d steps)
unfolding add_steps step_names step_depends duplicate_among contains
add_steps-Mirrors [] names d fresh same waiting linked = record {
  named = append_nil (keys d.nodes);
  depending = λ a b. ground arith;
  waiting = waiting;
  linked = linked;
}
add_steps-Mirrors (step ∷ rest) names d fresh same waiting linked =
    elim (Bool-cases (contains names step.name)) [
      | inl old ↦ absurd (ground arith)
      | inr new ↦
          let next = add_node d step.name step.depends_on in
          let new' : has d.nodes step.name ≡ false = sym (same step.name) ∙ new in
          let a = add_node-Adds step.name step.depends_on d new' in
          let seen = λ (k : String). has-snoc d.nodes next.nodes step.name k a.more_keys in
          let m =
            add_steps-Mirrors rest (step.name ∷ names) next (ground arith)
              (λ k. ground (arith, seen k, same k))
              (λ k. ground (arith, a.more_waits k, seen k, waiting k))
              (add_node-IsLinked d step.name step.depends_on) in
          record {
            named =
                m.named
                ∙ ap (λ ks. ks ++ step_names rest) a.more_keys
                ∙ append_assoc (keys d.nodes) (step.name ∷ []) (step_names rest);
            depending = λ x y. ground (arith, m.depending x y, a.more_depends x y);
            waiting = m.waiting;
            linked = m.linked;
          }
    ]

-- A step named `b` lists `a` among the names it depends on.
abbrev pub StepDependsOn : List WorkflowStep → String → String → Type 0
StepDependsOn steps b a =
    (step : WorkflowStep) × In step steps × (step.name ≡ b) × In a step.depends_on

pub step_depends-In :
    (steps : List WorkflowStep) (a b : String)
    → step_depends steps a b ≡ true
    → StepDependsOn steps b a
unfolding step_depends
step_depends-In [] a b h = cc
step_depends-In (step ∷ rest) a b h =
    elim (Bool-cases ((step.name == b) && contains step.depends_on a)) [
      | inl found ↦ (
        step,
        inl refl,
        (eq_iff step.name b).0 (ground arith),
        contains→In step.depends_on a (ground arith),
      )
      | inr missed ↦
          let (s, i, named, d) = step_depends-In rest a b (ground arith) in (s, inr i, named, d)
    ]

pub In-step_depends :
    (steps : List WorkflowStep) (a b : String) (step : WorkflowStep)
    → In step steps
    → step.name ≡ b
    → In a step.depends_on
    → step_depends steps a b ≡ true
unfolding step_depends
In-step_depends [] a b step i named d = absurd i
In-step_depends (s ∷ rest) a b step (inl e) named d =
    let same = (eq_iff s.name b).1 (ap (λ (x : WorkflowStep). x.name) e ∙ named) in
    let listed : contains s.depends_on a ≡ true =
      subst (λ (x : WorkflowStep). contains x.depends_on a ≡ true) (sym e)
        (In→contains step.depends_on a d) in
    ground arith
In-step_depends (s ∷ rest) a b step (inr i) named d =
    ground (arith, In-step_depends rest a b step i named d)

abbrev pub AreKnown : List String → List String → Type 0
AreKnown names deps = All (λ dep. contains names dep ≡ true) deps

unknown_among-AreKnown :
    (names deps : List String) → unknown_among names deps ≡ none → AreKnown names deps
unfolding unknown_among
unknown_among-AreKnown names [] h = tt
unknown_among-AreKnown names (dep ∷ deps) h = elim (Bool-cases (contains names dep)) [
  | inl known ↦ (known, unknown_among-AreKnown names deps (ground arith))
  | inr unknown ↦ absurd (ground arith)
]

or_unknown-accepted :
    (name : String) (o : Option String) (later : Validation)
    → or_unknown name o later ≡ accepted
    → (o ≡ none) × (later ≡ accepted)
or_unknown-accepted name none later h = (refl, h)
or_unknown-accepted name (some dep) later h = absurd (cc)

or_duplicate-accepted :
    (o : Option String) (later : Validation)
    → or_duplicate o later ≡ accepted
    → (o ≡ none) × (later ≡ accepted)
or_duplicate-accepted none later h = (refl, h)
or_duplicate-accepted (some name) later h = absurd (cc)

check_known-AreKnown :
    (names : List String) (steps : List WorkflowStep) (later : Validation)
    → check_known names steps later ≡ accepted
    → All (λ (step : WorkflowStep). AreKnown names step.depends_on) steps
unfolding check_known
check_known-AreKnown names [] later h = tt
check_known-AreKnown names (step ∷ rest) later h =
    let (known, then') =
      or_unknown-accepted step.name (unknown_among names step.depends_on)
        (check_known names rest later) h in
    (
      unknown_among-AreKnown names step.depends_on known,
      check_known-AreKnown names rest later then',
    )

pub validate_workflow-accepted :
    (w : Workflow)
    → validate_workflow w ≡ accepted
    → (duplicate_among [] w.steps ≡ none)
      × All (λ (step : WorkflowStep). AreKnown (step_names w.steps) step.depends_on) w.steps
unfolding validate_workflow
validate_workflow-accepted w h = elim (Bool-cases (w.name == "")) [
  | inl empty ↦ absurd (ground arith)
  | inr named ↦ elim (Bool-cases (is_empty w.steps)) [
    | inl empty ↦ absurd (ground arith)
    | inr some' ↦
        let rest = check_known (step_names w.steps) w.steps (validate_hitl_config w) in
        let (new, then') = or_duplicate-accepted (duplicate_among [] w.steps) rest (ground arith) in
        (new, check_known-AreKnown (step_names w.steps) w.steps (validate_hitl_config w) then')
  ]
]
