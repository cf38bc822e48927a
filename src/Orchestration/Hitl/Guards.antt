-- ===== src/Orchestration/Hitl/Guards.antt =====
-- What the rules mean for sensitive steps, and for the checkpoints that nobody answers.
use gomind.Base.{
  ◌≡◌, ◌≢◌, refl, inl, inr, Bool, true, false, ◌||◌, Option, none, some, List, [], ◌∷◌, String,
  if◌then◌else◌, Bool-cases, arith, ap, ◌∙◌,
}
use gomind.Orchestration.Dag.Names.{In}
use gomind.Orchestration.PlanExecutor.{RoutingStep}
use gomind.Orchestration.Hitl.{
  CommandType, approve, reject, InterruptDecision, RoutingPlan, ExecutionCheckpoint,
  is_resumable_status,
}
use gomind.Orchestration.Hitl.Store.{Client}
use gomind.Orchestration.Hitl.Expiry.{Processor, applied_action, expired_status, action_or}
use gomind.Orchestration.Hitl.Commands.{expired_status-resumable}
use gomind.Orchestration.Hitl.Policy.{
  HitlConfig, is_sensitive_agent, is_sensitive_capability, is_step_sensitive_agent,
  is_step_sensitive_capability, has_capability, get_default_action, interrupt_with, no_interrupt,
  is_sensitive_step, has_sensitive_ops, should_approve_plan, should_approve_before_step,
}

-- The decision stops the execution; and a checkpoint that it leads to and nobody answers may not be
-- resumed.
abbrev pub Guards :
    {S : Type 0} → Client S → Processor S → ExecutionCheckpoint → InterruptDecision → Type 0
Guards client processor cp d =
    (d.should_interrupt ≡ true)
    × (is_resumable_status (
          expired_status client processor
            (applied_action client processor (record cp { decision = some d })))
        ≡ false)

action_or_lem : (a : Option CommandType) → a ≢ some approve → action_or a reject ≢ approve
action_or_lem none silent e = absurd (cc)
action_or_lem (some action) silent e = silent (ap some e)

has_sensitive_ops-In :
    (config : HitlConfig) (step : RoutingStep) (steps : List RoutingStep)
    → In step steps
    → is_sensitive_step config step ≡ true
    → has_sensitive_ops config steps ≡ true
unfolding has_sensitive_ops
has_sensitive_ops-In config step [] i h = absurd i
has_sensitive_ops-In config step (s ∷ rest) (inl e) h =
    let first : is_sensitive_step config s ≡ true = ap (is_sensitive_step config) e ∙ h in
    ground arith
has_sensitive_ops-In config step (s ∷ rest) (inr i) h =
    let later = has_sensitive_ops-In config step rest i h in ground arith

not_resumable : (b : Bool) → (b ≡ true → ⊥) → b ≡ false
not_resumable true h = absurd (h refl)
not_resumable false h = refl

has_capability_mono :
    (f g : String → Bool) (o : Option String)
    → has_capability f o ≡ true
    → has_capability (λ c. f c || g c) o ≡ true
has_capability_mono f g none h = h
has_capability_mono f g (some c) h = rw h refl

either_rule :
    (a b : Bool) (x y : InterruptDecision)
    → (a || b) ≡ true
    → (if a then x else if b then x else y) ≡ x
either_rule true b x y h = refl
either_rule false true x y h = refl
either_rule false false x y h = absurd (cc)

or_left : (a b c : Bool) → a ≡ true → ((a || b) || c) ≡ true
or_left a b c h = rw h refl

or_right : (a b : Bool) → b ≡ true → (a || b) ≡ true
or_right true b h = refl
or_right false b h = h

should_approve_before_step_lem :
    (config : HitlConfig) (step : RoutingStep)
    → is_sensitive_step config step ≡ true
    → should_approve_before_step config step ≡ interrupt_with (get_default_action config)
unfolding should_approve_before_step is_sensitive_step
should_approve_before_step_lem config step h =
    let agent = is_sensitive_agent config step.agent_name in
    let more = is_step_sensitive_agent config step.agent_name in
    let capability =
      has_capability
        (λ c. is_sensitive_capability config c || is_step_sensitive_capability config c)
        step.capability in
    either_rule (agent || more) capability (interrupt_with (get_default_action config)) no_interrupt
      (elim (Bool-cases agent) [
        | inl e ↦ or_left agent more capability e
        | inr e ↦ or_right (agent || more) capability (
            has_capability_mono (is_sensitive_capability config)
              (is_step_sensitive_capability config) step.capability (ground (arith, h, e)))
      ])

abbrev action_in : Option InterruptDecision → Option CommandType
action_in none = none
action_in (some d) = d.default_action

action_of :
    (action : CommandType) (d : InterruptDecision)
    → Path (Option InterruptDecision) (some (interrupt_with action)) (some d)
    → d.default_action ≡ some approve
    → action ≡ approve
unfolding interrupt_with
action_of action d same approves =
    let e : Path (Option CommandType) (some action) (some approve) = ap action_in same ∙ approves in
    cc

module _ {S : Type 0} (client : Client S) (processor : Processor S) (cp : ExecutionCheckpoint) where
  interrupt_with-Guards :
      (action : CommandType) → action ≢ approve → Guards client processor cp (interrupt_with action)
  unfolding interrupt_with
  interrupt_with-Guards action silent = (
    refl,
    not_resumable
        (is_resumable_status (
          expired_status client processor (
            applied_action client processor
              (record cp { decision = some (interrupt_with action) }))))
        (λ h.
          let (d, same, approves) =
            expired_status-resumable client processor
              (record cp { decision = some (interrupt_with action) }) h in
          silent (action_of action d same approves)),
  )

  -- Where the configuration does not name approval as the default action, the policy decides to
  -- interrupt a plan that holds a sensitive step, and to interrupt before that step; and a checkpoint
  -- with either decision that nobody answers is given, at its expiry, a status that may not be
  -- resumed. It is about the decisions of the policy, which a plan that is resumed does not ask for.
  pub sensitive_steps_wait :
      (config : HitlConfig) (plan : RoutingPlan) (step : RoutingStep)
      → config.default_action ≢ some approve
      → In step plan.steps
      → is_sensitive_step config step ≡ true
      → Guards client processor cp (should_approve_plan config plan)
        × Guards client processor cp (should_approve_before_step config step)
  unfolding should_approve_plan get_default_action
  sensitive_steps_wait config plan step silent i h =
      let waits : Guards client processor cp (interrupt_with (get_default_action config)) =
        interrupt_with-Guards (get_default_action config)
          (action_or_lem config.default_action silent) in
      let in_plan : has_sensitive_ops config plan.steps ≡ true =
        has_sensitive_ops-In config step plan.steps i h in
      (rw in_plan waits, rw (should_approve_before_step_lem config step h) waits)
