-- ===== src/Orchestration/Hitl/Policy.antt =====
-- The rules that stop plans and steps for a human, of orchestration/hitl_policy.go.
use gomind.Base.{
  Bool, true, false, ◌&&◌, ◌||◌, Option, none, some, List, [], ◌∷◌, String, if◌then◌else◌,
}
use gomind.Base.Int.{ℤ, pos, ltb_ℤ, leb_ℤ}
use gomind.Orchestration.PlanExecutor.{RoutingStep}
use gomind.Orchestration.Hitl.{
  CommandType, reject, abort, not_set, no_behavior, InterruptDecision, RoutingPlan,
}
use gomind.Orchestration.Hitl.Expiry.{action_or}
use text.Mathlib.Text.{◌==◌}

-- Of the configuration, what the rules read.
pub record HitlConfig : Type 0 where
  pub require_plan_approval : Bool
  pub sensitive_capabilities : List String
  pub sensitive_agents : List String
  pub step_sensitive_capabilities : List String
  pub step_sensitive_agents : List String
  pub escalate_after_retries : ℤ
  pub default_action : Option CommandType

unfoldable pub is_listed : List String → String → Bool
is_listed [] name = false
is_listed (sensitive ∷ rest) name = sensitive == name || is_listed rest name

unfoldable pub is_sensitive_agent : HitlConfig → String → Bool
unfolding is_listed
is_sensitive_agent config name = is_listed config.sensitive_agents name

unfoldable pub is_sensitive_capability : HitlConfig → String → Bool
unfolding is_listed
is_sensitive_capability config capability = is_listed config.sensitive_capabilities capability

unfoldable pub is_step_sensitive_agent : HitlConfig → String → Bool
unfolding is_listed
is_step_sensitive_agent config name = is_listed config.step_sensitive_agents name

unfoldable pub is_step_sensitive_capability : HitlConfig → String → Bool
unfolding is_listed
is_step_sensitive_capability config capability =
    is_listed config.step_sensitive_capabilities capability

-- A test of the capability, where the metadata has one.
abbrev pub has_capability : (String → Bool) → Option String → Bool
has_capability test none = false
has_capability test (some capability) = test capability

unfoldable pub get_default_action : HitlConfig → CommandType
get_default_action config = action_or config.default_action reject

unfoldable pub interrupt_with : CommandType → InterruptDecision
interrupt_with action = record {
  should_interrupt = true;
  default_action = some action;
  default_request_mode = not_set;
  streaming_expiry_behavior = no_behavior;
  non_streaming_expiry_behavior = no_behavior;
}

unfoldable pub no_interrupt : InterruptDecision
no_interrupt = record {
  should_interrupt = false;
  default_action = none;
  default_request_mode = not_set;
  streaming_expiry_behavior = no_behavior;
  non_streaming_expiry_behavior = no_behavior;
}

unfoldable pub is_sensitive_step : HitlConfig → RoutingStep → Bool
unfolding is_sensitive_agent is_sensitive_capability
is_sensitive_step config step =
    is_sensitive_agent config step.agent_name
    || has_capability (is_sensitive_capability config) step.capability

-- `hasSensitiveOps` after the loop over the steps.
unfoldable pub has_sensitive_ops : HitlConfig → List RoutingStep → Bool
unfolding is_sensitive_step
has_sensitive_ops config [] = false
has_sensitive_ops config (step ∷ rest) =
    is_sensitive_step config step || has_sensitive_ops config rest

unfoldable pub should_approve_plan : HitlConfig → RoutingPlan → InterruptDecision
unfolding has_sensitive_ops get_default_action interrupt_with no_interrupt
should_approve_plan config plan =
    if has_sensitive_ops config plan.steps
    then interrupt_with (get_default_action config)
    else if config.require_plan_approval
    then interrupt_with (get_default_action config)
    else no_interrupt

unfoldable pub should_approve_before_step : HitlConfig → RoutingStep → InterruptDecision
unfolding is_sensitive_agent is_step_sensitive_agent is_sensitive_capability
    is_step_sensitive_capability get_default_action interrupt_with no_interrupt
should_approve_before_step config step =
    if is_sensitive_agent config step.agent_name || is_step_sensitive_agent config step.agent_name
    then interrupt_with (get_default_action config)
    else if has_capability
        (λ c. is_sensitive_capability config c || is_step_sensitive_capability config c)
        step.capability
    then interrupt_with (get_default_action config)
    else no_interrupt

unfoldable pub requires_output_validation : String → Bool
requires_output_validation capability = false

unfoldable pub should_approve_after_step : HitlConfig → RoutingStep → InterruptDecision
unfolding requires_output_validation get_default_action interrupt_with no_interrupt
should_approve_after_step config step =
    if has_capability requires_output_validation step.capability
    then interrupt_with (get_default_action config)
    else no_interrupt

unfoldable pub should_escalate_error : HitlConfig → ℤ → InterruptDecision
unfolding interrupt_with no_interrupt
should_escalate_error config attempts =
    if ltb_ℤ (pos 0) config.escalate_after_retries && leb_ℤ config.escalate_after_retries attempts
    then interrupt_with abort
    else no_interrupt
