-- ===== src/Evaluation/Effects.antt =====
-- What each rule asks for, independently of the loops of evaluator.go.
use aip_k8s.Prelude.{String, true, false, none, some, List, [], ◌∷◌, ◌++◌, str_eq, if◌then◌else◌}
use aip_k8s.Api.Policy.{
  Action, allow, deny, FailureMode, fail_closed, fail_open, Rule, SafetyPolicy,
}
use aip_k8s.Api.Request.{AgentRequest, AffectedTarget, TargetContext}
use aip_k8s.Evaluation.{failure_mode_of, target_state}
use aip_k8s.Evaluation.Cel.{CelEnv, CelResult, value, failure}

abbrev pub on_failure : FailureMode → Action
on_failure fail_closed = deny
on_failure fail_open = allow

-- A matching rule asks for its action; a failing one denies unless its policy fails open.
unfoldable pub effect : SafetyPolicy → Rule → CelResult → Action
effect p r (failure err) = on_failure (failure_mode_of p)
effect p r (value true) = r.action
effect p r (value false) = allow

abbrev pub only_deny : Action → Action
only_deny deny = deny
only_deny _ = allow

-- On a cascade target only denials count.
unfoldable pub cascade_effect : SafetyPolicy → Rule → CelResult → Action
cascade_effect p r (failure err) = on_failure (failure_mode_of p)
cascade_effect p r (value true) = only_deny r.action
cascade_effect p r (value false) = allow

-- An escalation is judged on its own target alone.
unfoldable pub judged_targets : AgentRequest → List AffectedTarget
judged_targets req = elim req.spec.cascade_model [
  | none ↦ []
  | some targets ↦ if str_eq req.spec.action "escalate" then [] else targets
]

module _ (env : CelEnv) where
  open env use {Vars, cascade_vars, evaluate_expression}

  unfoldable pub rule_demands :
      (SafetyPolicy → Rule → CelResult → Action) → Vars → SafetyPolicy → List Rule → List Action
  rule_demands eff vars p [] = []
  rule_demands eff vars p (r ∷ rs) =
      eff p r (evaluate_expression r.expression vars) ∷ rule_demands eff vars p rs

  unfoldable pub policy_demands :
      (SafetyPolicy → Rule → CelResult → Action) → Vars → List SafetyPolicy → List Action
  policy_demands eff vars [] = []
  policy_demands eff vars (p ∷ ps) = rule_demands eff vars p p.rules ++ policy_demands eff vars ps

  unfoldable pub target_demands :
      List (String × TargetContext) → List SafetyPolicy → List AffectedTarget → List Action
  target_demands ctxs ps [] = []
  target_demands ctxs ps (a ∷ as') =
      policy_demands cascade_effect (cascade_vars a (target_state env ctxs a)) ps
      ++ target_demands ctxs ps as'

  unfoldable pub cascade_demands :
      AgentRequest → List (String × TargetContext) → List SafetyPolicy → List Action
  unfolding judged_targets
  cascade_demands req ctxs ps = target_demands ctxs ps (judged_targets req)

  -- All that the rules ask for, in the order in which the loops meet it.
  unfoldable pub demands :
      Vars → AgentRequest → List (String × TargetContext) → List SafetyPolicy → List Action
  demands vars req ctxs ps = policy_demands effect vars ps ++ cascade_demands req ctxs ps
