-- ===== src/Evaluation.antt =====
-- internal/evaluation/evaluator.go: `Evaluate` and `evaluateCascade`.
pub mod Cel
pub mod State
pub mod Strictest
pub mod Effects
pub mod Loops
pub mod Order
pub mod Outcome
pub mod Tests
use aip_k8s.Prelude.{
  String, true, false, Option, none, some, List, [], ◌∷◌, str_eq, str_append, ltb, if◌then◌else◌,
  deref_or, lookup, ◌&&◌, not,
}
use aip_k8s.Api.Policy.{
  Action, allow, log, require_approval, deny, action_name, FailureMode, fail_closed, fail_open,
  Rule, SafetyPolicy, PolicyResult,
}
use aip_k8s.Api.Request.{AgentRequest, AffectedTarget, TargetContext, empty_context}
use Cel.{CelEnv, CelResult, value, failure}
use State.{Result, Eval, start, action_priority, raise_deny, append_result}

abbrev pub policy_violation : String
policy_violation = "POLICY_VIOLATION"

abbrev pub evaluation_failure : String
evaluation_failure = "EVALUATION_FAILURE"

abbrev pub cascade_denied : String
cascade_denied = "CASCADE_DENIED"

abbrev pub failure_mode_of : SafetyPolicy → FailureMode
failure_mode_of p = deref_or p.failure_mode fail_closed

abbrev pub result_for : SafetyPolicy → Rule → String → PolicyResult
result_for p r result = record { policy_name = p.name; rule_name = r.name; result = result }

-- "<prefix><policy> rule: <rule>"
abbrev by_policy : String → SafetyPolicy → Rule → String
by_policy prefix p r = str_append prefix (str_append p.name (str_append " rule: " r.name))

-- The branch `err != nil`.
rule_failed : SafetyPolicy → Rule → String → FailureMode → Eval → Eval
unfolding raise_deny append_result
rule_failed p r err fail_closed e =
    append_result (result_for p r "EvaluationFailed (Deny)")
      (raise_deny evaluation_failure (str_append "CEL evaluation failed (FailClosed): " err) e)
rule_failed p r err fail_open e = append_result (result_for p r "EvaluationFailed") e

-- The `switch rule.Action` on the code and the message.
explain : SafetyPolicy → Rule → Action → Eval → Eval
explain p r deny e = record e {
  denial_code = policy_violation;
  final_message = deref_or r.message (by_policy "Denied by policy: " p r);
}
explain p r require_approval e = record e {
  final_message = deref_or r.message (by_policy "Approval required by policy: " p r);
}
explain p r allow e = e
explain p r log e = e

-- `if match { … }`: a rule of a higher priority decides.
rule_matched : SafetyPolicy → Rule → Eval → Eval
unfolding explain action_priority
rule_matched p r e =
    if ltb e.highest_priority (action_priority r.action)
    then explain p r r.action
        (record e { highest_priority = action_priority r.action; action = r.action })
    else e

-- Results "Allow" and "" are not recorded.
keep_result : PolicyResult → Eval → Eval
unfolding append_result
keep_result pr e =
    if not (str_eq pr.result "Allow") && not (str_eq pr.result "") then append_result pr e else e

rule_outcome : SafetyPolicy → Rule → CelResult → Eval → Eval
unfolding rule_failed rule_matched keep_result
rule_outcome p r (failure err) e = rule_failed p r err (failure_mode_of p) e
rule_outcome p r (value true) e =
    keep_result (result_for p r (action_name r.action)) (rule_matched p r e)
rule_outcome p r (value false) e = keep_result (result_for p r "Allow") e

cascade_failed : SafetyPolicy → Rule → String → FailureMode → Eval → Eval
unfolding raise_deny append_result
cascade_failed p r err fail_closed e =
    append_result (result_for p r "EvaluationFailed (Cascade Deny)") (
      raise_deny evaluation_failure (str_append "Cascade CEL evaluation failed (FailClosed): " err)
        e)
cascade_failed p r err fail_open e = e

-- `match && rule.Action == ResultDeny`.
cascade_matched : SafetyPolicy → Rule → Action → Eval → Eval
unfolding raise_deny append_result
cascade_matched p r deny e =
    append_result (result_for p r "CascadeDeny")
      (raise_deny cascade_denied (by_policy "Cascade effect denied by policy: " p r) e)
cascade_matched p r _ e = e

-- The body of the cascade loop for one rule.
cascade_outcome : SafetyPolicy → Rule → CelResult → Eval → Eval
unfolding cascade_failed cascade_matched
cascade_outcome p r (failure err) e = cascade_failed p r err (failure_mode_of p) e
cascade_outcome p r (value true) e = cascade_matched p r r.action e
cascade_outcome p r (value false) e = e

-- The assignments to `result` after the loops.
finish : Eval → Result
finish e = record {
  action = e.action;
  code = elim e.action [ deny ↦ e.denial_code | _ ↦ "" ];
  message = elim e.action [
    | deny ↦ e.final_message
    | require_approval ↦ e.final_message
    | allow ↦ if str_eq e.final_message "" then "All policies passed" else ""
    | log ↦ ""
  ];
  policy_results = e.policy_results;
}

unparsable : Result
unparsable = record {
  action = deny;
  code = evaluation_failure;
  message = "Failed to parse AgentRequest variables for evaluation";
  policy_results = [];
}

module _ (env : CelEnv) where
  open env use {Vars, request_vars, cascade_vars, evaluate_expression}

  pub eval_rules : SafetyPolicy → Vars → List Rule → Eval → Eval
  eval_rules p vars [] e = e
  eval_rules p vars (r ∷ rs) e =
      eval_rules p vars rs (rule_outcome p r (evaluate_expression r.expression vars) e)

  pub eval_policies : Vars → List SafetyPolicy → Eval → Eval
  eval_policies vars [] e = e
  eval_policies vars (p ∷ ps) e = eval_policies vars ps (eval_rules p vars p.rules e)

  pub cascade_rules : SafetyPolicy → Vars → List Rule → Eval → Eval
  cascade_rules p vars [] e = e
  cascade_rules p vars (r ∷ rs) e =
      cascade_rules p vars rs (cascade_outcome p r (evaluate_expression r.expression vars) e)

  pub cascade_policies : Vars → List SafetyPolicy → Eval → Eval
  cascade_policies vars [] e = e
  cascade_policies vars (p ∷ ps) e = cascade_policies vars ps (cascade_rules p vars p.rules e)

  -- The fetched state of a cascade target, or the empty one.
  abbrev pub target_state : List (String × TargetContext) → AffectedTarget → TargetContext
  target_state ctxs a = deref_or (lookup a.uri ctxs) empty_context

  pub cascade_targets :
      List (String × TargetContext) → List SafetyPolicy → List AffectedTarget → Eval → Eval
  cascade_targets ctxs ps [] e = e
  cascade_targets ctxs ps (a ∷ as') e =
      cascade_targets ctxs ps as' (cascade_policies (cascade_vars a (target_state ctxs a)) ps e)

  pub evaluate_cascade :
      AgentRequest → List SafetyPolicy → List (String × TargetContext) → Eval → Eval
  evaluate_cascade req ps ctxs e = elim req.spec.cascade_model [
    | none ↦ e
    | some targets ↦
        if str_eq req.spec.action "escalate" then e else cascade_targets ctxs ps targets e
  ]

  pub evaluate :
      AgentRequest
      → List SafetyPolicy
      → Option TargetContext
      → List (String × TargetContext)
      → Result
  unfolding finish unparsable
  evaluate req ps target ctxs = elim (request_vars req target) [
    | none ↦ unparsable
    | some vars ↦ finish (evaluate_cascade req ps ctxs (eval_policies vars ps start))
  ]
