-- ===== src/Evaluation/Tests.antt =====
-- Runs of the evaluator on sample policies.
use mathlib.Core.List.Permᴰ
use aip_k8s.Prelude.{
  ◌≤◌, ◌<◌, String, true, none, some, List, [], ◌∷◌, ◌≡◌, ◌↔◌, refl, any, length, str_eq,
}
use aip_k8s.Api.Policy.{Action, allow, deny, log, require_approval, SafetyPolicy}
use aip_k8s.Api.Request.{pending, AgentRequest}
use aip_k8s.Api.Samples.{sample_request, sample_policy}
use aip_k8s.Evaluation.{evaluate}
use aip_k8s.Evaluation.Cel.{CelEnv, value}
use aip_k8s.Evaluation.State.{action_priority}
use aip_k8s.Evaluation.Effects.{
  demands, policy_demands, rule_demands, effect, cascade_demands, target_demands, judged_targets,
}
use aip_k8s.Evaluation.Strictest.{join, is_deny}
use aip_k8s.Evaluation.Outcome.{
  IsCodeOf, evaluate-strictest, evaluate-deny, evaluate-perm, evaluate-le-cons, evaluate-IsCodeOf,
  evaluate-explained,
}

-- An expression holds if it is the action of the request.
abbrev env : CelEnv
env = record {
  Vars = String;
  request_vars = λ req target. some req.spec.action;
  cascade_vars = λ a c. a.effect_type;
  evaluate_expression = λ e vars. value (str_eq e vars);
}

abbrev req : AgentRequest
req = sample_request pending

abbrev logging : SafetyPolicy
logging = sample_policy "logging" log "scale"

abbrev guard : SafetyPolicy
guard = sample_policy "guard" deny "scale"

abbrev other : SafetyPolicy
other = sample_policy "other" require_approval "delete"

abbrev policies : List SafetyPolicy
policies = logging ∷ guard ∷ other ∷ []

-- The second policy denies the action of the request.
denied_action : (evaluate env req policies none []).action ≡ deny
unfolding demands policy_demands rule_demands effect cascade_demands judged_targets target_demands
denied_action = (evaluate-deny env req none [] {vars = "scale"} policies refl).1 refl

denied_not_allowed : {a : Action} → a ≡ allow → a ≡ deny → ⊥
denied_not_allowed p q = cc

evaluate-strictest_example :
    (evaluate env req policies none []).action ≡ join allow (demands env "scale" req [] policies)
evaluate-strictest_example = evaluate-strictest env req none [] {vars = "scale"} policies refl

evaluate-deny_example :
    ((evaluate env req policies none []).action ≡ deny)
    ↔ (any is_deny (demands env "scale" req [] policies) ≡ true)
evaluate-deny_example = evaluate-deny env req none [] {vars = "scale"} policies refl

evaluate-le-cons_example :
    action_priority (evaluate env req (logging ∷ []) none []).action
    ≤ action_priority (evaluate env req (guard ∷ logging ∷ []) none []).action
evaluate-le-cons_example = evaluate-le-cons env req none [] guard (logging ∷ [])

evaluate-IsCodeOf_example :
    IsCodeOf (evaluate env req policies none []).action (evaluate env req policies none []).code
evaluate-IsCodeOf_example = evaluate-IsCodeOf env req none [] policies

evaluate-perm_example :
    (evaluate env req (logging ∷ guard ∷ []) none []).action
    ≡ (evaluate env req (guard ∷ logging ∷ []) none []).action
evaluate-perm_example =
    evaluate-perm env req none [] {ps = logging ∷ guard ∷ []} {qs = guard ∷ logging ∷ []}
      ∣ Permᴰ.swap refl refl ∣₁

evaluate-explained_example : 0 < length (evaluate env req policies none []).policy_results
evaluate-explained_example =
    evaluate-explained env req none [] {vars = "scale"} policies refl
      (λ h. denied_not_allowed h denied_action)
