-- ===== src/Gateway/Gate/Tests.antt =====
-- A run of the trust gate, and its theorems at that run.
use aip_k8s.Prelude.{ℕ, String, true, false, ◌≡◌, refl, ◌⊎◌, some, [], lookup, has_value}
use aip_k8s.Api.Trust.{trust_level_rank, GraduationPolicy}
use aip_k8s.Effects.{ok, is_not_found, ◌>>=◌}
use aip_k8s.Gateway.Gate.{
  TrustGateResult, evaluate_trust_gate, gate, above_minimum, profile_level, policy_rights,
  below_minimum, effective_autonomy, gate_annotations, bool_to_str, can_execute_key,
  effective_level_key,
}
use aip_k8s.Gateway.Gate.Rules.{
  MeetsMinimum, IsCapped, LetsExecute, policy_read, evaluate_trust_gate-MeetsMinimum,
  evaluate_trust_gate-closed, evaluate_trust_gate-IsCapped,
}
use aip_k8s.Gateway.Samples.{pending_server, sample_requirements, sample_resource}

-- An agent without a profile, and no graduation policy.
abbrev sample_result : TrustGateResult
sample_result = record {
  rejected = false;
  message = "";
  annotations = gate_annotations "Observer" false true;
}

gate_runs :
    (evaluate_trust_gate pending_server "default" "agent" "govern"
      (sample_resource "a" "k8s://x")
      []).0
    ≡ ok sample_result
unfolding evaluate_trust_gate gate above_minimum profile_level policy_rights below_minimum
    effective_autonomy gate_annotations bool_to_str is_not_found trust_level_rank ◌>>=◌
gate_runs = refl

evaluate_trust_gate-MeetsMinimum_example : MeetsMinimum sample_requirements "Observer"
evaluate_trust_gate-MeetsMinimum_example =
    evaluate_trust_gate-MeetsMinimum pending_server "default" "agent" [] "govern"
      (sample_resource "a" "k8s://x") sample_requirements sample_result refl refl gate_runs refl

evaluate_trust_gate-closed_example :
    (has_value sample_result.annotations can_execute_key "false" ≡ true)
    ⊎ ((p : GraduationPolicy ℕ) × (policy_read pending_server "default" "agent" [] ≡ ok p)
        × LetsExecute (effective_autonomy "Observer" sample_requirements) p.levels)
evaluate_trust_gate-closed_example =
    evaluate_trust_gate-closed pending_server "default" "agent" [] "govern"
      (sample_resource "a" "k8s://x") sample_requirements sample_result refl refl gate_runs refl

evaluate_trust_gate-IsCapped_example :
    (a : String) × (lookup effective_level_key sample_result.annotations ≡ some a)
    × IsCapped "Observer" sample_requirements a
evaluate_trust_gate-IsCapped_example =
    evaluate_trust_gate-IsCapped pending_server "default" "agent" [] "govern"
      (sample_resource "a" "k8s://x") sample_requirements sample_result refl refl gate_runs refl
