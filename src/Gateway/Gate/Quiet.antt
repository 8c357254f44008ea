-- ===== src/Gateway/Gate/Quiet.antt =====
-- The trust gate makes two kinds of calls: it reads a profile and a policy.
use aip_k8s.Prelude.{String, str_eq}
use aip_k8s.Api.Policy.{GovernedResource}
use aip_k8s.Api.Trust.{TrustProfile, GraduationPolicy}
use aip_k8s.Effects.{Outcome, ok, err, is_not_found, wrap_error}
use aip_k8s.Effects.Logic.{
  Keeps, Keeps-invoke, Keeps-bind, Keeps-attempt, Keeps-pure, Keeps-raise, Keeps-if, Keeps-option,
}
use aip_k8s.Gateway.Server.{Server, Call, Trace, get_profile, get_policy, profile_name}
use aip_k8s.Gateway.Gate.{
  below_minimum, profile_level, policy_rights, above_minimum, gate, evaluate_trust_gate,
}

module _ {F : Type 0} (s : Server F) (P : Call → Trace → Type 0) where
  wrap-Keeps :
      {A : Type 0} (m : String) (answer : Outcome A) → Keeps P (λ _. Unit) (wrap_error m answer)
  unfolding wrap_error
  wrap-Keeps m (ok a) = Keeps-pure a
  wrap-Keeps m (err e) = Keeps-raise _

  -- The trust gate only reads.
  module _ (ns agent : String)
      (profiles : (t : Trace) → P (get_profile ns (profile_name s agent)) t)
      (policies : (t : Trace) → P (get_policy ns "default") t) where
    above_minimum-Keeps : (autonomy : String) → Keeps P (λ _. Unit) (above_minimum s ns autonomy)
    unfolding above_minimum policy_rights
    above_minimum-Keeps autonomy =
        Keeps-bind
          (Keeps-attempt (Keeps-invoke (get_policy ns "default") _ (λ t e. policies t) (λ t e. tt)))
          (λ policy. Keeps-bind (rights-Keeps policy) (λ rights. Keeps-pure _))
      where
        rights-Keeps :
            (policy : Outcome (GraduationPolicy F))
            → Keeps P (λ _. Unit) (policy_rights s autonomy policy)
        rights-Keeps (ok policy) = Keeps-pure _
        rights-Keeps (err e) = Keeps-if (is_not_found e) (Keeps-pure _) (wrap-Keeps _ (err e))

    profile_level-Keeps :
        (name : String) (answer : Outcome (TrustProfile F))
        → Keeps P (λ _. Unit) (profile_level s name answer)
    unfolding profile_level
    profile_level-Keeps name (ok profile) = Keeps-pure _
    profile_level-Keeps name (err e) =
        Keeps-if (is_not_found e) (Keeps-pure _) (wrap-Keeps _ (err e))

    pub evaluate_trust_gate-Keeps :
        (mode : String) (gr : GovernedResource)
        → Keeps P (λ _. Unit) (evaluate_trust_gate s ns agent mode gr)
    unfolding evaluate_trust_gate gate
    evaluate_trust_gate-Keeps mode gr = Keeps-option gr.trust_requirements (Keeps-pure _) (λ tr.
        Keeps-if (str_eq mode "observe") (Keeps-pure _) (
          Keeps-bind
            (Keeps-attempt (
              Keeps-invoke (get_profile ns (profile_name s agent)) _ (λ t e. profiles t)
                (λ t e. tt)))
            (λ profile. Keeps-bind (profile_level-Keeps _ profile) (λ level.
              Keeps-option (below_minimum level tr) (above_minimum-Keeps _) (λ m. Keeps-pure _)))))
