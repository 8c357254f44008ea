-- ===== src/Gateway/Gate.antt =====
-- `evaluateTrustGate` of cmd/gateway/governed_resource.go.
pub mod Quiet
pub mod Rules
mod Tests
use aip_k8s.Prelude.{
  String, Bool, true, false, not, Option, none, some, List, [], ◌∷◌, str_eq, str_append,
  if◌then◌else◌, on_option,
}
use aip_k8s.Api.Policy.{GovernedResource, TrustRequirements}
use aip_k8s.Api.Trust.{
  trust_level_rank, rank_lt, observer_name, GraduationLevel, TrustProfile, GraduationPolicy,
}
use aip_k8s.Effects.{Outcome, ok, err, is_not_found, pure, attempt, wrap_error, ◌>>=◌}
use aip_k8s.Gateway.Server.{Server, M, get_profile_m, get_policy_m, profile_name}

pub record TrustGateResult : Type 0 where
  pub rejected : Bool
  pub message : String
  pub annotations : List (String × String)

-- `trustGateResult{}`
abbrev pub no_gate : TrustGateResult
no_gate = record { rejected = false; message = ""; annotations = [] }

pub rejection : String → TrustGateResult
rejection message = record { rejected = true; message = message; annotations = [] }

abbrev pub effective_level_key : String
effective_level_key = "governance.aip.io/effective-trust-level"

abbrev pub can_execute_key : String
can_execute_key = "governance.aip.io/can-execute"

abbrev pub human_approval_key : String
human_approval_key = "governance.aip.io/requires-human-approval"

pub bool_to_str : Bool → String
bool_to_str true = "true"
bool_to_str false = "false"

-- The level of a profile; a missing level is Observer.
pub level_or_observer : String → String
level_or_observer level = if str_eq level "" then observer_name else level

-- The check of the minimum level: the message of a rejection.
pub below_minimum : String → TrustRequirements → Option String
below_minimum level tr =
    if str_eq tr.min_trust_level ""
    then none
    else on_option (trust_level_rank tr.min_trust_level)
        (some (str_append "GovernedResource has unknown MinTrustLevel: " tr.min_trust_level))
        (λ m.
          if rank_lt (trust_level_rank level) (some m)
          then some (
              str_append "agent trust level " (
                str_append level
                  (str_append " does not meet resource minimum " tr.min_trust_level)))
          else none)

-- The lower of the agent's level and maxAutonomyLevel.
pub effective_autonomy : String → TrustRequirements → String
effective_autonomy level tr =
    on_option (trust_level_rank tr.max_autonomy_level) level
      (λ m. if rank_lt (some m) (trust_level_rank level) then tr.max_autonomy_level else level)

pub gate_annotations : String → Bool → Bool → List (String × String)
gate_annotations autonomy can_execute requires_approval =
    (effective_level_key, autonomy)
    ∷ (if can_execute
        then (human_approval_key, bool_to_str requires_approval)
        else (can_execute_key, bool_to_str false))
    ∷ []

module _ {F : Type 0} where
  -- (canExecute, requiresApproval) of the first level with the name, else the defaults.
  pub level_rights : String → List (GraduationLevel F) → Bool × Bool
  level_rights name [] = (false, true)
  level_rights name (level ∷ levels) =
      let rest = level_rights name levels in
      if str_eq level.name name then (level.can_execute, level.requires_human_approval) else rest

  module _ (s : Server F) where
    -- The trust level of an agent: a profile that is not found counts as Observer.
    profile_level : String → Outcome (TrustProfile F) → M String
    profile_level name (ok profile) = pure (level_or_observer profile.trust_level)
    profile_level name (err e) =
        if is_not_found e
        then pure observer_name
        else wrap_error (str_append "getting AgentTrustProfile " name) (err e)

    policy_rights : String → Outcome (GraduationPolicy F) → M (Bool × Bool)
    policy_rights autonomy (ok policy) = pure (level_rights autonomy policy.levels)
    policy_rights autonomy (err e) =
        if is_not_found e
        then pure (false, true)
        else wrap_error "getting AgentGraduationPolicy default" (err e)

    above_minimum : String → String → M TrustGateResult
    above_minimum ns autonomy = do
      policy ← attempt (get_policy_m s ns "default")
      rights ← policy_rights autonomy policy
      pure (record {
        rejected = false;
        message = "";
        annotations = gate_annotations autonomy rights.0 rights.1;
      })

    gate : String → String → TrustRequirements → M TrustGateResult
    gate ns agent tr = do
      profile ← attempt (get_profile_m s ns (profile_name s agent))
      level ← profile_level (profile_name s agent) profile
      on_option (below_minimum level tr) (above_minimum ns (effective_autonomy level tr))
          (λ m. pure (rejection m))

    pub evaluate_trust_gate : String → String → String → GovernedResource → M TrustGateResult
    evaluate_trust_gate ns agent mode gr =
        on_option gr.trust_requirements (pure no_gate)
          (λ tr. if str_eq mode "observe" then pure no_gate else gate ns agent tr)
