-- ===== src/Api/Trust.antt =====
-- Trust levels of api/v1alpha1/agentrequest_types.go, agenttrustprofile_types.go and
-- agentgraduationpolicy_types.go. `F` stands for float64.
use aip_k8s.Prelude.{
  ℕ, String, Bool, true, false, Option, none, some, List, str_eq, ltb, if◌then◌else◌,
}

-- The constant TrustLevelObserver; the others are written out.
abbrev pub observer_name : String
observer_name = "Observer"

-- `TrustLevelRank`; `none` is the pair (-1, false).
unfoldable pub trust_level_rank : String → Option ℕ
trust_level_rank s =
    if str_eq s observer_name
    then some 0
    else (if str_eq s "Advisor"
        then some 1
        else (if str_eq s "Supervised"
            then some 2
            else (if str_eq s "Trusted"
                then some 3
                else (if str_eq s "Autonomous" then some 4 else none))))

-- `a < b` on ranks, where an unknown level counts as -1.
abbrev pub rank_lt : Option ℕ → Option ℕ → Bool
rank_lt a none = false
rank_lt none (some m) = true
rank_lt (some n) (some m) = ltb n m

pub record AccuracyBand (F : Type 0) : Type 0 where
  pub min : Option F
  pub max : Option F
  pub demotion_buffer : Option F

pub record GraduationLevel (F : Type 0) : Type 0 where
  pub name : String
  pub can_execute : Bool
  pub requires_human_approval : Bool
  pub accuracy : Option (AccuracyBand F)
  pub executions_min : Option ℕ  -- executions.min of the optional band
  pub executions_max : Option ℕ

pub record GraduationPolicy (F : Type 0) : Type 0 where
  pub name : String
  pub evaluation_count : ℕ
  pub levels : List (GraduationLevel F)
  pub accuracy_drop_threshold : F
  pub window_size : ℕ
  pub grace_period : String

pub record TrustProfile (F : Type 0) : Type 0 where
  pub name : String
  pub namespace : String
  pub created : ℕ
  pub agent_identity : String
  pub trust_level : String
  pub diagnostic_accuracy : Option F
  pub recent_accuracy : Option F
  pub total_reviewed : ℕ
  pub total_executions : ℕ
  pub success_rate : Option F
  pub last_promoted_at : Option ℕ
  pub last_demoted_at : Option ℕ
  pub last_evaluated_at : Option ℕ
