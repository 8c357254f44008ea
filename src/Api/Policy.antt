-- ===== src/Api/Policy.antt =====
-- api/v1alpha1/safetypolicy_types.go and governedresource_types.go.
use aip_k8s.Prelude.{ℕ, String, Bool, Option, List}

-- `Rule.Action`; the CRD admits these four values only.
pub data Action : Type 0 where
  allow log require_approval deny : Action

-- The strings that the constants ResultAllow, ResultLog, … stand for.
abbrev pub action_name : Action → String
action_name allow = "Allow"
action_name log = "Log"
action_name require_approval = "RequireApproval"
action_name deny = "Deny"

pub data FailureMode : Type 0 where
  fail_closed fail_open : FailureMode

pub record Rule : Type 0 where
  pub name : String
  pub action : Action
  pub message : Option String
  pub expression : String

pub record SafetyPolicy : Type 0 where
  pub name : String
  pub selector : String  -- the serialised metav1.LabelSelector
  pub rules : List Rule
  pub failure_mode : Option FailureMode

pub record PolicyResult : Type 0 where
  pub policy_name : String
  pub rule_name : String
  pub result : String

-- GovernedResourceSpec.trustRequirements; an unset level is the empty string.
pub record TrustRequirements : Type 0 where
  pub min_trust_level : String
  pub max_autonomy_level : String

pub record GovernedResource : Type 0 where
  pub name : String
  pub generation : ℕ
  pub labels : List (String × String)
  pub context_fetcher : String
  pub context_schema : Option String
  pub soak_mode : Bool
  pub uri_pattern : String
  pub permitted_actions : List String
  pub permitted_agents : List String
  pub trust_requirements : Option TrustRequirements
