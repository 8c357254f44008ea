-- ===== src/Api/Request.antt =====
-- api/v1alpha1/agentrequest_types.go, and the fields of metav1 objects that the program reads.
use aip_k8s.Prelude.{ℕ, String, Bool, false, Option, List, []}
use aip_k8s.Api.Policy.{PolicyResult}

-- `status.phase`; `unset` is the empty string, `unknown` any string with no constant.
pub data Phase : Type 0 where
  unset pending approved denied executing completed failed awaiting_verdict expired observed : Phase
  unknown : String → Phase

abbrev pub phase_name : Phase → String
phase_name unset = ""
phase_name pending = "Pending"
phase_name approved = "Approved"
phase_name denied = "Denied"
phase_name executing = "Executing"
phase_name completed = "Completed"
phase_name failed = "Failed"
phase_name awaiting_verdict = "AwaitingVerdict"
phase_name expired = "Expired"
phase_name observed = "Observed"
phase_name (unknown s) = s

-- `fmt.Sprintf(format, args…)` is kept as its format and arguments; `text` is a plain string.
pub data Arg : Type 0 where
  str : String → Arg
  num : ℕ → Arg

pub data Message : Type 0 where
  text : String → Message
  sprintf : String → List Arg → Message

-- metav1.Condition; the status is kept as whether it is "True".
pub record Condition : Type 0 where
  pub type : String
  pub is_true : Bool
  pub reason : String
  pub message : Message
  pub last_transition : ℕ

pub record ResourceRef : Type 0 where
  pub name : String
  pub generation : ℕ

pub data Decision : Type 0 where
  approved denied : Decision

pub record HumanApproval : Type 0 where
  pub decision : Decision
  pub reason : String
  pub for_generation : ℕ
  pub approved_by : String

pub record AffectedTarget : Type 0 where
  pub uri : String
  pub effect_type : String

pub record Denial : Type 0 where
  pub code : String
  pub message : Message
  pub policy_results : List PolicyResult

pub record TargetContext : Type 0 where
  pub exists : Bool
  pub has_active_endpoints : Bool
  pub active_endpoint_count : ℕ
  pub ready_replicas : ℕ
  pub spec_replicas : ℕ
  pub downstream_services : List String

-- The zero value `TargetContext{}`.
abbrev pub empty_context : TargetContext
empty_context = record {
  exists = false;
  has_active_endpoints = false;
  active_endpoint_count = 0;
  ready_replicas = 0;
  spec_replicas = 0;
  downstream_services = [];
}

pub record Verification : Type 0 where
  pub context : TargetContext
  pub fetched_at : ℕ

pub record RequestResult : Type 0 where
  pub url : String
  pub summary : String

-- float64 numbers are kept as their JSON text.
pub record ReasoningTrace : Type 0 where
  pub confidence_score : Option String
  pub component_confidence : List (String × String)
  pub trace_reference : Option String
  pub alternatives : List String

pub record Spec : Type 0 where
  pub agent_identity : String
  pub action : String
  pub target_uri : String
  pub reason : String
  pub observe : Bool  -- spec.mode == "observe"
  pub cascade_model : Option (List AffectedTarget)
  pub human_approval : Option HumanApproval
  pub resource_ref : Option ResourceRef
  pub classification : String
  pub dedup_key : String
  pub model_source_trust : Option String
  pub model_source_id : Option String
  pub reasoning_trace : Option ReasoningTrace
  pub parameters : Option String  -- JSON
  pub execution_mode : Option String
  pub scope_bounds : Option String  -- JSON

pub record Status : Type 0 where
  pub phase : Phase
  pub conditions : List Condition
  pub denial : Option Denial
  pub evaluation_generation : ℕ
  pub verification : Option Verification
  pub provider_context : Option String
  pub verdict : String
  pub verdict_reason_code : String
  pub verdict_note : String
  pub verdict_by : String
  pub verdict_at : Option ℕ
  pub resource_ref : Option ResourceRef
  pub result : Option RequestResult

pub record AgentRequest : Type 0 where
  pub name : String
  pub generate_name : String
  pub namespace : String
  pub labels : List (String × String)
  pub annotations : List (String × String)
  pub created : ℕ
  pub spec : Spec
  pub status : Status
