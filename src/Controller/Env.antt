-- ===== src/Controller/Env.antt =====
-- The surroundings of the reconciler: its configuration, and how the cluster, the clock and the
-- libraries answer. An answer may depend on all calls made before, so other clients may act between.
use aip_k8s.Prelude.{ℕ, String, Bool, Option, List, if◌then◌else◌}
use aip_k8s.Api.Policy.{SafetyPolicy, GovernedResource}
use aip_k8s.Api.Request.{AgentRequest, Condition, TargetContext, RequestResult}
use aip_k8s.Controller.Types.{Outcome, Lease, AuditRecord, Reader, cached, direct, Trace}
use aip_k8s.Evaluation.State.{Result}

-- (*TargetContext, error) of a `TargetContextFetcher`: a success carries a context.
pub data Fetched : Type 0 where
  found : TargetContext → Fetched
  fetch_failed : Option TargetContext → Fetched

-- The outcome of decoding a context schema and validating a fetched object against it.
pub data SchemaCheck : Type 0 where
  valid : SchemaCheck
  invalid : String → SchemaCheck
  schema_error : String → SchemaCheck

pub record Env : Type 0 where
  -- AgentRequestReconciler; a duration that is zero or negative is 0.
  pub ops_lock_duration : ℕ
  pub lock_wait_duration : ℕ
  pub approved_timeout : ℕ
  pub has_api_reader : Bool
  pub has_target_fetcher : Bool
  pub has_github_fetcher : Bool
  pub evaluate :
      AgentRequest
      → List SafetyPolicy
      → Option TargetContext
      → List (String × TargetContext)
      → Outcome Result
  -- The clock, the Kubernetes API and the context fetchers.
  pub clock : Trace → ℕ
  pub on_get_request : Trace → Reader → String → String → Outcome AgentRequest
  pub on_get_resource : Trace → Reader → String → Outcome GovernedResource
  pub on_get_lease : Trace → Reader → String → String → Outcome Lease
  pub on_list_policies : Trace → Reader → String → Outcome (List SafetyPolicy)
  pub on_list_audits : Trace → String → String → Outcome (List AuditRecord)
  pub on_patch_status : Trace → AgentRequest → AgentRequest → Outcome AgentRequest
  pub on_create_lease : Trace → Lease → Outcome (Unit {0})
  pub on_patch_lease : Trace → Lease → Lease → Outcome (Unit {0})
  pub on_delete_lease : Trace → Lease → Outcome (Unit {0})
  pub on_create_audit : Trace → AuditRecord → Outcome (Unit {0})
  pub on_patch_audit : Trace → AuditRecord → AuditRecord → Outcome (Unit {0})
  pub on_fetch_target : Trace → String → String → Fetched
  pub on_fetch_provider : Trace → String → String → Outcome String
  -- apimachinery/pkg/api/meta; a new transition time comes from the wall clock.
  pub set_status_condition : Trace → List Condition → Condition → List Condition
  pub remove_status_condition : List Condition → String → List Condition
  pub find_status_condition : List Condition → String → Option Condition
  pub is_status_condition_true : List Condition → String → Bool
  -- LabelSelectorAsSelector and Matches; `none` is a selector that does not convert.
  pub selector_matches : String → List (String × String) → Option Bool
  -- SetControllerReference; `none` is an error.
  pub controller_reference : AgentRequest → AuditRecord → Option AuditRecord
  pub check_schema : String → String → SchemaCheck
  pub sha256_hex : String → String
  pub marshal_result : RequestResult → Option String
  -- `ParseTargetURI(uri).Name`
  pub target_name : String → String

-- `reader := r.Client; if r.APIReader != nil { reader = r.APIReader }`
abbrev pub reader_of : Env → Reader
reader_of env = if env.has_api_reader then direct else cached
