-- ===== src/Controller/Types.antt =====
-- What the reconciler exchanges with its surroundings: errors, objects, and the calls that it makes.
pub use aip_k8s.Effects.{
  Err, not_found, already_exists, other, wrapped, is_not_found, is_already_exists, Outcome, ok, err,
}
use aip_k8s.Prelude.{ℕ, ◌-◌, ◌%◌, ◌^◌, String, Option, List, ltb, if◌then◌else◌}
use aip_k8s.Api.Policy.{PolicyResult, SafetyPolicy}
use aip_k8s.Api.Request.{Phase, AgentRequest, TargetContext}

-- `negsuc n` is -(n + 1).
pub data ℤ : Type 0 where
  pos : ℕ → ℤ
  negsuc : ℕ → ℤ

-- The conversion int32(n).
unfoldable pub to_int32 : ℕ → ℤ
to_int32 n = let m = n % 2 ^ 32 in if ltb m (2 ^ 31) then pos m else negsuc (2 ^ 32 - m - 1)

-- ctrl.Result; a delay is in nanoseconds.
pub data CtrlResult : Type 0 where
  done requeue : CtrlResult
  requeue_after : ℤ → CtrlResult

-- coordinationv1.Lease; times are in nanoseconds.
pub record Lease : Type 0 where
  pub name : String
  pub namespace : String
  pub labels : List (String × String)
  pub holder_identity : Option String
  pub duration_seconds : Option ℤ
  pub acquire_time : Option ℕ
  pub renew_time : Option ℕ

-- api/v1alpha1/auditrecord_types.go
pub record AuditRecord : Type 0 where
  pub name : String
  pub namespace : String
  pub labels : List (String × String)
  pub owners : List String
  pub timestamp : ℕ
  pub agent_identity : String
  pub agent_request_ref : String
  pub event : String
  pub action : String
  pub target_uri : String
  pub reason : String
  pub policy_evaluations : List PolicyResult
  pub phase_transition : Option (Phase × Phase)
  pub annotations : List (String × String)
  pub details : Option String

-- internal/controller/metrics.go
pub data Metric : Type 0 where
  denied_total : String → Metric
  active_inc active_dec : Metric
  request_total : Phase → Metric
  contention_total expired_total : Metric
  lock_inc lock_dec : Metric
  eval_observed : Metric

-- `r.Client` reads from the informer cache, `r.APIReader` from the API server.
pub data Reader : Type 0 where
  cached direct : Reader

pub data Call : Type 0 where
  read_clock : Call
  count : Metric → Call
  get_request : Reader → String → String → Call
  get_resource : Reader → String → Call
  get_lease : Reader → String → String → Call
  list_policies : Reader → String → Call
  list_audits : String → String → Call
  patch_status : AgentRequest → AgentRequest → Call  -- the base and the object
  create_lease : Lease → Call
  patch_lease : Lease → Lease → Call
  delete_lease : Lease → Call
  create_audit : AuditRecord → Call
  patch_audit : AuditRecord → AuditRecord → Call
  fetch_target : String → String → Call
  fetch_provider : String → String → Call
  run_evaluation :
      AgentRequest → List SafetyPolicy → Option TargetContext → List (String × TargetContext) → Call

-- The calls made so far, the latest first.
abbrev pub Trace : Type 0
Trace = List Call
