-- ===== src/Controller/Admission.antt =====
-- The steps of `Reconcile` before the state machine: `checkGovernedResourceIntegrity`,
-- `checkAgentTransitions` and `initializePhase`.
pub mod Safe
pub mod First
pub mod Integrity
use aip_k8s.Prelude.{
  on_option, String, Bool, true, false, Option, none, some, List, [], ◌∷◌, ◌&&◌, ◌||◌, not, ◌==◌,
  str_eq, lookup, has_value, if◌then◌else◌,
}
use aip_k8s.Api.Policy.{GovernedResource}
use aip_k8s.Api.Request.{
  Phase, unset, pending, awaiting_verdict, approved, denied, executing, completed, failed, observed,
  str, num, Message, text, sprintf, Condition, ResourceRef, AgentRequest,
}
use aip_k8s.Controller.Types.{
  Outcome, ok, err, is_not_found, Reader, cached, direct, denied_total, active_inc, active_dec,
  request_total,
}
use aip_k8s.Controller.Env.{Env}
use aip_k8s.Controller.Monad.{
  M, pure, raise, attempt, ◌>>=◌, ◌>>◌, wrap_error, metric, get_request_m, get_resource_m,
  patch_status_m, set_condition,
}
use aip_k8s.Controller.Audit.{
  request_submitted, request_observed, request_denied, request_executing, request_completed,
  request_failed, lock_acquired, lock_released, emit_audit_record,
}
use aip_k8s.Controller.Lock.{release_lock}

abbrev pub is_unset : Phase → Bool
is_unset unset = true
is_unset _ = false

abbrev pub is_approved : Phase → Bool
is_approved approved = true
is_approved _ = false

abbrev pub is_denied : Phase → Bool
is_denied denied = true
is_denied _ = false

abbrev pub is_completed : Phase → Bool
is_completed completed = true
is_completed _ = false

abbrev pub is_failed : Phase → Bool
is_failed failed = true
is_failed _ = false

abbrev pub is_active : Phase → Bool
is_active pending = true
is_active awaiting_verdict = true
is_active _ = false

abbrev pub with_phase : Phase → AgentRequest → AgentRequest
with_phase p req = record req { status = record req.status { phase = p } }

abbrev pub with_denial : String → Message → AgentRequest → AgentRequest
with_denial code message req = record req {
  status = record req.status {
    phase = denied;
    denial = some (record { code = code; message = message; policy_results = [] });
  };
}

abbrev pub with_conditions : List Condition → AgentRequest → AgentRequest
with_conditions cs req = record req { status = record req.status { conditions = cs } }

-- Status first, then the deprecated spec.
abbrev pub governed_resource_ref : AgentRequest → Option ResourceRef
governed_resource_ref req = elim req.status.resource_ref [
  | none ↦ req.spec.resource_ref
  | some r ↦ some r
]

abbrev governed_resource_deleted : String
governed_resource_deleted = "GOVERNED_RESOURCE_DELETED"

abbrev generation_mismatch : String
generation_mismatch = "GENERATION_MISMATCH"

abbrev annotation_gateway_denied : String
annotation_gateway_denied = "governance.aip.io/gateway-denied"

abbrev annotation_can_execute : String
annotation_can_execute = "governance.aip.io/can-execute"

module _ (env : Env) where
  abbrev pub has_condition : AgentRequest → String → Bool
  has_condition req type = env.is_status_condition_true req.status.conditions type

  -- Both denials of `checkGovernedResourceIntegrity`.
  deny_integrity : AgentRequest → String → Message → M AgentRequest
  deny_integrity req code message = do
    metric (denied_total code)
    metric active_dec
    metric (request_total denied)
    patched ← patch_status_m env req (with_denial code message req)
    release_lock env patched
    emit_audit_record env patched request_denied req.status.phase denied []
    pure patched

  resource_fetched : AgentRequest → ResourceRef → Outcome GovernedResource → M AgentRequest
  resource_fetched req ref (err e) =
      if is_not_found e
      then deny_integrity req governed_resource_deleted (
          sprintf "The GovernedResource %q that admitted this request was deleted."
            (str ref.name ∷ []))
      else raise e
  resource_fetched req ref (ok gr) =
      if gr.generation == ref.generation
      then pure req
      else deny_integrity req generation_mismatch (
          sprintf
            "GovernedResource %q generation has changed (expected %d, current %d); the policy binding is no longer valid."
            (str ref.name ∷ num ref.generation ∷ num gr.generation ∷ []))

  -- The request as it is in memory after the check.
  pub check_governed_resource_integrity : AgentRequest → ResourceRef → M AgentRequest
  check_governed_resource_integrity req ref = do
    gr ← attempt (get_resource_m env cached ref.name)
    resource_fetched req ref gr

  -- The agent reported success: the result is read afresh before the phase is patched.
  complete : AgentRequest → M Bool
  complete req = do
    read ← attempt (get_request_m env direct req.name req.namespace)
    fresh ← wrap_error "re-reading AgentRequest for Result" read
    let base = record req { status = record req.status { result = fresh.status.result } }
    metric active_dec
    metric (request_total completed)
    patched ← patch_status_m env base (with_phase completed base)
    release_lock env patched
    emit_audit_record env patched request_completed req.status.phase completed []
    emit_audit_record env patched lock_released unset unset []
    pure true

  fail : AgentRequest → M Bool
  fail req = do
    metric active_dec
    metric (request_total failed)
    patched ← patch_status_m env req (with_phase failed req)
    release_lock env patched
    emit_audit_record env patched request_failed req.status.phase failed []
    emit_audit_record env patched lock_released unset unset []
    pure true

  execute : AgentRequest → M Bool
  execute req = do
    metric (request_total executing)
    patched ← patch_status_m env req (with_phase executing req)
    emit_audit_record env patched lock_acquired unset unset []
    emit_audit_record env patched request_executing req.status.phase executing []
    pure true

  pub check_agent_transitions : AgentRequest → M Bool
  check_agent_transitions req =
      if has_condition req "Completed" && not (is_completed req.status.phase)
      then complete req
      else if has_condition req "Failed" && not (is_failed req.status.phase)
      then fail req
      else if has_condition req "Executing" && is_approved req.status.phase
      then execute req
      else pure false

  -- Blocked by the gateway before policy evaluation.
  init_denied : AgentRequest → String → M Bool
  init_denied req code = do
    let message = sprintf "Blocked at gateway admission: %s" (str code ∷ [])
    metric (denied_total code)
    metric (request_total denied)
    cs ← set_condition env req.status.conditions "RequestSubmitted" true "GatewayDenied" message
    patched ← patch_status_m env req (with_conditions cs (with_denial code message req))
    emit_audit_record env patched request_denied unset denied []
    pure true

  init_observed : AgentRequest → M Bool
  init_observed req = do
    metric (request_total observed)
    cs ←
        set_condition env req.status.conditions "RequestSubmitted" true "ObserveMode"
          (text "Request recorded as observation; governance lifecycle skipped")
    patched ← patch_status_m env req (with_conditions cs (with_phase observed req))
    emit_audit_record env patched request_observed unset observed []
    pure true

  -- The initial phase with its reason and message.
  soak_phase : ResourceRef → Outcome GovernedResource → M (Phase × String × String)
  soak_phase ref (ok gr) = pure (
      if gr.soak_mode
      then (
        awaiting_verdict, "SoakModeAdmission",
        "Initial phase set to AwaitingVerdict due to GovernedResource SoakMode",
      )
      else (pending, "Initialization", "Initial phase set to Pending"))
  soak_phase ref (err e) =
      if is_not_found e
      then pure (pending, "Initialization", "Initial phase set to Pending")
      else wrap_error "fetching GovernedResource" (err e)

  initial_phase : AgentRequest → Reader → M (Phase × String × String)
  initial_phase req reader =
      if has_value req.annotations annotation_can_execute "false"
      then pure (
        awaiting_verdict, "TrustGateBlock",
        "Agent trust level does not permit execution; routing to AwaitingVerdict",
      )
      else on_option (governed_resource_ref req)
          (pure (pending, "Initialization", "Initial phase set to Pending"))
          λ ref. do gr ← attempt (get_resource_m env reader ref.name); soak_phase ref gr

  init_active : AgentRequest → Reader → M Bool
  init_active req reader = do
    (phase, reason, message) ← initial_phase req reader
    if is_active phase then metric active_inc else pure tt
    metric (request_total phase)
    cs ← set_condition env req.status.conditions "RequestSubmitted" true reason (text message)
    patched ← patch_status_m env req (with_conditions cs (with_phase phase req))
    emit_audit_record env patched request_submitted unset phase []
    pure true

  -- `if code, ok := annotations[…]; ok && code != ""`, then the mode.
  first_phase : AgentRequest → Reader → M Bool
  first_phase req reader =
      let rest = if req.spec.observe then init_observed req else init_active req reader in
      on_option (lookup annotation_gateway_denied req.annotations) rest
        λ code. if str_eq code "" then rest else init_denied req code

  pub initialize_phase : AgentRequest → Reader → M Bool
  initialize_phase req reader =
      if not (is_unset req.status.phase) || has_condition req "RequestSubmitted"
      then pure false
      else first_phase req reader
