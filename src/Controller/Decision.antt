-- ===== src/Controller/Decision.antt =====
-- What a pending request comes to: `handleEvaluationResult`, `handleApprovalWait` and
-- `handleLockAcquisition`.
pub mod Safe
pub mod Judged
use aip_k8s.Prelude.{
  on_option, ◌+◌, ◌*◌, String, true, false, none, some, List, [], ◌∷◌, ltb, str_eq, has_value,
  if◌then◌else◌,
}
use aip_k8s.Api.Policy.{Action, allow, log, require_approval, deny}
use aip_k8s.Api.Request.{Phase, approved, denied, Decision, str, num, text, sprintf, AgentRequest}
use aip_k8s.Controller.Types.{
  CtrlResult, done, requeue_after, pos, AuditRecord, denied_total, active_dec, request_total,
  contention_total, lock_inc, Lease,
}
use aip_k8s.Controller.Env.{Env}
use aip_k8s.Controller.Monad.{
  M, pure, ignore, ◌>>=◌, ◌>>◌, metric, now, patch_status_m, set_condition,
}
use aip_k8s.Controller.Audit.{
  request_denied, request_approved, emit_audit_record, create_audit_with_retry,
}
use aip_k8s.Controller.Lock.{
  Acquisition, acquired, contended, acquire_lease, second, lock_wait_timeout,
}
use aip_k8s.Controller.Admission.{is_approved, with_phase, with_denial, with_conditions}
use aip_k8s.Evaluation.{policy_violation}
use aip_k8s.Evaluation.State.{Result}

abbrev pub lock_timeout : String
lock_timeout = "LOCK_TIMEOUT"

-- Annotations that name the human who decided.
abbrev approval_annotations : AgentRequest → List (String × String)
approval_annotations req = elim req.spec.human_approval [
  | none ↦ []
  | some h ↦ if str_eq h.approved_by "" then [] else ("approvedBy", h.approved_by) ∷ []
]

module _ (env : Env) where
  lock_denied : AgentRequest → Phase → Lease → M CtrlResult
  lock_denied req from l = do
    metric contention_total
    metric (denied_total lock_timeout)
    metric active_dec
    metric (request_total denied)
    cs ←
        set_condition env req.status.conditions "Approved" false "LockTimeout"
          (text "Lock acquisition timed out")
    patched ← patch_status_m env req (
        with_conditions cs (
          with_denial lock_timeout
            (sprintf "Failed to acquire lock for %s within %v timeout. Lock held by: %s" (
              str req.spec.target_uri
              ∷ num (lock_wait_timeout env)
              ∷ str (elim l.holder_identity [ none ↦ "unknown" | some h ↦ h ])
              ∷ []))
            req))
    emit_audit_record env patched request_denied from denied []
    pure done

  -- The clock is compared with the creation time over the integers: creation < now - timeout.
  lock_contended : AgentRequest → Phase → Lease → M CtrlResult
  lock_contended req from l = do
    time ← now env
    if ltb (req.created + lock_wait_timeout env) time
        then lock_denied req from l
        else do metric contention_total; pure (requeue_after (pos (5 * second)))

  lock_held : AgentRequest → Phase → M CtrlResult
  lock_held req from = do
    metric lock_inc
    metric (request_total approved)
    cs ←
        set_condition env req.status.conditions "Approved" true "Approved"
          (text "Request approved and OpsLock acquired")
    patched ← patch_status_m env req (with_conditions cs (with_phase approved req))
    emit_audit_record env patched request_approved from approved (approval_annotations patched)
    pure done

  lock_settled : AgentRequest → Phase → Acquisition → M CtrlResult
  lock_settled req from acquired = lock_held req from
  lock_settled req from (contended l) = lock_contended req from l

  pub handle_lock_acquisition : AgentRequest → Phase → M CtrlResult
  handle_lock_acquisition req from =
      if is_approved req.status.phase
      then pure done
      else do result ← acquire_lease env req; lock_settled req from result

  human_denied : AgentRequest → M CtrlResult
  human_denied req = do
    metric (denied_total policy_violation)
    metric active_dec
    metric (request_total denied)
    cs ←
        set_condition env req.status.conditions "Approved" false "ManualDenial"
          (text "Denied by human reviewer")
    patched ←
        patch_status_m env req
          (with_conditions cs (with_denial policy_violation (text "Denied by human reviewer") req))
    emit_audit_record env patched request_denied req.status.phase denied
        (approval_annotations patched)
    pure done

  human_decided : AgentRequest → Decision → M CtrlResult
  human_decided req Decision.approved =
      handle_lock_acquisition
        (with_conditions (env.remove_status_condition req.status.conditions "RequiresApproval") req)
        req.status.phase
  human_decided req Decision.denied = human_denied req

  pub handle_approval_wait : AgentRequest → M CtrlResult
  handle_approval_wait req =
      on_option req.spec.human_approval (pure done) λ h. human_decided req h.decision

  -- The three branches of `handleEvaluationResult`, on the conditions with PolicyEvaluated set.
  policy_denied : AgentRequest → AgentRequest → Result → AuditRecord → M CtrlResult
  policy_denied base req result audit = do
    metric (denied_total result.code)
    metric active_dec
    metric (request_total denied)
    cs ← set_condition env req.status.conditions "Approved" false "Denied" (text result.message)
    patched ← patch_status_m env base (record req {
      status = record req.status {
        phase = denied;
        denial = some (record {
          code = result.code;
          message = text result.message;
          policy_results = result.policy_results;
        });
        conditions = cs;
      };
    })
    ignore (
        create_audit_with_retry env
          (record audit { phase_transition = some (base.status.phase, patched.status.phase) }))
    emit_audit_record env patched request_denied base.status.phase denied []
    pure done

  auto_approved : AgentRequest → AgentRequest → AuditRecord → M CtrlResult
  auto_approved base req audit = do
    cs ← set_condition env req.status.conditions "Approved" true "AutoApprovedByTrustGate" (
        text
          "Agent trust level satisfies GovernedResource requirements; human approval not required")
    patch_status_m env base (with_conditions cs req)
    ignore (create_audit_with_retry env audit)
    pure done

  held_for_approval : AgentRequest → AgentRequest → Result → AuditRecord → M CtrlResult
  held_for_approval base req result audit = do
    cs ←
        set_condition env req.status.conditions "RequiresApproval" true "ApprovalRequired"
          (text result.message)
    patched ← patch_status_m env base (with_conditions cs req)
    ignore (
        create_audit_with_retry env
          (record audit { phase_transition = some (base.status.phase, patched.status.phase) }))
    pure done

  policy_allowed : AgentRequest → AgentRequest → AuditRecord → M CtrlResult
  policy_allowed base req audit = do
    patched ← patch_status_m env base req
    ignore (
        create_audit_with_retry env
          (record audit { phase_transition = some (base.status.phase, patched.status.phase) }))
    handle_lock_acquisition patched base.status.phase

  result_handled : Action → AgentRequest → AgentRequest → Result → AuditRecord → M CtrlResult
  result_handled deny base req result audit = policy_denied base req result audit
  result_handled require_approval base req result audit =
      if has_value req.annotations "governance.aip.io/requires-human-approval" "false"
      then auto_approved base req audit
      else held_for_approval base req result audit
  result_handled allow base req result audit = policy_allowed base req audit
  result_handled log base req result audit = policy_allowed base req audit

  pub handle_evaluation_result : AgentRequest → Result → AuditRecord → M CtrlResult
  handle_evaluation_result req result audit = do
    cs ←
        set_condition env req.status.conditions "PolicyEvaluated" true "EvaluationComplete"
          (text result.message)
    result_handled result.action req (with_conditions cs req) result audit
