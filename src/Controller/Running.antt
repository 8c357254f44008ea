-- ===== src/Controller/Running.antt =====
-- `reconcileApproved`, `reconcileExecuting` and `reconcileAwaitingVerdict`.
pub mod Safe
use aip_k8s.Prelude.{
  on_option, ℕ, suc, ◌+◌, ◌-◌, ◌*◌, ◌/◌, String, true, none, some, List, [], ◌∷◌, not, str_eq, ltb,
  if◌then◌else◌,
}
use aip_k8s.Api.Request.{completed, failed, expired, str, num, text, sprintf, AgentRequest}
use aip_k8s.Controller.Types.{
  Outcome, ok, err, CtrlResult, done, requeue_after, ℤ, pos, negsuc, Lease, is_not_found, cached,
  active_dec, request_total, expired_total,
}
use aip_k8s.Controller.Env.{Env, reader_of}
use aip_k8s.Controller.Monad.{
  M, pure, raise, attempt, ignore, ◌>>=◌, ◌>>◌, wrap_error, metric, now, get_lease_m,
  patch_status_m, patch_lease_m, delete_lease_m, set_condition,
}
use aip_k8s.Controller.Audit.{
  request_failed, request_expired, verdict_submitted, lock_expired, heartbeat_timeout,
  emit_audit_record,
}
use aip_k8s.Controller.Lock.{
  second, lease_name, holder_identity, is_held_by, is_expired, release_lock,
  ops_lock_duration_or_default, approved_timeout_or_default,
}
use aip_k8s.Controller.Admission.{with_phase, with_denial, with_conditions}
use aip_k8s.Controller.Decision.{lock_timeout}

-- 7 days
abbrev awaiting_verdict_ttl : ℕ
awaiting_verdict_ttl = 168 * 3600 * second

-- time.Duration(seconds) * time.Second / 2
half_seconds : ℤ → ℤ
half_seconds (pos s) = pos (s * 500_000_000)
half_seconds (negsuc s) = negsuc (suc s * 500_000_000 - 1)

module _ (env : Env) where
  -- The approved request keeps its lease alive until the agent starts.
  heartbeat : AgentRequest → Outcome Lease → M CtrlResult
  heartbeat req (err e) =
      if is_not_found e
      then pure (requeue_after (pos (ops_lock_duration_or_default env / 2)))
      else raise e
  heartbeat req (ok l) =
      if not (is_held_by (holder_identity req) l)
      then pure (requeue_after (pos (ops_lock_duration_or_default env / 2)))
      else do
        time ← now env
        patched ← attempt (patch_lease_m env l (record l { renew_time = some time }))
        wrap_error "heartbeating approved-phase lease" patched
        pure (requeue_after (pos (ops_lock_duration_or_default env / 2)))

  -- The lock is released before the phase is patched, so that a failure is retried.
  approved_timed_out : AgentRequest → M CtrlResult
  approved_timed_out req = do
    let message =
        sprintf "Timed out after %v in Approved phase without starting execution"
          (num (approved_timeout_or_default env) ∷ [])
    released ← attempt (release_lock env req)
    wrap_error "releasing lock after Approved timeout" released
    cs ← set_condition env req.status.conditions "Failed" true lock_timeout message
    metric active_dec
    metric (request_total failed)
    patched ←
        patch_status_m env req
          (with_phase failed (with_conditions cs (with_denial lock_timeout message req)))
    emit_audit_record env patched request_failed req.status.phase failed []
    pure done

  approved_since : AgentRequest → ℕ → M CtrlResult
  approved_since req since = do
    time ← now env
    if ltb (since + approved_timeout_or_default env) time then approved_timed_out req else do
      l ← attempt (get_lease_m env cached (lease_name env req) req.namespace)
      heartbeat req l

  pub reconcile_approved : AgentRequest → M CtrlResult
  reconcile_approved req =
      on_option (env.find_status_condition req.status.conditions "Approved") (pure done)
        λ c. if c.is_true then approved_since req c.last_transition else pure done

  -- Another request holds the lease.
  lock_lost : AgentRequest → Lease → M CtrlResult
  lock_lost req l = do
    metric expired_total
    metric active_dec
    metric (request_total failed)
    cs ← set_condition env req.status.conditions "Failed" true lock_timeout (
        sprintf "OpsLock lost: lease held by %q, not this request"
          (str (elim l.holder_identity [ none ↦ "unknown" | some h ↦ h ]) ∷ []))
    patched ← patch_status_m env req (with_phase failed (with_conditions cs req))
    emit_audit_record env patched lock_expired req.status.phase failed []
    emit_audit_record env patched request_failed req.status.phase failed []
    pure done

  heartbeat_missed : AgentRequest → Lease → M CtrlResult
  heartbeat_missed req l = do
    metric expired_total
    metric active_dec
    metric (request_total failed)
    cs ←
        set_condition env req.status.conditions "Failed" true lock_timeout
          (text "Heartbeat timeout: Agent failed to renew OpsLock lease before expiration")
    patched ← patch_status_m env req (with_phase failed (with_conditions cs req))
    ignore (delete_lease_m env l)
    emit_audit_record env patched heartbeat_timeout req.status.phase failed []
    emit_audit_record env patched request_failed req.status.phase failed []
    pure done

  lease_watched : AgentRequest → Lease → ℤ → M CtrlResult
  lease_watched req l seconds = do
    time ← now env
    if is_expired time l
        then heartbeat_missed req l
        else pure (requeue_after (half_seconds seconds))

  lease_checked : AgentRequest → Lease → M CtrlResult
  lease_checked req l = on_option l.renew_time (pure (requeue_after (pos (30 * second)))) λ _.
      on_option l.duration_seconds (pure (requeue_after (pos (30 * second))))
        λ s. lease_watched req l s

  executing_lease : AgentRequest → Outcome Lease → M CtrlResult
  executing_lease req (err e) =
      if is_not_found e then pure (requeue_after (pos (15 * second))) else raise e
  executing_lease req (ok l) =
      if is_held_by (holder_identity req) l then lease_checked req l else lock_lost req l

  pub reconcile_executing : AgentRequest → M CtrlResult
  reconcile_executing req = do
    l ← attempt (get_lease_m env (reader_of env) (lease_name env req) req.namespace)
    executing_lease req l

  verdict_annotations : AgentRequest → List (String × String)
  verdict_annotations req =
      ("verdict", req.status.verdict)
      ∷ ("verdictBy", req.status.verdict_by)
      ∷ (if str_eq req.status.verdict_reason_code ""
          then []
          else ("verdictReasonCode", req.status.verdict_reason_code) ∷ [])

  graded : AgentRequest → M CtrlResult
  graded req = do
    metric active_dec
    metric (request_total completed)
    patched ← patch_status_m env req (with_phase completed req)
    emit_audit_record env patched verdict_submitted req.status.phase completed
        (verdict_annotations patched)
    pure done

  ungraded_expired : AgentRequest → M CtrlResult
  ungraded_expired req = do
    metric active_dec
    metric (request_total expired)
    patched ← patch_status_m env req (with_phase expired req)
    emit_audit_record env patched request_expired req.status.phase expired []
    pure done

  ungraded : AgentRequest → M CtrlResult
  ungraded req = do
    time ← now env
    if ltb (req.created + awaiting_verdict_ttl) time
        then ungraded_expired req
        else pure (requeue_after (pos (req.created + awaiting_verdict_ttl - time)))

  pub reconcile_awaiting_verdict : AgentRequest → M CtrlResult
  reconcile_awaiting_verdict req = if str_eq req.status.verdict "" then ungraded req else graded req
