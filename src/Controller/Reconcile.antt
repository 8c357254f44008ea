-- ===== src/Controller/Reconcile.antt =====
-- `Reconcile`: the whole reaction to one event for an AgentRequest.
pub mod Safe
pub mod Terminal
use aip_k8s.Prelude.{on_option, String, if◌then◌else◌}
use aip_k8s.Api.Request.{
  Phase, pending, approved, denied, executing, completed, failed, awaiting_verdict, expired,
  observed, AgentRequest,
}
use aip_k8s.Controller.Types.{Outcome, ok, err, CtrlResult, done, is_not_found}
use aip_k8s.Controller.Env.{Env, reader_of}
use aip_k8s.Controller.Monad.{M, pure, raise, attempt, ◌>>=◌, ◌>>◌, get_request_m}
use aip_k8s.Controller.Audit.{backfill_completed_audit_result}
use aip_k8s.Controller.Admission.{
  is_denied, governed_resource_ref, check_governed_resource_integrity, check_agent_transitions,
  initialize_phase,
}
use aip_k8s.Controller.Pending.{reconcile_pending}
use aip_k8s.Controller.Running.{reconcile_approved, reconcile_executing, reconcile_awaiting_verdict}

module _ (env : Env) where
  -- The `switch` on the phase.
  state_machine : Phase → AgentRequest → M CtrlResult
  state_machine pending req = reconcile_pending env req
  state_machine approved req = reconcile_approved env req
  state_machine executing req = reconcile_executing env req
  state_machine awaiting_verdict req = reconcile_awaiting_verdict env req
  state_machine _ req = pure done

  initialized : AgentRequest → M CtrlResult
  initialized req = do
    handled ← initialize_phase env req (reader_of env)
    if handled then pure done else state_machine req.status.phase req

  transitioned : AgentRequest → M CtrlResult
  transitioned req = do
    handled ← check_agent_transitions env req
    if handled then pure done else initialized req

  -- The checks of a request that is not terminal.
  admit : AgentRequest → M CtrlResult
  admit req = on_option (governed_resource_ref req) (transitioned req) λ ref. do
    checked ← check_governed_resource_integrity env req ref
    if is_denied checked.status.phase then pure done else transitioned checked

  backfill : AgentRequest → M CtrlResult
  backfill req =
      on_option req.status.result (pure done)
        λ r. do backfill_completed_audit_result env req r; pure done

  -- Terminal phases return before anything else.
  on_phase : Phase → AgentRequest → M CtrlResult
  on_phase completed req = backfill req
  on_phase failed req = pure done
  on_phase denied req = pure done
  on_phase expired req = pure done
  on_phase observed req = pure done
  on_phase _ req = admit req

  fetched : Outcome AgentRequest → M CtrlResult
  fetched (ok req) = on_phase req.status.phase req
  fetched (err e) = if is_not_found e then pure done else raise e

  pub reconcile : String → String → M CtrlResult
  reconcile name namespace = do
    read ← attempt (get_request_m env (reader_of env) name namespace)
    fetched read
