-- ===== src/Controller/Pending.antt =====
-- `reconcilePending`: policies are listed and matched, contexts fetched, and the result handled.
pub mod Safe
use aip_k8s.Prelude.{
  ℕ, String, Bool, true, false, Option, none, some, List, [], ◌∷◌, is_some, if◌then◌else◌,
}
use aip_k8s.Api.Policy.{SafetyPolicy}
use aip_k8s.Api.Request.{ResourceRef, AgentRequest}
use aip_k8s.Controller.Types.{
  Outcome, ok, err, CtrlResult, requeue, AuditRecord, eval_observed, run_evaluation,
}
use aip_k8s.Controller.Env.{Env, reader_of}
use aip_k8s.Controller.Monad.{
  M, pure, attempt, ◌>>=◌, ◌>>◌, now, invoke, raise, metric, get_resource_m, list_policies_m,
  patch_status_m,
}
use aip_k8s.Controller.Audit.{policy_evaluated, audit_labels, deterministic_audit_name, owned_by}
use aip_k8s.Api.Request.{phase_name}
use aip_k8s.Controller.Admission.{governed_resource_ref, has_condition}
use aip_k8s.Controller.Context.{Contexts, fetch_target_context, fetch_context_from_provider}
use aip_k8s.Controller.Decision.{
  handle_lock_acquisition, handle_approval_wait, handle_evaluation_result,
}
use aip_k8s.Evaluation.State.{Result}

module _ (env : Env) where
  -- `matchesSelector`: a selector that does not convert matches nothing.
  matches_selector : List (String × String) → SafetyPolicy → Bool
  matches_selector labels p = elim (env.selector_matches p.selector labels) [
    | none ↦ false
    | some b ↦ b
  ]

  -- The policies of the loop: all of them without a GovernedResource.
  applicable : Option (List (String × String)) → List SafetyPolicy → List SafetyPolicy
  applicable labels [] = []
  applicable labels (p ∷ ps) =
      let rest = applicable labels ps in
      if elim labels [ none ↦ true | some ls ↦ matches_selector ls p ] then p ∷ rest else rest

  resource_labels : Option ResourceRef → M (Option (List (String × String)))
  resource_labels none = pure none
  resource_labels (some ref) = do
    gr ← get_resource_m env (reader_of env) ref.name
    pure (some gr.labels)

  policy_audit : AgentRequest → Result → ℕ → AuditRecord
  policy_audit req result time = owned_by env req (record {
    name = deterministic_audit_name env req.name policy_evaluated (phase_name req.status.phase) "";
    namespace = req.namespace;
    labels = audit_labels req;
    owners = [];
    timestamp = time;
    agent_identity = req.spec.agent_identity;
    agent_request_ref = req.name;
    event = policy_evaluated;
    action = req.spec.action;
    target_uri = req.spec.target_uri;
    reason = req.spec.reason;
    policy_evaluations = result.policy_results;
    phase_transition = none;
    annotations = [];
    details = none;
  })

  unwrap : {A : Type 0} → Outcome A → M A
  unwrap (ok a) = pure a
  unwrap (err e) = raise e

  -- The timer observes the evaluation whether or not it fails.
  run_evaluator : AgentRequest → List SafetyPolicy → Contexts → M Result
  run_evaluator req ps (target, ctxs) = do
    answer ←
        attempt (invoke (run_evaluation req ps target ctxs) (λ _. env.evaluate req ps target ctxs))
    metric eval_observed
    unwrap answer

  -- `if targetCtx != nil { … }`
  with_verification : AgentRequest → Contexts → M AgentRequest
  with_verification req (none, ctxs) = pure req
  with_verification req (some c, ctxs) = do
    time ← now env
    pure (record req {
      status = record req.status {
        verification = some (record { context = c; fetched_at = time });
      };
    })

  evaluate_policies : AgentRequest → List SafetyPolicy → Contexts → M CtrlResult
  evaluate_policies req ps ctxs = do
    verified ← with_verification req ctxs
    result ← run_evaluator verified ps ctxs
    time ← now env
    handle_evaluation_result env verified result (policy_audit verified result time)

  -- A fetched provider context is persisted before evaluation, in a reconcile of its own.
  provider_fetched :
      AgentRequest
      → List SafetyPolicy
      → Contexts
      → Outcome (AgentRequest × Option String)
      → M CtrlResult
  provider_fetched req ps ctxs (err e) = evaluate_policies req ps ctxs
  provider_fetched req ps ctxs (ok (req', none)) = evaluate_policies req' ps ctxs
  provider_fetched req ps ctxs (ok (req', some json)) = do
    patch_status_m env req'
        (record req' { status = record req'.status { provider_context = some json } })
    pure requeue

  provider_step : AgentRequest → List SafetyPolicy → Contexts → Option ResourceRef → M CtrlResult
  provider_step req ps ctxs none = evaluate_policies req ps ctxs
  provider_step req ps ctxs (some ref) =
      if is_some req.status.provider_context then evaluate_policies req ps ctxs else do
        gr ← get_resource_m env (reader_of env) ref.name
        provided ← attempt (fetch_context_from_provider env req gr)
        provider_fetched req ps ctxs provided

  first_evaluation : AgentRequest → M CtrlResult
  first_evaluation req = do
    ps ← list_policies_m env (reader_of env) req.namespace
    labels ← resource_labels (governed_resource_ref req)
    ctxs ← fetch_target_context env req
    provider_step req (applicable labels ps) ctxs (governed_resource_ref req)

  pub reconcile_pending : AgentRequest → M CtrlResult
  reconcile_pending req =
      if has_condition env req "PolicyEvaluated"
      then (if has_condition env req "RequiresApproval"
          then handle_approval_wait env req
          else handle_lock_acquisition env req req.status.phase)
      else first_evaluation req
