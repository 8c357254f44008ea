-- ===== src/Controller/Decision/Judged.antt =====
-- `handleEvaluationResult` approves a request only on Allow or Log.
use aip_k8s.Prelude.{◌≡◌, refl, ap, ◌∙◌, true, has_value}
use aip_k8s.Api.Policy.{Action, allow, log, require_approval, deny}
use aip_k8s.Api.Request.{pending, AgentRequest}
use aip_k8s.Controller.Types.{AuditRecord, Trace}
use aip_k8s.Controller.Env.{Env}
use aip_k8s.Controller.Monad.{patch_status_m}
use aip_k8s.Effects.Logic.{
  Keeps, Keeps-ignore, Keeps-invoke, Runs, Runs-bind, Runs-keep, Runs-if, Runs-invoke, Runs-pre,
}
use aip_k8s.Controller.Safety.{IsSafe, PatchSafe, Permitted, edge, is_allowing, key}
use aip_k8s.Controller.Quiet.{Grows, set_condition-Quiet}
use aip_k8s.Controller.Audit.Quiet.{create_audit_with_retry-Quiet}
use aip_k8s.Controller.Admission.Safe.{Answers, Always, safe_rules, to_denied}
use aip_k8s.Controller.Decision.Safe.{waiting-is_live, handle_lock_acquisition-Safe, Permitted-grow}
use aip_k8s.Controller.Admission.{with_conditions}
use aip_k8s.Controller.Decision.{
  policy_denied, auto_approved, held_for_approval, policy_allowed, result_handled,
  handle_evaluation_result, handle_lock_acquisition,
}
use aip_k8s.Evaluation.State.{Result}

module _ (env : Env) (answers : Answers env) (req : AgentRequest)
    (waiting : req.status.phase ≡ pending) where
  -- An allowing result permits the request.
  abbrev pub Judged : Result → Trace → Type 0
  Judged result t =
      (r : AgentRequest) → key r ≡ key req → is_allowing result.action ≡ true → Permitted env r t

  pub Judged-grow : (result : Result) → Grows (Judged result)
  Judged-grow result c t j r k a = Permitted-grow env r c t (j r k a)

  -- A patch that leaves the request pending.
  pub stay_pending :
      (b n : AgentRequest)
      → b.status.phase ≡ pending
      → n.status.phase ≡ pending
      → (t : Trace) → PatchSafe env b n t
  unfolding edge
  stay_pending b n p q t = record {
    legal = rw (p, q) refl;
    locked = λ h. cc;
    permitted = λ h. cc;
    gated = λ u g. cc;
  }

  to_pending :
      (n : AgentRequest)
      → n.status.phase ≡ req.status.phase
      → Keeps (IsSafe env) Always (patch_status_m env req n)
  to_pending n q = Keeps-invoke _ _ (λ t _. stay_pending req n waiting (q ∙ waiting) t) (λ t e. e)

  policy_denied-Safe :
      (n : AgentRequest) (r : Result) (a : AuditRecord)
      → Keeps (IsSafe env) Always (policy_denied env req n r a)
  unfolding policy_denied
  policy_denied-Safe n r a =
      search
        (
          safe_rules,
          create_audit_with_retry-Quiet,
          to_denied env req (waiting-is_live env req waiting),
        )
        depth 16

  module _ (n : AgentRequest) (same : n.status.phase ≡ req.status.phase)
      (same_key : key n ≡ key req) (a : AuditRecord) where
    auto_approved-Safe : Keeps (IsSafe env) Always (auto_approved env req n a)
    unfolding auto_approved
    auto_approved-Safe =
        search (safe_rules, create_audit_with_retry-Quiet, same, to_pending) depth 12

    held_for_approval-Safe :
        (r : Result) → Keeps (IsSafe env) Always (held_for_approval env req n r a)
    unfolding held_for_approval
    held_for_approval-Safe r =
        search (safe_rules, create_audit_with_retry-Quiet, same, to_pending) depth 12

    abbrev Patched : Result → AgentRequest → Trace → Type 0
    Patched result r t = ((r.status.phase ≡ pending) × (key r ≡ key req)) × Judged result t

    policy_allowed-Safe :
        (result : Result)
        → is_allowing result.action ≡ true
        → Runs (IsSafe env) (Judged result) (policy_allowed env req n a) (λ _. Always)
    unfolding policy_allowed
    policy_allowed-Safe result allowing =
        Runs-bind {Q = Patched result}
          (Runs-invoke _ _ (λ t j. stay_pending req n waiting (same ∙ waiting) t)
            (λ t j r q.
              let x = answers t _ _ r q in
              ((x.0 ∙ same ∙ waiting, x.1 ∙ same_key), Judged-grow result _ t j)))
          (λ r.
            let g : Grows (Patched result r) = λ c t p. (p.0, Judged-grow result c t p.1) in
            Runs-bind (Runs-keep (Keeps-ignore (create_audit_with_retry-Quiet env g _)))
              (λ _. settle r))
      where
        -- A server's answer that is pending goes on to the lock.
        settle :
            (r : AgentRequest)
            → Runs
                (IsSafe env)
                (Patched result r)
                (handle_lock_acquisition env r req.status.phase)
                (λ _. Always)
        settle r = record {
          at = λ t h p. (handle_lock_acquisition-Safe env r p.0.0 _).at t h (p.1 r p.0.1 allowing);
        }

  result_handled-Safe :
      (n : AgentRequest)
      → n.status.phase ≡ req.status.phase
      → key n ≡ key req
      → (a : AuditRecord) (result : Result) (d : Action) → result.action ≡ d
      → Runs (IsSafe env) (Judged result) (result_handled env d req n result a) (λ _. Always)
  unfolding result_handled
  result_handled-Safe n p k a result deny e =
      Runs-pre (Runs-keep (policy_denied-Safe n result a)) (λ _ _. tt)
  result_handled-Safe n p k a result require_approval e =
      Runs-pre
        (Runs-if (has_value n.annotations "governance.aip.io/requires-human-approval" "false")
          (λ _. Runs-keep (auto_approved-Safe n p k a))
          (λ _. Runs-keep (held_for_approval-Safe n p k a result)))
        (λ _ _. tt)
  result_handled-Safe n p k a result allow e = policy_allowed-Safe n p k a result (ap is_allowing e)
  result_handled-Safe n p k a result log e = policy_allowed-Safe n p k a result (ap is_allowing e)

  pub handle_evaluation_result-Safe :
      (result : Result) (a : AuditRecord)
      → Runs (IsSafe env) (Judged result) (handle_evaluation_result env req result a) (λ _. Always)
  unfolding handle_evaluation_result
  handle_evaluation_result-Safe result a =
      Runs-bind (Runs-keep (set_condition-Quiet env (Judged-grow result) _ _ _ _ _))
        (λ cs. result_handled-Safe (with_conditions cs req) refl refl a result result.action refl)
