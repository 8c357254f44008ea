-- ===== src/Controller/Pending/Safe.antt =====
-- `reconcilePending` obeys the rules.
use aip_k8s.Prelude.{◌≡◌, refl, ◌∙◌, sym, String, Option, none, some, List, is_some}
use aip_k8s.Api.Policy.{SafetyPolicy}
use aip_k8s.Api.Request.{pending, ResourceRef, AgentRequest}
use aip_k8s.Controller.Types.{Outcome, ok, err, CtrlResult, requeue, Trace}
use aip_k8s.Controller.Env.{Env, reader_of}
use aip_k8s.Controller.Monad.{M}
use aip_k8s.Effects.Logic.{
  Keeps, Keeps-pure, Keeps-bind, Runs, Runs-pure, Runs-raise, Runs-bind, Runs-keep, Runs-if,
  Runs-pre, Runs-attempt, Runs-invoke, After-ok, Runs-attempt_invoke,
}
use aip_k8s.Controller.Safety
use aip_k8s.Controller.Safety.{IsSafe, Permitted, is_allowing, key}
use aip_k8s.Controller.Quiet.{
  Grows, metric-Quiet, now-Quiet, get_resource-Quiet, list_policies-Quiet,
}
use aip_k8s.Controller.Context.{Contexts}
use aip_k8s.Controller.Context.Quiet.{
  fetch_target_context-Quiet, Provided, fetch_context_from_provider-Runs,
}
use aip_k8s.Controller.Admission.{has_condition}
use aip_k8s.Controller.Admission.Safe.{Answers, Always, always}
use aip_k8s.Controller.Decision.Safe.{handle_lock_acquisition-Safe, handle_approval_wait-Safe}
use aip_k8s.Controller.Decision.Judged.{
  Judged, Judged-grow, stay_pending, handle_evaluation_result-Safe,
}
use aip_k8s.Controller.Pending.{
  applicable, resource_labels, unwrap, run_evaluator, with_verification, evaluate_policies,
  provider_fetched, provider_step, first_evaluation, reconcile_pending,
}
use aip_k8s.Evaluation.State.{Result}

module _ (env : Env) (answers : Answers env) where
  abbrev Safe : M CtrlResult → Type 0
  Safe m = Runs (IsSafe env) Always m (λ _. Always)

  resource_labels-Quiet :
      (ref : Option ResourceRef) → Keeps (IsSafe env) Always (resource_labels env ref)
  unfolding resource_labels
  resource_labels-Quiet none = Keeps-pure none
  resource_labels-Quiet (some ref) =
      Keeps-bind (get_resource-Quiet env always (reader_of env) ref.name) (λ gr. Keeps-pure _)

  module _ (req : AgentRequest) (waiting : req.status.phase ≡ pending) where
    abbrev Answered : Outcome Result → Trace → Type 0
    Answered r t = (result : Result) → r ≡ ok result → Judged env answers req waiting result t

    unwrap-Runs :
        (r : Outcome Result)
        → Runs (IsSafe env) (Answered r) (unwrap env r) (Judged env answers req waiting)
    unfolding unwrap
    unwrap-Runs (ok a) = Runs-pure a (λ t e. e a refl)
    unwrap-Runs (err x) = Runs-raise x

    run_evaluator-Runs :
        (ps : List SafetyPolicy) (c : Contexts)
        → Runs (IsSafe env) Always (run_evaluator env req ps c) (Judged env answers req waiting)
    unfolding run_evaluator
    run_evaluator-Runs ps c =
        Runs-bind {Q = Answered}
          (Runs-attempt_invoke _ _ (λ _ _. tt)
            (λ t _ result q r k a. Safety.Permitted.by_evaluation result q (sym k) a))
          (λ r.
            let g : Grows (Answered r) =
              λ c t e x q. Judged-grow env answers req waiting x c t (e x q) in
            Runs-bind (Runs-keep (metric-Quiet env g _)) (λ _. unwrap-Runs r))

  -- Whatever the verification adds, the request stays pending.
  abbrev Waits : AgentRequest → Trace → Type 0
  Waits r t = r.status.phase ≡ pending

  with_verification-Runs :
      (req : AgentRequest)
      → req.status.phase ≡ pending
      → (c : Contexts) → Runs (IsSafe env) Always (with_verification env req c) Waits
  unfolding with_verification
  with_verification-Runs req waiting (none, cs) = Runs-pure req (λ _ _. waiting)
  with_verification-Runs req waiting (some c, cs) =
      Runs-bind (Runs-keep (now-Quiet env always)) (λ time. Runs-pure _ (λ _ _. waiting))

  evaluate_policies-Safe :
      (req : AgentRequest)
      → req.status.phase ≡ pending
      → (ps : List SafetyPolicy) (c : Contexts) → Safe (evaluate_policies env req ps c)
  unfolding evaluate_policies
  evaluate_policies-Safe req waiting ps c = Runs-bind (with_verification-Runs req waiting c) (λ r.
      record {
        at = λ t h w.
            (Runs-bind (run_evaluator-Runs r w ps c) (λ result.
                Runs-bind (Runs-keep (now-Quiet env (Judged-grow env answers r w result)))
                  (λ time. handle_evaluation_result-Safe env answers r w result _))).at
              t h tt;
      })

  module _ (req : AgentRequest) (waiting : req.status.phase ≡ pending) where
    provider_fetched-Safe :
        (ps : List SafetyPolicy) (c : Contexts) (r : Outcome (AgentRequest × Option String))
        → Runs
            (IsSafe env)
            (λ t. (x : AgentRequest × Option String) → r ≡ ok x → x.0.status.phase ≡ pending)
            (provider_fetched env req ps c r)
            (λ _. Always)
    unfolding provider_fetched
    provider_fetched-Safe ps c (err e) =
        Runs-pre (evaluate_policies-Safe req waiting ps c) (λ _ _. tt)
    provider_fetched-Safe ps c (ok (r, none)) = record {
      at = λ t h w. (evaluate_policies-Safe r (w _ refl) ps c).at t h tt;
    }
    provider_fetched-Safe ps c (ok (r, some json)) =
        Runs-bind {Q = λ _. Always}
          (Runs-invoke _ _ (λ t w. stay_pending env answers req waiting r _ (w _ refl) (w _ refl) t)
            (λ _ _ _ _. tt))
          (λ _. Runs-pure requeue (λ _ _. tt))

    provider_step-Safe :
        (ps : List SafetyPolicy) (c : Contexts) (ref : Option ResourceRef)
        → Safe (provider_step env req ps c ref)
    unfolding provider_step
    provider_step-Safe ps c none = evaluate_policies-Safe req waiting ps c
    provider_step-Safe ps c (some ref) =
        Runs-if (is_some req.status.provider_context) (λ _. evaluate_policies-Safe req waiting ps c)
          (λ _.
            Runs-bind (Runs-keep (get_resource-Quiet env always (reader_of env) ref.name)) (λ gr.
              Runs-bind (Runs-attempt (fetch_context_from_provider-Runs env always req gr)) (λ r.
                Runs-pre (provider_fetched-Safe ps c r) (λ t a. λ x e.
                  (After-ok (Provided env {Ev = Always} always req) r t a x e).0.0 ∙ waiting))))

    first_evaluation-Safe : Safe (first_evaluation env req)
    unfolding first_evaluation
    first_evaluation-Safe = Runs-bind (Runs-keep (list_policies-Quiet env always _ _)) (λ ps.
        Runs-bind (Runs-keep (resource_labels-Quiet _)) (λ labels.
          Runs-bind (Runs-keep (fetch_target_context-Quiet env always req))
            (λ c. provider_step-Safe (applicable env labels ps) c _)))

    pub reconcile_pending-Safe : Safe (reconcile_pending env req)
    unfolding reconcile_pending
    reconcile_pending-Safe =
        Runs-if (has_condition env req "PolicyEvaluated")
          (λ e.
            Runs-if (has_condition env req "RequiresApproval")
              (λ _. handle_approval_wait-Safe env req waiting)
              (λ r.
                Runs-pre (handle_lock_acquisition-Safe env req waiting _)
                  (λ t _. Safety.Permitted.by_condition e r)))
          (λ _. first_evaluation-Safe)
