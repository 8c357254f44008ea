-- ===== src/Controller/Reconcile/Safe.antt =====
-- Every call of a reconcile obeys the rules.
use aip_k8s.Prelude.{String, ◌≡◌, refl, ap, true}
use aip_k8s.Api.Request.{
  Phase, unset, pending, approved, denied, executing, completed, failed, awaiting_verdict, expired,
  observed, unknown, AgentRequest,
}
use aip_k8s.Controller.Types.{Outcome, ok, err, CtrlResult, is_not_found, Trace}
use aip_k8s.Controller.Env.{Env, reader_of}
use aip_k8s.Controller.Monad.{M}
use aip_k8s.Effects.Logic.{
  Hist, Keeps-option, Keeps-bind, Keeps-pure, Keeps-attempt, Runs, Runs-pure, Runs-raise, Runs-bind,
  Runs-keep, Runs-if, Runs-option,
}
use aip_k8s.Controller.Safety.{IsSafe, is_live}
use aip_k8s.Controller.Quiet.{get_request-Quiet}
use aip_k8s.Controller.Audit.Quiet.{backfill_completed_audit_result-Quiet}
use aip_k8s.Controller.Admission.{governed_resource_ref, is_denied}
use aip_k8s.Controller.Admission.Safe.{Answers, Always, always, check_agent_transitions-Safe}
use aip_k8s.Controller.Admission.First.{initialize_phase-Safe}
use aip_k8s.Controller.Admission.Integrity.{check_governed_resource_integrity-Runs}
use aip_k8s.Controller.Pending.Safe.{reconcile_pending-Safe}
use aip_k8s.Controller.Running.Safe.{
  reconcile_approved-Safe, reconcile_executing-Safe, reconcile_awaiting_verdict-Safe,
}
use aip_k8s.Controller.Reconcile.{
  state_machine, initialized, transitioned, admit, backfill, on_phase, fetched, reconcile,
}

module _ (env : Env) (answers : Answers env) where
  abbrev Safe : M CtrlResult → Type 0
  Safe m = Runs (IsSafe env) Always m (λ _. Always)

  module _ (req : AgentRequest) where
    state_machine-Safe : (p : Phase) → req.status.phase ≡ p → Safe (state_machine env p req)
    unfolding state_machine
    state_machine-Safe pending e = reconcile_pending-Safe env answers req e
    state_machine-Safe approved e = Runs-keep (reconcile_approved-Safe env req (ap is_live e))
    state_machine-Safe executing e = Runs-keep (reconcile_executing-Safe env req (ap is_live e))
    state_machine-Safe awaiting_verdict e = Runs-keep (reconcile_awaiting_verdict-Safe env req e)
    state_machine-Safe unset e = Runs-pure _ (λ _ _. tt)
    state_machine-Safe denied e = Runs-pure _ (λ _ _. tt)
    state_machine-Safe completed e = Runs-pure _ (λ _ _. tt)
    state_machine-Safe failed e = Runs-pure _ (λ _ _. tt)
    state_machine-Safe expired e = Runs-pure _ (λ _ _. tt)
    state_machine-Safe observed e = Runs-pure _ (λ _ _. tt)
    state_machine-Safe (unknown s) e = Runs-pure _ (λ _ _. tt)

    initialized-Safe : Safe (initialized env req)
    unfolding initialized
    initialized-Safe =
        Runs-bind (initialize_phase-Safe env req (reader_of env)) (λ handled.
          Runs-if handled (λ _. Runs-pure _ (λ _ _. tt)) (λ _. state_machine-Safe _ refl))

    transitioned-Safe : is_live req.status.phase ≡ true → Safe (transitioned env req)
    unfolding transitioned
    transitioned-Safe live =
        Runs-bind (Runs-keep (check_agent_transitions-Safe env req live))
          (λ handled. Runs-if handled (λ _. Runs-pure _ (λ _ _. tt)) (λ _. initialized-Safe))

  module _ (req : AgentRequest) where
    admit-Safe : is_live req.status.phase ≡ true → Safe (admit env req)
    unfolding admit
    admit-Safe live =
        Runs-option (governed_resource_ref req) (λ _. transitioned-Safe req live)
          (λ ref _.
            Runs-bind (check_governed_resource_integrity-Runs env answers req live ref) (λ r.
              record {
                at = λ t h checked.
                    (Runs-if (is_denied r.status.phase) (λ _. Runs-pure _ (λ _ _. tt))
                        (λ d. transitioned-Safe r (checked d))).at
                      t h tt;
              }))

    backfill-Safe : Safe (backfill env req)
    unfolding backfill
    backfill-Safe = Runs-keep (
        Keeps-option req.status.result (Keeps-pure _) (λ r.
          Keeps-bind (backfill_completed_audit_result-Quiet env always req r) (λ _. Keeps-pure _)))

    on_phase-Safe : (p : Phase) → req.status.phase ≡ p → Safe (on_phase env p req)
    unfolding on_phase
    on_phase-Safe completed e = backfill-Safe
    on_phase-Safe failed e = Runs-pure _ (λ _ _. tt)
    on_phase-Safe denied e = Runs-pure _ (λ _ _. tt)
    on_phase-Safe expired e = Runs-pure _ (λ _ _. tt)
    on_phase-Safe observed e = Runs-pure _ (λ _ _. tt)
    on_phase-Safe unset e = admit-Safe (ap is_live e)
    on_phase-Safe pending e = admit-Safe (ap is_live e)
    on_phase-Safe approved e = admit-Safe (ap is_live e)
    on_phase-Safe executing e = admit-Safe (ap is_live e)
    on_phase-Safe awaiting_verdict e = admit-Safe (ap is_live e)
    on_phase-Safe (unknown s) e = admit-Safe (ap is_live e)

  fetched-Safe : (r : Outcome AgentRequest) → Safe (fetched env r)
  unfolding fetched
  fetched-Safe (ok req) = on_phase-Safe req _ refl
  fetched-Safe (err e) = Runs-if (is_not_found e) (λ _. Runs-pure _ (λ _ _. tt)) (λ _. Runs-raise e)

  reconcile-Runs : (name ns : String) → Safe (reconcile env name ns)
  unfolding reconcile
  reconcile-Runs name ns =
      Runs-bind (Runs-keep (Keeps-attempt (get_request-Quiet env always (reader_of env) name ns)))
        fetched-Safe

  pub reconcile-Safe :
      (name ns : String) (t : Trace)
      → Hist (IsSafe env) t
      → Hist (IsSafe env) (reconcile env name ns t).1
  reconcile-Safe name ns t h = ((reconcile-Runs name ns).at t h tt).0
