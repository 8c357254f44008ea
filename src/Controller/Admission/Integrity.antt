-- ===== src/Controller/Admission/Integrity.antt =====
-- `checkGovernedResourceIntegrity` denies the request or leaves it as it was.
use aip_k8s.Prelude.{String, ◌≡◌, refl, ◌∙◌, true, false, ◌==◌}
use aip_k8s.Api.Policy.{GovernedResource}
use aip_k8s.Api.Request.{denied, Message, ResourceRef, AgentRequest}
use aip_k8s.Controller.Types.{Outcome, ok, err, is_not_found, cached, Trace}
use aip_k8s.Controller.Env.{Env}
use aip_k8s.Effects.Logic.{
  Keeps-attempt, Runs, Runs-pure, Runs-raise, Runs-bind, Runs-keep, Runs-if, Runs-invoke,
}
use aip_k8s.Controller.Safety.{IsSafe, is_live}
use aip_k8s.Controller.Quiet.{Grows, metric-Quiet, get_resource-Quiet}
use aip_k8s.Controller.Audit.Quiet.{emit_audit_record-Quiet}
use aip_k8s.Controller.Lock.Acquire.{release_lock-Quiet}
use aip_k8s.Controller.Admission.Safe.{Answers, Always, always, patch_onward, edge-denied}
use aip_k8s.Controller.Admission.{
  is_denied, with_denial, deny_integrity, resource_fetched, check_governed_resource_integrity,
}

module _ (env : Env) (keeps : Answers env) (req : AgentRequest)
    (live : is_live req.status.phase ≡ true) where
  abbrev IsDenied : AgentRequest → Trace → Type 0
  IsDenied r t = r.status.phase ≡ denied

  -- A request that is not denied is still live.
  abbrev pub Checked : AgentRequest → Trace → Type 0
  Checked r t = is_denied r.status.phase ≡ false → is_live r.status.phase ≡ true

  deny_integrity-Runs :
      (code : String) (m : Message)
      → Runs (IsSafe env) Always (deny_integrity env req code m) Checked
  unfolding deny_integrity
  deny_integrity-Runs code m = Runs-bind (Runs-keep (metric-Quiet env always _)) (λ _.
      Runs-bind (Runs-keep (metric-Quiet env always _)) (λ _.
        Runs-bind (Runs-keep (metric-Quiet env always _)) (λ _.
          Runs-bind {Q = IsDenied}
            (Runs-invoke _ _
              (λ t _.
                patch_onward {b = req} {n = with_denial code m req} (edge-denied _ ∙ live) refl
                  refl)
              (λ t _ r q. (keeps t _ _ r q).0))
            (λ r.
              let g : Grows (IsDenied r) = λ c t e. e in
              Runs-bind (Runs-keep (release_lock-Quiet env r g)) (λ _.
                Runs-bind (Runs-keep (emit_audit_record-Quiet env g r _ _ _ _))
                  (λ _. Runs-pure r (λ t e h. cc)))))))

  resource_fetched-Runs :
      (ref : ResourceRef) (r : Outcome GovernedResource)
      → Runs (IsSafe env) Always (resource_fetched env req ref r) Checked
  unfolding resource_fetched
  resource_fetched-Runs ref (ok gr) =
      Runs-if (gr.generation == ref.generation) (λ _. Runs-pure req (λ t e h. live))
        (λ _. deny_integrity-Runs _ _)
  resource_fetched-Runs ref (err e) =
      Runs-if (is_not_found e) (λ _. deny_integrity-Runs _ _) (λ _. Runs-raise e)

  pub check_governed_resource_integrity-Runs :
      (ref : ResourceRef)
      → Runs (IsSafe env) Always (check_governed_resource_integrity env req ref) Checked
  unfolding check_governed_resource_integrity
  check_governed_resource_integrity-Runs ref =
      Runs-bind (Runs-keep (Keeps-attempt (get_resource-Quiet env always cached ref.name)))
        (λ r. resource_fetched-Runs ref r)
