-- ===== src/Controller/Admission/First.antt =====
-- The first phase of a request obeys the lifecycle diagram and the trust gate.
use aip_k8s.Prelude.{
  String, ◌≡◌, refl, Bool, true, false, arith, has_value, lookup, str_eq, if◌then◌else◌,
}
use aip_k8s.Api.Policy.{GovernedResource}
use aip_k8s.Api.Request.{
  Phase, unset, pending, awaiting_verdict, observed, ResourceRef, AgentRequest,
}
use aip_k8s.Controller.Types.{Outcome, ok, err, is_not_found, Reader, Trace}
use aip_k8s.Controller.Env.{Env}
use aip_k8s.Controller.Monad.{wrap_error, patch_status_m}
use aip_k8s.Effects.Logic.{
  Keeps, Keeps-pure, Keeps-invoke, Keeps-attempt, Runs-weaken, Runs, Runs-pure, Runs-raise,
  Runs-bind, Runs-keep, Runs-if, Runs-option,
}
use aip_k8s.Controller.Safety.{IsSafe, edge, is_pending}
use aip_k8s.Controller.Quiet.{Grows, quiet_calls, get_resource-Quiet}
use aip_k8s.Controller.Audit.Quiet.{emit_audit_record-Quiet}
use aip_k8s.Controller.Admission.Safe.{
  Always, always, safe_rules, to_denied, to_phase, edge-unset, unset-is_live,
}
use aip_k8s.Controller.Admission.{
  is_unset, is_approved, init_denied, init_observed, soak_phase, initial_phase, init_active,
  first_phase, initialize_phase, governed_resource_ref,
}

module _ (env : Env) where
  module _ (req : AgentRequest) where
    -- The first phase of an active request.
    abbrev First : Phase → Type 0
    First p =
        (edge unset p ≡ true × is_approved p ≡ false)
        × (has_value req.annotations "governance.aip.io/can-execute" "false" ≡ true
            → is_pending p ≡ false)

    abbrev Begins : (Phase × String × String) → Trace → Type 0
    Begins r t = First r.0

    First-pending :
        has_value req.annotations "governance.aip.io/can-execute" "false" ≡ false → First pending
    unfolding edge
    First-pending h = ((refl, refl), λ g. cc)

    First-awaiting : First awaiting_verdict
    unfolding edge
    First-awaiting = ((refl, refl), λ g. refl)

    if_First :
        (b : Bool) (x y : Phase × String × String)
        → First x.0
        → First y.0
        → First (if◌then◌else◌ {A = Phase × String × String} b x y).0
    if_First true x y f g = f
    if_First false x y f g = g

    soak_phase-Runs :
        has_value req.annotations "governance.aip.io/can-execute" "false" ≡ false
        → (ref : ResourceRef) (r : Outcome GovernedResource)
        → Runs (IsSafe env) Always (soak_phase env ref r) Begins
    unfolding soak_phase wrap_error
    soak_phase-Runs h ref (ok gr) =
        Runs-pure _ (λ t e. if_First gr.soak_mode _ _ First-awaiting (First-pending h))
    soak_phase-Runs h ref (err e) =
        Runs-if (is_not_found e) (λ _. Runs-pure _ (λ t x. First-pending h)) (λ _. Runs-raise _)

    initial_phase-Runs : (r : Reader) → Runs (IsSafe env) Always (initial_phase env req r) Begins
    unfolding initial_phase
    initial_phase-Runs r =
        Runs-if _ (λ _. Runs-pure _ (λ t e. First-awaiting))
          (λ h.
            Runs-option (governed_resource_ref req) (λ _. Runs-pure _ (λ t e. First-pending h))
              (λ ref _.
                Runs-bind (Runs-keep (Keeps-attempt (get_resource-Quiet env always r ref.name)))
                  (λ gr. soak_phase-Runs h ref gr)))

    module _ (new : is_unset req.status.phase ≡ true) where
      init_denied-Safe : (code : String) → Keeps (IsSafe env) Always (init_denied env req code)
      unfolding init_denied
      init_denied-Safe code = search (safe_rules, to_denied env req (unset-is_live _ new)) depth 12

      init_observed-Safe : Keeps (IsSafe env) Always (init_observed env req)
      unfolding init_observed edge
      init_observed-Safe =
          search (safe_rules, to_phase env req observed (edge-unset _ observed new) refl refl) depth
            12

      first_patch :
          (x : Phase × String × String) (n : AgentRequest)
          → n.status.phase ≡ x.0
          → Keeps (IsSafe env) (Begins x) (patch_status_m env req n)
      first_patch x n e =
          Keeps-invoke _ _
            (λ t f. record {
              legal = rw (e, edge-unset _ x.0 new) f.0.0;
              locked = λ h. cc;
              permitted = λ h. cc;
              gated = λ u g. rw e (f.1 g);
            })
            (λ t f. f)

      init_active-Safe :
          (r : Reader) → Runs (IsSafe env) Always (init_active env req r) (λ _. Always)
      unfolding init_active
      init_active-Safe r = Runs-bind (initial_phase-Runs r) (λ x.
          let g : Grows (Begins x) = λ c t e. e in
          Runs-weaken
            (Runs-keep (search (quiet_calls, g, emit_audit_record-Quiet, first_patch) depth 12))
            (λ _ _ _. tt))

      first_phase-Safe :
          (r : Reader) → Runs (IsSafe env) Always (first_phase env req r) (λ _. Always)
      unfolding first_phase
      first_phase-Safe r =
          Runs-option (lookup "governance.aip.io/gateway-denied" req.annotations) (λ _. rest)
            (λ code _.
              Runs-if (str_eq code "") (λ _. rest) (λ _. Runs-keep (init_denied-Safe code)))
        where
          rest :
              Runs
                (IsSafe env)
                Always
                (if req.spec.observe then init_observed env req else init_active env req r)
                (λ _. Always)
          rest =
              Runs-if req.spec.observe (λ _. Runs-keep init_observed-Safe) (λ _. init_active-Safe r)

    pub initialize_phase-Safe :
        (r : Reader) → Runs (IsSafe env) Always (initialize_phase env req r) (λ _. Always)
    unfolding initialize_phase
    initialize_phase-Safe r =
        Runs-if _ (λ _. Runs-keep (Keeps-pure false)) (λ h. first_phase-Safe (ground arith) r)
