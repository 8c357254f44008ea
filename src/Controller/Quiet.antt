-- ===== src/Controller/Quiet.antt =====
-- The calls that write neither statuses nor leases keep every fact that a longer trace keeps.
use aip_k8s.Prelude.{String, Bool, ◌∷◌, List}
use aip_k8s.Api.Request.{Condition, Message}
use aip_k8s.Controller.Types.{Outcome, ok, err, Lease, AuditRecord, Metric, Reader, Call, Trace}
use aip_k8s.Controller.Env.{Env}
use aip_k8s.Controller.Monad.{
  wrap_error, metric, now, get_request_m, get_resource_m, get_lease_m, list_policies_m,
  list_audits_m, create_lease_m, delete_lease_m, create_audit_m, patch_audit_m, fetch_target_m,
  fetch_provider_m, set_condition,
}
use aip_k8s.Effects.Logic.{
  Keeps, Keeps-pure, Keeps-raise, Keeps-invoke, Keeps-attempt, Keeps-if, Keeps-option, Keeps-bind,
  Keeps-then, Keeps-ignore,
}
use aip_k8s.Controller.Safety.{IsSafe}

-- A fact that stays true as the trace grows.
abbrev pub Grows : (Trace → Type 0) → Type 0
Grows Ev = (c : Call) (t : Trace) → Ev t → Ev (c ∷ t)

module _ (env : Env) {Ev : Trace → Type 0} (grow : Grows Ev) where
  pub metric-Quiet : (m : Metric) → Keeps (IsSafe env) Ev (metric m)
  metric-Quiet m = Keeps-invoke _ _ (λ _ _. tt) (grow _)

  pub now-Quiet : Keeps (IsSafe env) Ev (now env)
  now-Quiet = Keeps-invoke _ _ (λ _ _. tt) (grow _)

  pub get_request-Quiet :
      (r : Reader) (n ns : String) → Keeps (IsSafe env) Ev (get_request_m env r n ns)
  get_request-Quiet r n ns = Keeps-invoke _ _ (λ _ _. tt) (grow _)

  pub get_resource-Quiet :
      (r : Reader) (n : String) → Keeps (IsSafe env) Ev (get_resource_m env r n)
  get_resource-Quiet r n = Keeps-invoke _ _ (λ _ _. tt) (grow _)

  pub get_lease-Quiet :
      (r : Reader) (n ns : String) → Keeps (IsSafe env) Ev (get_lease_m env r n ns)
  get_lease-Quiet r n ns = Keeps-invoke _ _ (λ _ _. tt) (grow _)

  pub list_policies-Quiet :
      (r : Reader) (ns : String) → Keeps (IsSafe env) Ev (list_policies_m env r ns)
  list_policies-Quiet r ns = Keeps-invoke _ _ (λ _ _. tt) (grow _)

  pub list_audits-Quiet : (ns n : String) → Keeps (IsSafe env) Ev (list_audits_m env ns n)
  list_audits-Quiet ns n = Keeps-invoke _ _ (λ _ _. tt) (grow _)

  pub create_lease-Quiet : (l : Lease) → Keeps (IsSafe env) Ev (create_lease_m env l)
  create_lease-Quiet l = Keeps-invoke _ _ (λ _ _. tt) (grow _)

  pub delete_lease-Quiet : (l : Lease) → Keeps (IsSafe env) Ev (delete_lease_m env l)
  delete_lease-Quiet l = Keeps-invoke _ _ (λ _ _. tt) (grow _)

  pub create_audit-Quiet : (a : AuditRecord) → Keeps (IsSafe env) Ev (create_audit_m env a)
  create_audit-Quiet a = Keeps-invoke _ _ (λ _ _. tt) (grow _)

  pub patch_audit-Quiet : (b a : AuditRecord) → Keeps (IsSafe env) Ev (patch_audit_m env b a)
  patch_audit-Quiet b a = Keeps-invoke _ _ (λ _ _. tt) (grow _)

  pub fetch_target-Quiet : (uri ns : String) → Keeps (IsSafe env) Ev (fetch_target_m env uri ns)
  fetch_target-Quiet uri ns = Keeps-invoke _ _ (λ _ _. tt) (grow _)

  pub fetch_provider-Quiet : (f uri : String) → Keeps (IsSafe env) Ev (fetch_provider_m env f uri)
  fetch_provider-Quiet f uri = Keeps-invoke _ _ (λ _ _. tt) (grow _)

  pub set_condition-Quiet :
      (cs : List Condition) (type : String) (status : Bool) (reason : String) (message : Message)
      → Keeps (IsSafe env) Ev (set_condition env cs type status reason message)
  unfolding set_condition
  set_condition-Quiet cs type status reason message = record { keep = λ t h e. (h, e) }

  pub wrap_error-Quiet :
      {A : Type 0} (s : String) (r : Outcome A) → Keeps (IsSafe env) Ev (wrap_error s r)
  unfolding wrap_error
  wrap_error-Quiet s (ok a) = Keeps-pure a
  wrap_error-Quiet s (err e) = Keeps-raise _

pub ruleset quiet_calls = (
  Keeps-pure, Keeps-raise, Keeps-attempt, Keeps-if, Keeps-option, Keeps-bind, Keeps-then,
  Keeps-ignore, wrap_error-Quiet, set_condition-Quiet, metric-Quiet, now-Quiet, get_request-Quiet,
  get_resource-Quiet, get_lease-Quiet, list_policies-Quiet, list_audits-Quiet, create_lease-Quiet,
  delete_lease-Quiet, create_audit-Quiet, patch_audit-Quiet, fetch_target-Quiet,
  fetch_provider-Quiet,
)
