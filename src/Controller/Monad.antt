-- ===== src/Controller/Monad.antt =====
-- Actions of the reconciler: the calls go to the trace, and an error ends the action.
unfoldable pub use aip_k8s.Effects.{
  Act, pure, raise, invoke, attempt, continue, ◌>>=◌, ◌>>◌, wrap_error, ignore,
}
use aip_k8s.Prelude.{ℕ, String, Bool, List}
use aip_k8s.Api.Policy.{SafetyPolicy, GovernedResource}
use aip_k8s.Api.Request.{AgentRequest, Condition, Message}
use aip_k8s.Controller.Types.{
  ok, Lease, AuditRecord, Metric, Reader, Call, read_clock, count, get_request, get_resource,
  get_lease, list_policies, list_audits, patch_status, create_lease, patch_lease, delete_lease,
  create_audit, patch_audit, fetch_target, fetch_provider,
}
use aip_k8s.Controller.Env.{Env, Fetched}

abbrev pub M : Type 0 → Type 0
M = Act Call

abbrev pub metric : Metric → M (Unit {0})
metric m = invoke (count m) (λ _. ok tt)

module _ (env : Env) where
  abbrev pub now : M ℕ
  now = invoke read_clock (λ t. ok (env.clock t))

  abbrev pub get_request_m : Reader → String → String → M AgentRequest
  get_request_m r n ns = invoke (get_request r n ns) (λ t. env.on_get_request t r n ns)

  abbrev pub get_resource_m : Reader → String → M GovernedResource
  get_resource_m r n = invoke (get_resource r n) (λ t. env.on_get_resource t r n)

  abbrev pub get_lease_m : Reader → String → String → M Lease
  get_lease_m r n ns = invoke (get_lease r n ns) (λ t. env.on_get_lease t r n ns)

  abbrev pub list_policies_m : Reader → String → M (List SafetyPolicy)
  list_policies_m r ns = invoke (list_policies r ns) (λ t. env.on_list_policies t r ns)

  abbrev pub list_audits_m : String → String → M (List AuditRecord)
  list_audits_m ns n = invoke (list_audits ns n) (λ t. env.on_list_audits t ns n)

  -- `Status().Patch(ctx, new, MergeFrom(base))` leaves the server's answer in the object.
  abbrev pub patch_status_m : AgentRequest → AgentRequest → M AgentRequest
  patch_status_m base new = invoke (patch_status base new) (λ t. env.on_patch_status t base new)

  abbrev pub create_lease_m : Lease → M (Unit {0})
  create_lease_m l = invoke (create_lease l) (λ t. env.on_create_lease t l)

  abbrev pub patch_lease_m : Lease → Lease → M (Unit {0})
  patch_lease_m base new = invoke (patch_lease base new) (λ t. env.on_patch_lease t base new)

  abbrev pub delete_lease_m : Lease → M (Unit {0})
  delete_lease_m l = invoke (delete_lease l) (λ t. env.on_delete_lease t l)

  abbrev pub create_audit_m : AuditRecord → M (Unit {0})
  create_audit_m a = invoke (create_audit a) (λ t. env.on_create_audit t a)

  abbrev pub patch_audit_m : AuditRecord → AuditRecord → M (Unit {0})
  patch_audit_m base new = invoke (patch_audit base new) (λ t. env.on_patch_audit t base new)

  abbrev pub fetch_target_m : String → String → M Fetched
  fetch_target_m uri ns = invoke (fetch_target uri ns) (λ t. ok (env.on_fetch_target t uri ns))

  abbrev pub fetch_provider_m : String → String → M String
  fetch_provider_m f uri = invoke (fetch_provider f uri) (λ t. env.on_fetch_provider t f uri)

  -- `meta.SetStatusCondition` with a status, a reason and a message.
  unfoldable pub set_condition :
      List Condition → String → Bool → String → Message → M (List Condition)
  set_condition cs type status reason message t = (
    ok (
        env.set_status_condition t cs (record {
          type = type;
          is_true = status;
          reason = reason;
          message = message;
          last_transition = 0;
        })),
    t,
  )
