-- ===== src/Controller/Audit/Quiet.antt =====
-- The audit actions write neither statuses nor leases.
use aip_k8s.Prelude.{ℕ, zero, suc, String, none, some, Option, List, [], ◌∷◌}
use aip_k8s.Api.Request.{Phase, AgentRequest, RequestResult}
use aip_k8s.Controller.Types.{Err, Outcome, ok, err, AuditRecord, is_already_exists, Trace}
use aip_k8s.Controller.Env.{Env}
use aip_k8s.Controller.Monad.{M}
use aip_k8s.Effects.Logic.{Keeps, Keeps-pure, Keeps-raise, Keeps-attempt, Keeps-if, Keeps-bind}
use aip_k8s.Controller.Quiet.{Grows, quiet_calls, create_audit-Quiet, patch_audit-Quiet}
use aip_k8s.Controller.Safety.{IsSafe}
use aip_k8s.Controller.Audit.{
  audit_created, emit_audit_record, retry_audit, create_audit_with_retry, needs_backfill,
  backfill_records, backfill_marshalled, backfill_completed_audit_result,
}

module _ (env : Env) {Ev : Trace → Type 0} (grow : Grows Ev) where
  abbrev Quiet : {A : Type 0} → M A → Type 0
  Quiet m = Keeps (IsSafe env) Ev m

  audit_created-Quiet : (r : Outcome (Unit {0})) → Quiet (audit_created env r)
  unfolding audit_created
  audit_created-Quiet (ok _) = search quiet_calls
  audit_created-Quiet (err e) = search quiet_calls

  pub emit_audit_record-Quiet :
      (req : AgentRequest) (event : String) (from to : Phase) (annotations : List (String × String))
      → Keeps (IsSafe env) Ev (emit_audit_record env req event from to annotations)
  unfolding emit_audit_record
  emit_audit_record-Quiet req event from to annotations = search (quiet_calls, audit_created-Quiet)

  retry_audit-Quiet : (n : ℕ) (e : Err) (a : AuditRecord) → Quiet (retry_audit env n e a)
  unfolding retry_audit
  retry_audit-Quiet zero e a = Keeps-raise e
  retry_audit-Quiet (suc n) e a = Keeps-bind (Keeps-attempt (create_audit-Quiet env grow a)) (elim [
    | ok _ ↦ Keeps-pure tt
    | err x ↦ Keeps-if (is_already_exists x) (Keeps-pure tt) (retry_audit-Quiet n x a)
  ])

  pub create_audit_with_retry-Quiet :
      (a : AuditRecord) → Keeps (IsSafe env) Ev (create_audit_with_retry env a)
  unfolding create_audit_with_retry
  create_audit_with_retry-Quiet a = retry_audit-Quiet 3 _ a

  backfill_records-Quiet :
      (json : String) (as' : List AuditRecord) → Quiet (backfill_records env json as')
  unfolding backfill_records
  backfill_records-Quiet json [] = Keeps-pure tt
  backfill_records-Quiet json (a ∷ as') =
      let rest = backfill_records-Quiet json as' in
      Keeps-if (needs_backfill env a) (Keeps-bind (patch_audit-Quiet env grow _ _) (λ _. rest)) rest

  backfill_marshalled-Quiet :
      (json : Option String) (as' : List AuditRecord) → Quiet (backfill_marshalled env json as')
  unfolding backfill_marshalled
  backfill_marshalled-Quiet none as' = Keeps-raise _
  backfill_marshalled-Quiet (some json) as' = backfill_records-Quiet json as'

  pub backfill_completed_audit_result-Quiet :
      (req : AgentRequest) (r : RequestResult)
      → Keeps (IsSafe env) Ev (backfill_completed_audit_result env req r)
  unfolding backfill_completed_audit_result
  backfill_completed_audit_result-Quiet req r = search (quiet_calls, backfill_marshalled-Quiet)
