-- ===== src/Controller/Audit.antt =====
-- Audit records: `deterministicAuditName`, `emitAuditRecord`, `createAuditWithRetry` and
-- `backfillCompletedAuditResult`.
pub mod Quiet
pub mod Bounds
use Prim.Native.String.{slice}
use aip_k8s.Prelude.{
  ℕ, zero, suc, String, Bool, Option, none, some, List, [], ◌∷◌, ◌++◌, ◌&&◌, ◌||◌, not, str_eq,
  str_append, is_some, lookup, if◌then◌else◌,
}
use aip_k8s.Api.Request.{Phase, phase_name, AgentRequest, RequestResult}
use aip_k8s.Controller.Types.{Err, Outcome, ok, err, AuditRecord, is_already_exists, other}
use aip_k8s.Controller.Env.{Env}
use aip_k8s.Controller.Monad.{
  M, pure, raise, attempt, ◌>>=◌, ◌>>◌, now, create_audit_m, patch_audit_m, list_audits_m,
}

abbrev pub request_submitted : String
request_submitted = "request.submitted"

abbrev pub request_observed : String
request_observed = "request.observed"

abbrev pub request_approved : String
request_approved = "request.approved"

abbrev pub request_denied : String
request_denied = "request.denied"

abbrev pub request_executing : String
request_executing = "request.executing"

abbrev pub request_completed : String
request_completed = "request.completed"

abbrev pub request_failed : String
request_failed = "request.failed"

abbrev pub request_expired : String
request_expired = "request.expired"

abbrev pub verdict_submitted : String
verdict_submitted = "verdict.submitted"

abbrev pub lock_acquired : String
lock_acquired = "lock.acquired"

abbrev pub lock_released : String
lock_released = "lock.released"

abbrev pub lock_expired : String
lock_expired = "lock.expired"

abbrev pub policy_evaluated : String
policy_evaluated = "policy.evaluated"

abbrev pub heartbeat_timeout : String
heartbeat_timeout = "heartbeat.timeout"

-- `if v, ok := m[key]; ok && v != "" { labels[key] = v }`
abbrev pub copy_label : String → List (String × String) → List (String × String)
copy_label key m = elim (lookup key m) [
  | none ↦ []
  | some v ↦ if str_eq v "" then [] else (key, v) ∷ []
]

pub audit_labels : AgentRequest → List (String × String)
audit_labels req =
    ("aip.io/agentRequestRef", req.name)
    ∷ (copy_label "aip.io/agentIdentity" req.labels ++ copy_label "aip.io/correlationID" req.labels)

-- A transition is recorded where both phases are given.
abbrev is_unset : Phase → Bool
is_unset p = str_eq (phase_name p) ""

module _ (env : Env) where
  pub deterministic_audit_name : String → String → String → String → String
  deterministic_audit_name resource event a b =
      slice
        (env.sha256_hex (
          str_append resource
            (str_append "|" (str_append event (str_append "|" (str_append a (str_append "|" b)))))))
        0 53

  -- SetControllerReference, whose error is logged only.
  pub owned_by : AgentRequest → AuditRecord → AuditRecord
  owned_by req a = elim (env.controller_reference req a) [ none ↦ a | some a' ↦ a' ]

  -- `json.Marshal(req.Status.Result)`, for a completed request that has a result.
  result_details : AgentRequest → String → Option String
  result_details req event =
      if str_eq event request_completed
      then elim req.status.result [ none ↦ none | some r ↦ env.marshal_result r ]
      else none

  pub audit_for : AgentRequest → String → Phase → Phase → List (String × String) → ℕ → AuditRecord
  audit_for req event from to annotations time = owned_by req (record {
    name = deterministic_audit_name req.name event (phase_name from) (phase_name to);
    namespace = req.namespace;
    labels = audit_labels req;
    owners = [];
    timestamp = time;
    agent_identity = req.spec.agent_identity;
    agent_request_ref = req.name;
    event = event;
    action = req.spec.action;
    target_uri = req.spec.target_uri;
    reason = req.spec.reason;
    policy_evaluations = [];
    phase_transition = if is_unset from || is_unset to then none else some (from, to);
    annotations = annotations;
    details = result_details req event;
  })

  -- An audit record that exists already is not an error.
  audit_created : Outcome (Unit {0}) → M (Unit {0})
  audit_created (ok _) = pure tt
  audit_created (err e) = if is_already_exists e then pure tt else raise e

  pub emit_audit_record :
      AgentRequest → String → Phase → Phase → List (String × String) → M (Unit {0})
  emit_audit_record req event from to annotations = do
    time ← now env
    created ← attempt (create_audit_m env (audit_for req event from to annotations time))
    audit_created created

  -- `for range 3`: `rounds` attempts are left, after the error `last`.
  retry_audit : ℕ → Err → AuditRecord → M (Unit {0})
  retry_audit zero last a = raise last
  retry_audit (suc rounds) last a = do
    created ← attempt (create_audit_m env a)
    elim created [
      | ok _ ↦ pure tt
      | err e ↦ if is_already_exists e then pure tt else retry_audit rounds e a
    ]

  -- The initial error stands for the nil `lastErr`; three rounds always replace it.
  pub create_audit_with_retry : AuditRecord → M (Unit {0})
  create_audit_with_retry = retry_audit 3 (other "")

  needs_backfill : AuditRecord → Bool
  needs_backfill a = str_eq a.event request_completed && not (is_some a.details)

  backfill_records : String → List AuditRecord → M (Unit {0})
  backfill_records json [] = pure tt
  backfill_records json (a ∷ as') =
      let rest = backfill_records json as' in
      if needs_backfill a
      then patch_audit_m env a (record a { details = some json }) >> rest
      else rest

  backfill_marshalled : Option String → List AuditRecord → M (Unit {0})
  backfill_marshalled none records = raise (other "marshalling result for audit backfill")
  backfill_marshalled (some json) records = backfill_records json records

  pub backfill_completed_audit_result : AgentRequest → RequestResult → M (Unit {0})
  backfill_completed_audit_result req result = do
    records ← list_audits_m env req.namespace req.name
    backfill_marshalled (env.marshal_result result) records
