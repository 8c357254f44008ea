-- ===== src/Gateway/Create/Filing.antt =====
-- The end of `handleCreateAgentRequest` of cmd/gateway/agent_request_handlers.go: a request is written
-- under a name for its key, an existing one is answered, and a refused one is kept for the audit trail.
use aip_k8s.Prelude.{
  String, Bool, not, ◌||◌, Option, none, some, List, [], ◌∷◌, str_eq, ltb, contains, str_append,
  insert, if◌then◌else◌,
}
use aip_k8s.Api.Policy.{GovernedResource}
use aip_k8s.Api.Request.{Phase, AgentRequest, ResourceRef, phase_name}
use aip_k8s.Effects.{
  Outcome, ok, err, is_not_found, is_already_exists, is_invalid, is_bad_request, pure, attempt,
  ignore, ◌>>=◌, ◌>>◌,
}
use aip_k8s.Gateway.Server.{
  Server, M, Response, client, error_with, duplicate, now, create_request_m, delete_request_m,
  get_request_m, patch_status_m, write_event_m, flush_m,
}
use aip_k8s.Gateway.Names.{compute_dedup_key, deterministic_request_name}
use aip_k8s.Gateway.Review.{respond, fail}
use aip_k8s.Gateway.Wait.{events, await_outcome}
use aip_k8s.Gateway.Create.Body.{CreateBody}

abbrev pub denied_key : String
denied_key = "governance.aip.io/gateway-denied"

unfoldable pub annotated : String → String → AgentRequest → AgentRequest
annotated key value req = record req { annotations = insert key value req.annotations }

abbrev pub ref_to : GovernedResource → Option ResourceRef
ref_to gr = some (record { name = gr.name; generation = gr.generation })

-- `agentReq.Spec.GovernedResourceRef = …`, where a resource governs the request
unfoldable pub governed : Option GovernedResource → AgentRequest → AgentRequest
governed none req = req
governed (some gr) req = record req { spec = record req.spec { resource_ref = ref_to gr } }

unfoldable pub is_terminal_phase : Phase → Bool
is_terminal_phase p = contains ("Denied" ∷ "Completed" ∷ "Failed" ∷ "Expired" ∷ []) (phase_name p)

abbrev stale_message : String
stale_message =
    "previous request for this key is terminal (Completed/Failed/Denied/Expired) — stale object deleted, please retry"

module _ {F : Type 0} (s : Server F) where
  -- The mirror of the reference in the status; a failure is logged.
  unfoldable pub mirror : Option GovernedResource → AgentRequest → M (Unit {0})
  mirror none req = pure tt
  mirror (some gr) req = ignore (
      patch_status_m s req (record req { status = record req.status { resource_ref = ref_to gr } }))

  -- The request is written with the annotation gateway-denied, for the audit trail.
  unfoldable pub denied_created : GovernedResource → Outcome AgentRequest → M (Unit {0})
  denied_created gr (ok created) = mirror (some gr) created
  denied_created gr (err e) = pure tt

  unfoldable pub deny_action : GovernedResource → AgentRequest → M Response
  deny_action gr req = do
    created ←
        attempt (
          create_request_m s (annotated denied_key "ACTION_NOT_PERMITTED" (governed (some gr) req)))
    denied_created gr created
    fail 403 "ACTION_NOT_PERMITTED"

  unfoldable pub duplicate_streamed :
      AgentRequest → List (String × String) → Outcome (Unit {0}) → M Response
  duplicate_streamed existing labels (err e) = pure events
  duplicate_streamed existing labels (ok _) = do
    ignore (write_event_m s "result" (duplicate existing labels))
    pure events

  unfoldable pub duplicate_response : Bool → AgentRequest → List (String × String) → M Response
  duplicate_response sse existing labels =
      if sse
      then (do answer ← attempt (flush_m s); duplicate_streamed existing labels answer)
      else pure (respond 200 (duplicate existing labels))

  unfoldable pub stale_deleted : String → Outcome (Unit {0}) → M Response
  stale_deleted name (ok _) = fail 409 stale_message
  stale_deleted name (err e) =
      if is_not_found e
      then fail 409 stale_message
      else pure (
          respond 500 (
            error_with
              (str_append "dedup: failed to delete stale terminal request "
                (str_append name ": %v"))
              e))

  -- The request of that name that exists.
  unfoldable pub existing_found : Bool → List (String × String) → Outcome AgentRequest → M Response
  existing_found sse labels (err e) =
      pure (respond 500 (error_with "duplicate detected but failed to fetch existing: %v" e))
  existing_found sse labels (ok existing) =
      if is_terminal_phase existing.status.phase
      then (do gone ← attempt (delete_request_m s existing); stale_deleted existing.name gone)
      else duplicate_response sse existing labels

  unfoldable pub created :
      Bool
      → Option GovernedResource
      → AgentRequest
      → List (String × String)
      → Outcome AgentRequest
      → M Response
  created sse gr req labels (ok made) = do
    mirror gr made
    await_outcome s sse made.name req.namespace labels
  created sse gr req labels (err e) =
      if is_already_exists e
      then (do
        read ← attempt (get_request_m s client req.namespace req.name)
        existing_found sse labels read)
      else (if is_invalid e || is_bad_request e
          then pure (respond 400 (error_with "invalid AgentRequest: %v" e))
          else pure (respond 500 (error_with "failed to create AgentRequest: %v" e)))

  -- A name for all requests of the same key in a window.
  unfoldable pub named : CreateBody → AgentRequest → M AgentRequest
  named body req =
      if ltb 0 s.dedup_window
      then (do
        time ← now s
        let key =
            compute_dedup_key s.sha256 req.spec.agent_identity body.action body.target_uri
              req.spec.classification body.dedup_key
        pure (record req {
          name =
              deterministic_request_name s.sha256 s.to_lower s.format_int req.spec.agent_identity
                key s.dedup_window time;
          generate_name = "";
          spec = record req.spec {
            dedup_key =
                if not (str_eq body.dedup_key "") then body.dedup_key else req.spec.dedup_key;
          };
        }))
      else pure req

  unfoldable pub create :
      Bool
      → CreateBody
      → List (String × String)
      → Option GovernedResource
      → AgentRequest
      → M Response
  create sse body labels gr req = do
    request ← named body req
    answer ← attempt (create_request_m s request)
    created sse gr request labels answer
