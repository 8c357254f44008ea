-- ===== src/Gateway/Lifecycle.antt =====
-- cmd/gateway/agent_request_lifecycle_handlers.go: an agent reads its request, reports that it
-- executes and completes it, and records a result.
pub mod Safe
use Prim.Native.String.{len}
use aip_k8s.Prelude.{
  String, true, not, ◌&&◌, ◌||◌, Option, none, some, List, [], ◌∷◌, str_eq, str_append, ltb,
  if◌then◌else◌, on_option,
}
use aip_k8s.Api.Request.{AgentRequest, phase_name, text, sprintf, str}
use aip_k8s.Effects.{
  Err, Outcome, ok, err, other, is_not_found, pure, raise, invoke, attempt, ◌>>=◌, ◌>>◌,
}
use aip_k8s.Gateway.Roles.{Role}
use aip_k8s.Gateway.Server.{
  Server, M, Call, HttpRequest, Response, client, api_reader, set_variable, error, error_of,
  error_with, message, details, namespace_or_default, get_request_m, list_audit_events_m,
  patch_status_m,
}
use aip_k8s.Gateway.Review.{respond, fail, fail_with, is_phase, with_role}

pub record ResultBody : Type 0 where
  pub url : String
  pub summary : String

-- The events of the records with the name of the request.
events_of : String → List (String × String) → List String
events_of name [] = []
events_of name ((ref, event) ∷ records) =
    let rest = events_of name records in if str_eq ref name then event ∷ rest else rest

read_failed : Err → Response
read_failed e =
    if is_not_found e
    then respond 404 (error (text "AgentRequest not found"))
    else respond 500 (error_of e)

-- The value that a closure has last assigned to its captured variable.
assigned : List Call → String
assigned [] = ""
assigned (set_variable v ∷ t) = v
assigned (c ∷ t) = assigned t

module _ {F : Type 0} (s : Server F) where
  request_details : String → String → Outcome AgentRequest → M Response
  request_details ns name (err e) = pure (read_failed e)
  request_details ns name (ok req) = do
    listed ← attempt (list_audit_events_m s ns)
    pure (respond 200 (details req (elim listed [ ok rs ↦ events_of name rs | err _ ↦ [] ])))

  pub handle_get : HttpRequest (Unit {0}) → M Response
  handle_get r =
      if s.auth_required && str_eq r.sub "" then fail 401 "caller identity required" else do
        answer ← attempt (get_request_m s client (namespace_or_default r.namespace) r.name)
        request_details (namespace_or_default r.namespace) r.name answer

  -- The body of the retry of `patchAgentRequestCondition`.
  set_condition : String → String → String → String → String → M (Unit {0})
  set_condition ns name type reason m = do
    req ← get_request_m s client ns name
    conditions ← λ t. (
      ok (
          s.set_status_condition t req.status.conditions (record {
            type = type;
            is_true = true;
            reason = reason;
            message = text m;
            last_transition = 0;
          })),
      t,
    )
    patch_status_m s req (record req { status = record req.status { conditions = conditions } })

  patch_answer : String → Outcome (Unit {0}) → Response
  patch_answer type (ok _) =
      respond 200 (message (str_append "successfully patched condition " type))
  patch_answer type (err e) =
      if is_not_found e
      then respond 404 (error (text "AgentRequest not found"))
      else respond 500 (error_with "failed to update status: %v" e)

  patch_condition : String → String → String → String → String → M Response
  patch_condition ns name type reason m = do
    patched ← attempt (s.retry_on_conflict (set_condition ns name type reason m))
    pure (patch_answer type patched)

  -- The checks of a transition: the creating agent, and the phase to start from.
  transition : String → String → M Response → String → Outcome AgentRequest → M Response
  transition from complaint next sub (err e) = pure (read_failed e)
  transition from complaint next sub (ok req) =
      if s.auth_required && not (str_eq req.spec.agent_identity sub)
      then fail 403 "forbidden: only the creating agent may transition this request"
      else (if not (is_phase from req)
          then fail_with 409 (sprintf complaint (str (phase_name req.status.phase) ∷ []))
          else next)

  handle_transition :
      String → String → String → String → String → HttpRequest (Unit {0}) → M Response
  handle_transition from complaint type reason m r =
      let ns = namespace_or_default r.namespace in
      with_role s Role.agent r (do
        answer ← attempt (get_request_m s client ns r.name)
        transition from complaint (patch_condition ns r.name type reason m) r.sub answer)

  pub handle_executing : HttpRequest (Unit {0}) → M Response
  handle_executing =
      handle_transition "Approved"
        "request is in phase %q — can only transition to Executing from Approved" "Executing"
        "AgentStarted" "Agent is now executing action"

  pub handle_completed : HttpRequest (Unit {0}) → M Response
  handle_completed =
      handle_transition "Executing"
        "request is in phase %q — can only transition to Completed from Executing" "Completed"
        "ActionSuccess" "Agent successfully completed the action"

  -- The body of the retry of `handlePutAgentRequestResult`, with its captured `wrongPhase`.
  record_result : String → String → ResultBody → M (Unit {0})
  record_result ns name body = do
    req ← get_request_m s api_reader ns name
    if not (is_phase "Executing" req) && not (is_phase "Completed" req)
        then (do
          invoke (set_variable (phase_name req.status.phase)) (λ _. ok tt)
          raise (other "wrong phase"))
        else patch_status_m s req (record req {
          status = record req.status {
            result = some (record { url = body.url; summary = body.summary });
          };
        })

  result_answer : String → Outcome (Unit {0}) → Response
  result_answer wrong_phase (ok _) = respond 200 (message "result recorded")
  result_answer wrong_phase (err e) =
      if not (str_eq wrong_phase "")
      then respond 409 (
          error (
            sprintf "request is in phase %q — result can only be recorded in Executing or Completed"
              (str wrong_phase ∷ [])))
      else (if is_not_found e
          then respond 404 (error (text "AgentRequest not found"))
          else respond 500 (error_with "failed to record result: %v" e))

  put_result : String → HttpRequest ResultBody → ResultBody → Outcome AgentRequest → M Response
  put_result ns r body (err e) = pure (read_failed e)
  put_result ns r body (ok req) =
      if s.auth_required && not (str_eq req.spec.agent_identity r.sub)
      then fail 403 "forbidden: only the creating agent may record a result"
      else (do
        invoke (set_variable "") (λ _. ok tt)
        recorded ← attempt (s.retry_on_conflict (record_result ns r.name body))
        wrong_phase ← λ t. (ok (assigned t), t)
        pure (result_answer wrong_phase recorded))

  invalid_result : ResultBody → Option String
  invalid_result body =
      if str_eq body.url "" || not (s.has_https_prefix body.url) || ltb (len body.url) 9
      then some "url must be a valid https URL"
      else (if ltb 512 (s.rune_count body.summary)
          then some "summary must be at most 512 characters"
          else none)

  read_for_result : HttpRequest ResultBody → ResultBody → M Response
  read_for_result r body = do
    answer ← attempt (get_request_m s api_reader (namespace_or_default r.namespace) r.name)
    put_result (namespace_or_default r.namespace) r body answer

  pub handle_put_result : HttpRequest ResultBody → M Response
  handle_put_result r = with_role s Role.agent r (
      on_option r.body (fail 400 "invalid request body")
        (λ body. on_option (invalid_result body) (read_for_result r body) (λ m. fail 400 m)))
