-- ===== src/Gateway/Credentials.antt =====
-- `handleGetAgentRequestToken` of cmd/gateway/agent_request_token_handlers.go: the agent of an Approved
-- request is given a credential of a service.
pub mod Safe
use aip_k8s.Prelude.{String, not, str_eq, if◌then◌else◌, on_option}
use aip_k8s.Api.Request.{AgentRequest, text}
use aip_k8s.Effects.{
  Outcome, ok, err, is_not_found, is_oidc_token_required, pure, attempt, ◌>>=◌, ◌>>◌,
}
use aip_k8s.Gateway.Roles.{Role, require_role}
use aip_k8s.Gateway.Registrations.{RegistrationCache, Provider, get, provider_for}
use aip_k8s.Gateway.Server.{
  Server, M, Trace, HttpRequest, Response, api_reader, error, error_of, token, namespace_or_default,
  read_registrations_m, get_request_m, fetch_credential_m,
}
use aip_k8s.Gateway.Review.{respond, fail, is_phase}

token_answer : String → Outcome String → Response
token_answer service (ok bearer) = respond 200 (token bearer service)
token_answer service (err e) =
    if is_oidc_token_required e
    then respond 400 (error_of e)
    else respond 500 (error (text "credential resolution failed"))

module _ {F : Type 0} (s : Server F) where
  resolve : HttpRequest String → String → Provider → M Response
  resolve r service provider = do
    answer ← attempt (fetch_credential_m s provider r.raw_token)
    pure (token_answer service answer)

  -- The provider, from the two lookups in the cache of registrations.
  find_provider :
      HttpRequest String → String → AgentRequest → (Trace → RegistrationCache) → M Response
  find_provider r service req cache = do
    c ← read_registrations_m s cache
    on_option (get c req.spec.agent_identity) (fail 404 "no AgentRegistration found for agent")
        (λ reg. (do
          later ← read_registrations_m s cache
          on_option (provider_for later req.spec.agent_identity service)
              (fail 404 "no credential binding for service") (resolve r service)))

  issue : HttpRequest String → String → Outcome AgentRequest → M Response
  issue r service (err e) = pure (
      if is_not_found e
      then respond 404 (error (text "AgentRequest not found"))
      else respond 500 (error_of e))
  issue r service (ok req) =
      if not (str_eq req.spec.agent_identity r.sub)
      then fail 403 "caller does not own this AgentRequest"
      else (if not (is_phase "Approved" req)
          then fail 409 "AgentRequest is not in Approved state"
          else on_option s.registrations (fail 404 "no AgentRegistration found for agent")
              (find_provider r service req))

  -- The body is the name of a service.
  pub handle_get_token : HttpRequest String → M Response
  handle_get_token r =
      on_option (require_role s.roles Role.agent r.sub r.groups)
        (on_option r.body (fail 400 "invalid request body") (λ service.
          if str_eq service "" then fail 400 "service is required" else (do
            answer ← attempt (get_request_m s api_reader (namespace_or_default r.namespace) r.name)
            issue r service answer)))
        (λ m. fail 403 m)
