-- ===== src/Gateway/Create.antt =====
-- `handleCreateAgentRequest` of cmd/gateway/agent_request_handlers.go.
pub mod Body
pub mod Filing
pub mod Safe
pub mod Admitted
pub mod Identity
pub mod Samples
use aip_k8s.Prelude.{
  String, Bool, true, not, ◌&&◌, ◌||◌, Option, none, some, List, [], ◌∷◌, str_eq, contains,
  is_empty, is_some, str_append, insert, if◌then◌else◌, on_option,
}
use aip_k8s.Api.Policy.{GovernedResource}
use aip_k8s.Api.Request.{AgentRequest, Message, text, sprintf, str}
use aip_k8s.Effects.{Outcome, ok, err, is_no_match, pure, attempt, ◌>>=◌, ◌>>◌}
use aip_k8s.Gateway.Roles.{Role, require_role}
use aip_k8s.Gateway.Registrations.{Registration, get, get_for_subject, validate_oidc_identity}
use aip_k8s.Gateway.Match.{match_governed_resource}
use aip_k8s.Gateway.Server.{
  Server, M, HttpRequest, Response, error, error_with, read_registrations_m, list_resources_m,
}
use aip_k8s.Gateway.Gate.{TrustGateResult, evaluate_trust_gate}
use aip_k8s.Gateway.Review.{respond, fail, fail_with}
use aip_k8s.Gateway.Create.Body.{CreateBody, labels_of, request_of}
use aip_k8s.Gateway.Create.Filing.{annotated, governed, deny_action, create}

abbrev unregistered_key : String
unregistered_key = "governance.aip.io/unregistered"

-- maps.Copy
copied : List (String × String) → List (String × String) → List (String × String)
copied [] m = m
copied ((k, v) ∷ entries) m = insert k v (copied entries m)

-- An agent that has no registration, by the policy for such agents.
unregistered : String → AgentRequest → Message × Bool × AgentRequest
unregistered policy req = (
  sprintf "AGENT_NOT_REGISTERED: agent %q has no AgentRegistration"
      (str req.spec.agent_identity ∷ []),
  str_eq policy "strict",
  if str_eq policy "warn" then annotated unregistered_key "true" req else req,
)

mismatch : Message → Message
mismatch (text m) = text (str_append "IDENTITY_MISMATCH: " m)
mismatch (sprintf format args) = sprintf (str_append "IDENTITY_MISMATCH: " format) args

module _ {F : Type 0} (s : Server F) where
  -- The registration of the caller, where authentication is required, or of the agent in the body.
  registration : HttpRequest CreateBody → CreateBody → M (Option Registration)
  registration r body = on_option s.registrations (pure none) (λ cache.
      if s.auth_required
      then (if str_eq r.sub "" then pure none else (do
        c ← read_registrations_m s cache
        on_option (get c r.sub)
            (do later ← read_registrations_m s cache; pure (get_for_subject later "" r.sub))
            (λ reg. pure (some reg))))
      else (if str_eq body.agent_identity ""
          then pure none
          else (do c ← read_registrations_m s cache; pure (get c body.agent_identity))))

  -- The agent that the request is for; `none` where the body would have to name it.
  identity_for : HttpRequest CreateBody → CreateBody → Option Registration → Option String
  identity_for r body (some reg) = some reg.agent_identity
  identity_for r body none =
      if s.auth_required
      then some r.sub
      else (if str_eq body.agent_identity "" then none else some body.agent_identity)

  gated :
      Bool
      → CreateBody
      → List (String × String)
      → Option GovernedResource
      → AgentRequest
      → Outcome TrustGateResult
      → M Response
  gated sse body labels gr req (err e) = pure (respond 500 (error_with "trust gate error: %v" e))
  gated sse body labels gr req (ok result) =
      if result.rejected
      then fail_with 403 (sprintf "INSUFFICIENT_TRUST: %s" (str result.message ∷ []))
      else create s sse body labels gr
          (record req { annotations = copied result.annotations req.annotations })

  -- From the label admissionPassed.
  admitted :
      Bool
      → CreateBody
      → List (String × String)
      → Option GovernedResource
      → AgentRequest
      → M Response
  admitted sse body labels none req = create s sse body labels none req
  admitted sse body labels (some gr) req =
      let request = governed (some gr) req in
      on_option gr.trust_requirements (create s sse body labels (some gr) request) (λ tr. (do
        result ← attempt (
            evaluate_trust_gate s req.namespace req.spec.agent_identity
              (if req.spec.observe then "observe" else "") gr)
        gated sse body labels (some gr) request result))

  check_resource :
      Bool
      → CreateBody
      → List (String × String)
      → AgentRequest
      → Option GovernedResource
      → M Response
  check_resource sse body labels req none = fail 403 "ACTION_NOT_PERMITTED"
  check_resource sse body labels req (some gr) =
      if not (is_empty gr.permitted_agents)
        && not (contains gr.permitted_agents req.spec.agent_identity)
      then fail 403 "IDENTITY_INVALID"
      else (if not (contains gr.permitted_actions body.action)
          then deny_action s gr req
          else admitted sse body labels (some gr) req)

  with_resources :
      Bool → CreateBody → List (String × String) → AgentRequest → List GovernedResource → M Response
  with_resources sse body labels req items =
      if is_empty items && not s.require_governed_resource
      then admitted sse body labels none req
      else (do
        cache ← λ t. (ok (s.glob_cache t), t)
        check_resource sse body labels req
            (match_governed_resource s.compile items body.target_uri "" cache).0)

  resources_listed :
      Bool
      → CreateBody
      → List (String × String)
      → AgentRequest
      → Outcome (List GovernedResource)
      → M Response
  resources_listed sse body labels req (ok items) = with_resources sse body labels req items
  resources_listed sse body labels req (err e) =
      if is_no_match e
      then with_resources sse body labels req []
      else pure (respond 500 (error_with "failed to list GovernedResources: %v" e))

  pub admission : Bool → CreateBody → List (String × String) → AgentRequest → M Response
  admission sse body labels req = do
    listed ← attempt (list_resources_m s)
    resources_listed sse body labels req listed

  -- The check of the registration: a refusal, or the request, perhaps annotated.
  check_known :
      HttpRequest CreateBody → Option Registration → AgentRequest → Option Message × AgentRequest
  check_known r none req =
      let (m, refused, request) = unregistered s.unregistered_agent_policy req in
      (if refused then some m else none, request)
  check_known r (some reg) req = (
    on_option (validate_oidc_identity reg.agent_identity reg.oidc r.issuer r.sub) none
        (λ m. some (mismatch m)),
    req,
  )

  check_registration :
      HttpRequest CreateBody → Option Registration → AgentRequest → Option Message × AgentRequest
  check_registration r reg req =
      if not (is_some s.registrations) then (none, req) else check_known r reg req

  for_agent : HttpRequest CreateBody → CreateBody → Option Registration → String → M Response
  for_agent r body reg agent =
      let labels = labels_of s agent body in
      let (refusal, req) = check_registration r reg (request_of s agent body) in
      on_option refusal (admission r.accepts_sse body labels req) (λ m. fail_with 403 m)

  with_registration : HttpRequest CreateBody → CreateBody → Option Registration → M Response
  with_registration r body reg =
      on_option (if s.auth_required then require_role s.roles Role.agent r.sub r.groups else none)
        (on_option (identity_for r body reg)
          (fail 400 "agentIdentity is required when running without authentication")
          (for_agent r body reg))
        (λ m. fail 403 m)

  pub handle_create : HttpRequest CreateBody → M Response
  handle_create r =
      if s.auth_required && str_eq r.sub ""
      then fail 401 "caller identity required"
      else on_option r.body (fail 400 "invalid request body") (λ body.
        if str_eq body.action "" || str_eq body.target_uri ""
        then fail 400 "action and targetURI are required"
        else (do reg ← registration r body; with_registration r body reg))
