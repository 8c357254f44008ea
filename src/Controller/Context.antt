-- ===== src/Controller/Context.antt =====
-- `fetchTargetContext` and `fetchContextFromProvider`.
pub mod Quiet
use aip_k8s.Prelude.{
  on_option, String, true, not, Option, none, some, List, [], ◌∷◌, ◌++◌, ◌||◌, str_eq,
  if◌then◌else◌,
}
use aip_k8s.Api.Policy.{GovernedResource}
use aip_k8s.Api.Request.{AffectedTarget, str, sprintf, AgentRequest, TargetContext, empty_context}
use aip_k8s.Controller.Types.{other}
use aip_k8s.Controller.Env.{
  Env, Fetched, found, fetch_failed, SchemaCheck, valid, invalid, schema_error,
}
use aip_k8s.Controller.Monad.{
  M, pure, raise, ◌>>=◌, fetch_target_m, fetch_provider_m, set_condition,
}
use aip_k8s.Controller.Admission.{with_conditions}

-- The target context and the contexts of the cascade targets by URI.
abbrev pub Contexts : Type 0
Contexts = Option TargetContext × List (String × TargetContext)

module _ (env : Env) where
  -- `name := ParseTargetURI(uri).Name; if name == "" { name = uri }`
  service_name : String → String
  service_name uri = let n = env.target_name uri in if str_eq n "" then uri else n

  -- A declared target that could not be read or does not exist is passed over.
  add_cascade :
      String
      → Fetched
      → TargetContext
      → List (String × TargetContext)
      → TargetContext × List (String × TargetContext)
  add_cascade uri (fetch_failed _) ctx ctxs = (ctx, ctxs)
  add_cascade uri (found c) ctx ctxs =
      if c.exists
      then (
        record ctx { downstream_services = ctx.downstream_services ++ service_name uri ∷ [] },
        (uri, c) ∷ ctxs,
      )
      else (ctx, ctxs)

  verify_cascade :
      String → List AffectedTarget → TargetContext → List (String × TargetContext) → M Contexts
  verify_cascade ns [] ctx ctxs = pure (some ctx, ctxs)
  verify_cascade ns (a ∷ as') ctx ctxs = do
    fetched ← fetch_target_m env a.uri ns
    let (ctx', ctxs') = add_cascade a.uri fetched ctx ctxs
    verify_cascade ns as' ctx' ctxs'

  target_fetched : AgentRequest → Fetched → M Contexts
  target_fetched req (fetch_failed c) = pure (c, [])
  target_fetched req (found c) =
      on_option req.spec.cascade_model (pure (some c, []))
        λ targets. verify_cascade req.namespace targets c []

  -- The caller only logs the error, so the contexts alone are returned.
  pub fetch_target_context : AgentRequest → M Contexts
  fetch_target_context req =
      if not env.has_target_fetcher then pure (some empty_context, []) else do
        fetched ← fetch_target_m env req.spec.target_uri req.namespace
        target_fetched req fetched

  -- The three fetchers; any other name is an error.
  provider_json : String → String → M String
  provider_json name uri =
      if str_eq name "k8s-deployment" || str_eq name "karpenter"
      then fetch_provider_m env name uri
      else if str_eq name "github"
      then (if env.has_github_fetcher
          then fetch_provider_m env name uri
          else raise (other "GitHubMCPFetcher not configured"))
      else raise (other "unknown fetcher")

  -- A schema violation is recorded in the conditions in memory, and nothing is fetched.
  schema_checked : AgentRequest → String → String → SchemaCheck → M (AgentRequest × Option String)
  schema_checked req name json valid = pure (req, some json)
  schema_checked req name json (schema_error e) = raise (other e)
  schema_checked req name json (invalid e) = do
    cs ←
        set_condition env req.status.conditions "FetcherSchemaViolation" true "SchemaMismatch"
          (sprintf "fetcher '%s' returned invalid JSON: %v" (str name ∷ str e ∷ []))
    pure (with_conditions cs req, none)

  pub fetch_context_from_provider :
      AgentRequest → GovernedResource → M (AgentRequest × Option String)
  fetch_context_from_provider req gr =
      if str_eq gr.context_fetcher "" || str_eq gr.context_fetcher "none"
      then pure (req, none)
      else do
        json ← provider_json gr.context_fetcher req.spec.target_uri
        on_option gr.context_schema (pure (req, some json))
            λ schema. schema_checked req gr.context_fetcher json (env.check_schema schema json)
