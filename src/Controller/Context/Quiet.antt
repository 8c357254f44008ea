-- ===== src/Controller/Context/Quiet.antt =====
-- The context fetchers write neither statuses nor leases, and keep the phase of the request.
use aip_k8s.Prelude.{String, ◌≡◌, refl, Option, List, [], ◌∷◌, ◌||◌, str_eq}
use aip_k8s.Api.Policy.{GovernedResource}
use aip_k8s.Api.Request.{AgentRequest, AffectedTarget, TargetContext}
use aip_k8s.Controller.Types.{Trace}
use aip_k8s.Controller.Env.{
  Env, Fetched, found, fetch_failed, SchemaCheck, valid, invalid, schema_error,
}
use aip_k8s.Controller.Monad.{M}
use aip_k8s.Effects.Logic.{
  Keeps, Keeps-pure, Keeps-option, Keeps-bind, Runs, Runs-pure, Runs-raise, Runs-bind, Runs-keep,
  Runs-if, Runs-option,
}
use aip_k8s.Controller.Quiet.{Grows, quiet_calls, fetch_target-Quiet, set_condition-Quiet}
use aip_k8s.Controller.Safety.{IsSafe, key}
use aip_k8s.Controller.Context.{
  verify_cascade, target_fetched, fetch_target_context, provider_json, schema_checked,
  fetch_context_from_provider,
}

module _ (env : Env) {Ev : Trace → Type 0} (grow : Grows Ev) where
  abbrev Quiet : {A : Type 0} → M A → Type 0
  Quiet m = Keeps (IsSafe env) Ev m

  verify_cascade-Quiet :
      (ns : String) (as' : List AffectedTarget) (c : TargetContext)
      (cs : List (String × TargetContext))
      → Quiet (verify_cascade env ns as' c cs)
  unfolding verify_cascade
  verify_cascade-Quiet ns [] c cs = Keeps-pure _
  verify_cascade-Quiet ns (a ∷ as') c cs =
      Keeps-bind (fetch_target-Quiet env grow a.uri ns) (λ f. verify_cascade-Quiet ns as' _ _)

  target_fetched-Quiet : (req : AgentRequest) (f : Fetched) → Quiet (target_fetched env req f)
  unfolding target_fetched
  target_fetched-Quiet req (fetch_failed c) = Keeps-pure _
  target_fetched-Quiet req (found c) =
      Keeps-option req.spec.cascade_model (Keeps-pure _) (λ ts. verify_cascade-Quiet _ ts c [])

  pub fetch_target_context-Quiet :
      (req : AgentRequest) → Keeps (IsSafe env) Ev (fetch_target_context env req)
  unfolding fetch_target_context
  fetch_target_context-Quiet req = search (quiet_calls, target_fetched-Quiet)

  provider_json-Quiet : (name uri : String) → Quiet (provider_json env name uri)
  unfolding provider_json
  provider_json-Quiet name uri = search quiet_calls

  -- What a provider fetch returns: the same request in its phase.
  abbrev pub Provided : AgentRequest → AgentRequest × Option String → Trace → Type 0
  Provided req r t = ((r.0.status.phase ≡ req.status.phase) × (key r.0 ≡ key req)) × Ev t

  schema_checked-Runs :
      (req : AgentRequest) (name json : String) (c : SchemaCheck)
      → Runs (IsSafe env) Ev (schema_checked env req name json c) (Provided req)
  unfolding schema_checked
  schema_checked-Runs req name json valid = Runs-pure _ (λ t e. ((refl, refl), e))
  schema_checked-Runs req name json (invalid e) =
      Runs-bind (Runs-keep (set_condition-Quiet env grow _ _ _ _ _))
        (λ cs. Runs-pure _ (λ t e. ((refl, refl), e)))
  schema_checked-Runs req name json (schema_error e) = Runs-raise _

  pub fetch_context_from_provider-Runs :
      (req : AgentRequest) (gr : GovernedResource)
      → Runs (IsSafe env) Ev (fetch_context_from_provider env req gr) (Provided req)
  unfolding fetch_context_from_provider
  fetch_context_from_provider-Runs req gr =
      Runs-if (str_eq gr.context_fetcher "" || str_eq gr.context_fetcher "none")
        (λ _. Runs-pure _ (λ t e. ((refl, refl), e)))
        (λ _. Runs-bind (Runs-keep (provider_json-Quiet _ _)) (λ json.
          Runs-option gr.context_schema (λ _. Runs-pure _ (λ t e. ((refl, refl), e)))
            (λ schema _. schema_checked-Runs req _ json _)))
