-- ===== src/Gateway/Admission.antt =====
-- What the gateway has checked before it creates a request, deletes one or hands out a credential.
use aip_k8s.Prelude.{
  String, true, false, none, some, List, [], ◌∷◌, ◌≡◌, ◌⊎◌, str_eq, contains, is_empty, has_value,
  on_option,
}
use aip_k8s.Api.Policy.{GovernedResource, TrustRequirements}
use aip_k8s.Api.Request.{Phase, AgentRequest, phase_name}
use aip_k8s.Api.Trust.{GraduationPolicy}
use aip_k8s.Effects.{Err, ok, err, is_already_exists, is_no_match}
use aip_k8s.Gateway.Roles.{Role, has_role}
use aip_k8s.Gateway.Registrations.{
  Registration, RegistrationCache, Provider, validate_oidc_identity, provider_for, get,
  get_for_subject,
}
use aip_k8s.Gateway.Match.Best.{IsMostSpecific}
use aip_k8s.Gateway.Server.{Server, Trace, Reader, Caller, client}
use aip_k8s.Gateway.Gate.{can_execute_key, effective_autonomy}
use aip_k8s.Gateway.Gate.Rules.{MeetsMinimum, LetsExecute, level_read, policy_read}
use aip_k8s.Gateway.Review.{is_phase}

module _ {F : Type 0} (s : Server F) where
  -- The cluster has answered a read with this object.
  abbrev pub WasRead : AgentRequest → Type 0
  WasRead b =
      (t : Trace) × (r : Reader) × (ns : String) × (n : String) × (s.on_get_request t r ns n ≡ ok b)

  -- The registration that the cache has for the caller: under the subject, or by the allowed
  -- subjects; without authentication, under the agent that the body names.
  abbrev pub Finds : Caller → Registration → Type 0
  Finds who reg =
      (cache : Trace → RegistrationCache) × (s.registrations ≡ some cache)
      × (t : Trace) × (((s.auth_required ≡ true)
            × ((get (cache t) who.sub ≡ some reg)
                ⊎ (get_for_subject (cache t) "" who.sub ≡ some reg)))
          ⊎ ((s.auth_required ≡ false) × (agent : String) × (get (cache t) agent ≡ some reg)))

  -- There are no registrations; or the cache has none for the caller, or without authentication for
  -- the agent, and agents need not be registered.
  abbrev pub Misses : Caller → String → Type 0
  Misses who agent =
      (s.registrations ≡ none)
      ⊎ ((cache : Trace → RegistrationCache) × (s.registrations ≡ some cache)
          × (str_eq s.unregistered_agent_policy "strict" ≡ false)
          × (t : Trace) × (u : Trace) × (((s.auth_required ≡ true)
                × (get (cache t) who.sub ≡ none)
                × (get_for_subject (cache u) "" who.sub ≡ none))
              ⊎ ((s.auth_required ≡ false) × (get (cache t) agent ≡ none))))

  -- The agent of a new request: that of the caller's registration, whose OIDC settings the caller's
  -- token passes; or, where there is no such registration and none is needed, the caller where
  -- authentication is required.
  abbrev pub IsIdentity : Caller → String → Type 0
  IsIdentity who agent =
      ((reg : Registration) × Finds who reg
        × (agent ≡ reg.agent_identity)
        × (validate_oidc_identity reg.agent_identity reg.oidc who.issuer who.sub ≡ none))
      ⊎ (Misses who agent × ((s.auth_required ≡ false) ⊎ (agent ≡ who.sub)))

  -- The API server has listed these resources, or has none of the kind.
  abbrev pub WasListed : List GovernedResource → Type 0
  WasListed items =
      (t : Trace) × ((s.on_list_resources t ≡ ok items)
        ⊎ ((e : Err) × (s.on_list_resources t ≡ err e) × (is_no_match e ≡ true) × (items ≡ [])))

  -- The trust gate has let the request pass: some level that it read for the agent meets the
  -- minimum, and the request says can-execute "false", or a policy lets the level execute.
  abbrev pub IsTrusted : AgentRequest → TrustRequirements → Type 0
  IsTrusted n tr =
      (t : Trace) × MeetsMinimum tr (level_read s n.namespace n.spec.agent_identity t)
      × ((has_value n.annotations can_execute_key "false" ≡ true)
          ⊎ ((p : GraduationPolicy F) × (policy_read s n.namespace n.spec.agent_identity t ≡ ok p)
              × LetsExecute
                  (effective_autonomy (level_read s n.namespace n.spec.agent_identity t) tr)
                  p.levels))

  -- The action is permitted and the trust gate is passed, or the request is marked as denied.
  abbrev pub IsPassed : AgentRequest → GovernedResource → Type 0
  IsPassed n gr =
      ((contains gr.permitted_actions n.spec.action ≡ true)
        × ((gr.trust_requirements ≡ none)
            ⊎ ((tr : TrustRequirements) × (gr.trust_requirements ≡ some tr) × IsTrusted n tr)))
      ⊎ ((contains gr.permitted_actions n.spec.action ≡ false)
          × (has_value n.annotations "governance.aip.io/gateway-denied" "ACTION_NOT_PERMITTED"
              ≡ true))

  -- The most specific resource for the target admits the agent and the action; or there are no
  -- resources, and none are required.
  abbrev pub IsGoverned : AgentRequest → List GovernedResource → Type 0
  IsGoverned n items =
      ((is_empty items ≡ true) × (s.require_governed_resource ≡ false))
      ⊎ ((gr : GovernedResource) × IsMostSpecific s.compile n.spec.target_uri "" items (some gr)
          × (n.spec.resource_ref ≡ some (record { name = gr.name; generation = gr.generation }))
          × ((is_empty gr.permitted_agents ≡ true)
              ⊎ (contains gr.permitted_agents n.spec.agent_identity ≡ true))
          × IsPassed n gr)

  -- A request in a terminal phase that has the name of one that could not be created.
  pub record IsStale (b : AgentRequest) : Type 0 where
    pub wanted : AgentRequest
    pub failure : Err
    pub created_at : Trace
    pub refused : s.on_create_request created_at wanted ≡ err failure
    pub exists : is_already_exists failure ≡ true
    pub read_at : Trace
    pub read : s.on_get_request read_at client wanted.namespace wanted.name ≡ ok b
    pub terminal :
        contains ("Denied" ∷ "Completed" ∷ "Failed" ∷ "Expired" ∷ []) (phase_name b.status.phase)
        ≡ true

  -- The reference to the resource is copied into the status of a request that was created.
  pub record IsMirror (b n : AgentRequest) : Type 0 where
    pub wanted : AgentRequest
    pub created_at : Trace
    pub created : s.on_create_request created_at wanted ≡ ok b
    pub phase_eq : n.status.phase ≡ b.status.phase
    pub spec_eq : n.spec ≡ b.spec

  module _ (asks : Caller → Type 0) where
    -- A caller with a role, who is known where callers have to be.
    pub record HasRole (role : Role) (who : Caller) : Type 0 where
      pub asked : asks who
      pub role_given : has_role s.roles role who.sub who.groups ≡ true
      pub known : (s.auth_required ≡ false) ⊎ (str_eq who.sub "" ≡ false)

    -- Where authentication is required, the caller is an agent.
    abbrev pub MayCreate : Caller → Type 0
    MayCreate who = asks who × ((s.auth_required ≡ false) ⊎ HasRole Role.agent who)

    pub record IsAdmission (n : AgentRequest) : Type 0 where
      pub who : Caller
      pub agent : MayCreate who
      pub identity : IsIdentity who n.spec.agent_identity
      pub items : List GovernedResource
      pub listed : WasListed items
      pub governed : IsGoverned n items
      pub new : n.status.phase ≡ Phase.unset

    -- An agent is given a credential for its own request, which was read as Approved.
    pub record IsIssue (provider : Provider) : Type 0 where
      pub request : AgentRequest
      pub read : WasRead request
      pub approved : is_phase "Approved" request ≡ true
      pub who : Caller
      pub asked : asks who
      pub agent : has_role s.roles Role.agent who.sub who.groups ≡ true
      pub own : str_eq request.spec.agent_identity who.sub ≡ true
      pub service : String
      pub bound : on_option s.registrations ⊥ (λ cache.
          (t : Trace) × (provider_for (cache t) request.spec.agent_identity service
            ≡ some provider))
