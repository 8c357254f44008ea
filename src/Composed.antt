-- ===== src/Composed.antt =====
-- The gateway and the reconciler of AgentRequests together: what the gateway's trust gate writes is what
-- the reconciler heeds.
mod Tests
use aip_k8s.Prelude.{
  String, Bool, true, false, none, some, List, [], ◌≡◌, ◌⊎◌, inl, inr, contains, is_empty,
  has_value,
}
use aip_k8s.Api.Policy.{GovernedResource, TrustRequirements}
use aip_k8s.Api.Request.{AgentRequest}
use aip_k8s.Api.Trust.{GraduationPolicy}
use aip_k8s.Effects.{ok}
use aip_k8s.Effects.Logic.{Hist, Hist-map}
use aip_k8s.Gateway.Match.Cached.{IsCacheOf}
use aip_k8s.Gateway.Match.Best.{IsMostSpecific}
use aip_k8s.Gateway.Server.{Server, Caller, Call, Trace, create_request}
use aip_k8s.Gateway.Gate.{can_execute_key, effective_autonomy}
use aip_k8s.Gateway.Gate.Rules.{LetsExecute, level_read, policy_read}
use aip_k8s.Gateway.Safety.{RetriesConflicts}
use aip_k8s.Gateway.Admission.{WasListed, IsPassed, IsGoverned, IsAdmission}
use aip_k8s.Gateway.Service.{Event, Asks}
use aip_k8s.Gateway.Service.{run as serve_all}
use aip_k8s.Gateway.Rules.Admits.{Admits, run-Admits}
use aip_k8s.Controller.Types.{Call as ControllerCall}
use aip_k8s.Controller.Env.{Env}
use aip_k8s.Controller.Safety.{is_pending}
use aip_k8s.Controller.Admission.{is_unset}
use aip_k8s.Controller.Admission.Safe.{Answers}
use aip_k8s.Controller.Rules.{OnStatus, OnStatus-map, GatesTrust, run-GatesTrust}
use aip_k8s.Controller.Rules.{run as reconcile_all}

-- The mark can-execute "false".
abbrev pub is_closed : AgentRequest → Bool
is_closed req = has_value req.annotations can_execute_key "false"

module _ {F : Type 0} (s : Server F) where
  -- Some graduation policy that was read lets the effective level of the agent execute.
  abbrev pub IsGranted : AgentRequest → TrustRequirements → Type 0
  IsGranted n tr =
      (t : Trace) × (p : GraduationPolicy F) × (policy_read s n.namespace n.spec.agent_identity t
        ≡ ok p)
      × LetsExecute (effective_autonomy (level_read s n.namespace n.spec.agent_identity t) tr)
          p.levels

  -- No resources are listed, and none are required; or of those that are listed, the most specific
  -- for the target, to which the request refers, does not permit the action, and the request is
  -- marked as denied, or requires no trust, or a policy lets the agent execute.
  abbrev pub IsCleared : AgentRequest → Type 0
  IsCleared n =
      (items : List GovernedResource) × WasListed s items
      × (((is_empty items ≡ true) × (s.require_governed_resource ≡ false))
          ⊎ ((gr : GovernedResource) × IsMostSpecific s.compile n.spec.target_uri "" items (some gr)
              × (n.spec.resource_ref ≡ some (record { name = gr.name; generation = gr.generation }))
              × (((contains gr.permitted_actions n.spec.action ≡ false)
                    × (has_value n.annotations "governance.aip.io/gateway-denied"
                          "ACTION_NOT_PERMITTED"
                        ≡ true))
                  ⊎ (gr.trust_requirements ≡ none)
                  ⊎ ((tr : TrustRequirements) × (gr.trust_requirements ≡ some tr)
                      × IsGranted n tr))))

  -- A patch of the reconciler from no phase to Pending, for the request `n` of the gateway: the
  -- object has lost the mark of `n`, or `n` is cleared.
  abbrev pub Clears : AgentRequest → AgentRequest → AgentRequest → Type 0
  Clears n b m =
      (is_unset b.status.phase ≡ false)
      ⊎ (is_pending m.status.phase ≡ false)
      ⊎ ((is_closed n ≡ true) × (is_closed b ≡ false))
      ⊎ IsCleared n

  module _ (asks : Caller → Type 0) (n : AgentRequest) (a : IsAdmission s asks n) where
    closed_or_IsCleared : (is_closed n ≡ true) ⊎ IsCleared n
    closed_or_IsCleared = of_governed a.governed
      where
        of_passed :
            (gr : GovernedResource)
            → IsMostSpecific s.compile n.spec.target_uri "" a.items (some gr)
            → (n.spec.resource_ref ≡ some (record { name = gr.name; generation = gr.generation }))
            → IsPassed s n gr
            → (is_closed n ≡ true) ⊎ IsCleared n
        of_passed gr best named (inr denied) =
            inr (a.items, a.listed, inr (gr, best, named, inl denied))
        of_passed gr best named (inl (permitted, inl free)) =
            inr (a.items, a.listed, inr (gr, best, named, inr (inl free)))
        of_passed gr best named (inl (permitted, inr (tr, required, (t, meets, inl closed)))) =
            inl closed
        of_passed gr best named (inl (permitted, inr (tr, required, (t, meets, inr granted)))) =
            inr (
              a.items,
              a.listed,
              inr (gr, best, named, inr (inr (tr, required, (t, granted.0, granted.1, granted.2)))),
            )

        of_governed : IsGoverned s n a.items → (is_closed n ≡ true) ⊎ IsCleared n
        of_governed (inl optional) = inr (a.items, a.listed, inl optional)
        of_governed (inr (gr, best, named, agents, passed)) = of_passed gr best named passed

  patch-Clears :
      (n b m : AgentRequest) (t : List ControllerCall)
      → (is_closed n ≡ true) ⊎ IsCleared n
      → GatesTrust b m t
      → Clears n b m
  patch-Clears n b m t (inr cleared) g = inr (inr (inr cleared))
  patch-Clears n b m t (inl closed) (inl old) = inl old
  patch-Clears n b m t (inl closed) (inr (inl lost)) = inr (inr (inl (closed, lost)))
  patch-Clears n b m t (inl closed) (inr (inr other)) = inr (inl other)

  module _ (env : Env) (answers : Answers env) (queue : List (String × String)) where
    -- The reconciler's patches clear each request that the gateway creates.
    abbrev pub Composes : Call → Trace → Type 0
    Composes (create_request n) t =
        Hist (OnStatus (λ b m t. Clears n b m)) (reconcile_all env queue [])
    Composes _ t = Unit

    composes : (asks : Caller → Type 0) (c : Call) (t : Trace) → Admits s asks c t → Composes c t
    composes asks (create_request n) t a =
        Hist-map (OnStatus-map (λ b m u. patch-Clears n b m u (closed_or_IsCleared asks n a))) _
          (run-GatesTrust env answers queue)
    composes asks _ t a = tt

    -- Over any series of HTTP requests to the gateway and any series of reconciles, where
    -- RetryOnConflict and the cache of globs are as documented and the API server answers a status
    -- patch with the same object in the phase that was written: for every request that the gateway
    -- creates and every object that the reconciler patches from no phase to Pending, the object has
    -- lost the mark can-execute "false" that the request has, or the request is cleared. A request
    -- is cleared where the API server lists no resources and none are required; or where, of the
    -- resources that it lists, the most specific for the target does not permit the action and the
    -- request is marked as denied, or requires no trust, or requires trust and a graduation policy
    -- was read that lets the agent's effective level execute.
    pub run-Composes :
        RetriesConflicts s
        → ((t : Trace) → IsCacheOf s.compile (s.glob_cache t))
        → (events : List Event) → Hist Composes (serve_all s events [])
    run-Composes retries caches events =
        Hist-map (composes (Asks events)) _ (run-Admits s retries caches events)
