-- ===== src/Gateway/Rules/Admits.antt =====
-- What the gateway creates, deletes and hands out over any series of HTTP requests.
use aip_k8s.Prelude.{List, []}
use aip_k8s.Effects.Logic.{Hist, Hist-map}
use aip_k8s.Gateway.Server.{
  Server, Caller, Call, Trace, create_request, delete_request, fetch_credential,
}
use aip_k8s.Gateway.Match.Cached.{IsCacheOf}
use aip_k8s.Gateway.Admission.{IsAdmission, IsStale, IsIssue}
use aip_k8s.Gateway.Safety.{RetriesConflicts, Allowed}
use aip_k8s.Gateway.Service.{Event, Asks, run, run-Allowed}

module _ {F : Type 0} (s : Server F) (asks : Caller → Type 0) where
  -- A request is created only as the admission checks allow.
  abbrev pub Admits : Call → Trace → Type 0
  Admits (create_request n) t = IsAdmission s asks n
  Admits _ t = Unit

  -- Only stale requests are deleted, and credentials are for approved requests of the caller.
  abbrev pub Serves : Call → Trace → Type 0
  Serves (delete_request b) t = IsStale s b
  Serves (fetch_credential provider raw) t = IsIssue s asks provider
  Serves _ t = Unit

  admits : (c : Call) (t : Trace) → Allowed s asks c t → Admits c t
  admits (create_request _) t a = a
  admits _ t a = tt

  serves : (c : Call) (t : Trace) → Allowed s asks c t → Serves c t
  serves (delete_request _) t a = a
  serves (fetch_credential _ _) t a = a
  serves _ t a = tt

module _ {F : Type 0} (s : Server F) (retries : RetriesConflicts s)
    (caches : (t : Trace) → IsCacheOf s.compile (s.glob_cache t)) (events : List Event) where
  -- Over any series of HTTP requests, where RetryOnConflict calls its function again only after a
  -- conflict and the cache of globs holds compiled patterns: a request is created only without a
  -- phase, for the caller of one of these HTTP requests, who has the agent role where authentication
  -- is required. Its agent is that of a registration which the cache has for the caller's subject,
  -- and whose OIDC settings the caller's issuer and subject pass; or there are no registrations; or
  -- the cache has none for the caller, and agents need not be registered. In the last two cases the
  -- agent is the caller's subject where authentication is required. Without authentication the
  -- registration is any that the cache has for an agent. Either no resources are listed and none are
  -- required, or the most specific resource for the target permits the agent, the request refers to
  -- it, and it permits the action, or the request is marked as denied by the gateway. Where the
  -- action is permitted and trust is required, some level that was read for the agent meets the
  -- minimum, and the request says can-execute "false" or a graduation policy lets the effective
  -- level execute.
  pub run-Admits : Hist (Admits s (Asks events)) (run s events [])
  run-Admits =
      Hist-map (admits s (Asks events)) _
        (run-Allowed s (Asks events) retries caches events (λ who a. a) [] tt)

  -- Over any series of HTTP requests, where RetryOnConflict calls its function again only after a
  -- conflict and the cache of globs holds compiled patterns: a request is deleted only if it was
  -- read, in a terminal phase, under the name of a request whose creation had failed as existing;
  -- and a credential is fetched only for a request that was read as Approved, whose agentIdentity is
  -- the subject of a caller of one of these HTTP requests with the agent role, and with a provider
  -- that the cache of registrations has for this agent.
  pub run-Serves : Hist (Serves s (Asks events)) (run s events [])
  run-Serves =
      Hist-map (serves s (Asks events)) _
        (run-Allowed s (Asks events) retries caches events (λ who a. a) [] tt)
