-- ===== src/Gateway/Credentials/Safe.antt =====
-- A credential is handed out as `IsIssue` says.
use aip_k8s.Prelude.{
  String, Bool, true, false, not, none, some, List, ◌≡◌, refl, inl, inr, str_eq, Bool-cases,
}
use aip_k8s.Api.Request.{AgentRequest}
use aip_k8s.Effects.{Outcome, ok, err}
use aip_k8s.Effects.Logic.{
  Runs, Runs-pre, Runs-given, Runs-invoke, Runs-attempt_invoke, Runs-bind, Runs-if, Runs-option,
}
use aip_k8s.Gateway.Roles.{Role, has_role, require_role}
use aip_k8s.Gateway.Registrations.{RegistrationCache, Provider, get, provider_for}
use aip_k8s.Gateway.Server.{
  Server, Caller, caller_of, Trace, HttpRequest, api_reader, read_registrations, fetch_credential,
}
use aip_k8s.Gateway.Review.{is_phase}
use aip_k8s.Gateway.Admission.{WasRead, IsIssue}
use aip_k8s.Gateway.Safety.{Allowed, Safe, Read, get-Read, answer-Safe, fail-Safe}
use aip_k8s.Gateway.Credentials.{resolve, find_provider, issue, handle_get_token}

not-false : (b : Bool) → not b ≡ false → b ≡ true
not-false true h = refl
not-false false h = cc

-- The role check has let the caller pass.
pub role_given :
    {F : Type 0} (s : Server F) (role : Role) (sub : String) (groups : List String)
    → require_role s.roles role sub groups ≡ none
    → has_role s.roles role sub groups ≡ true
unfolding require_role
role_given s role sub groups h = elim (Bool-cases (has_role s.roles role sub groups)) [
  | inl given ↦ given
  | inr missing ↦ absurd (cc (rw missing at h))
]

module _ {F : Type 0} (s : Server F) (asks : Caller → Type 0) where
  resolve-Safe :
      (r : HttpRequest String) (service : String) (provider : Provider)
      → IsIssue s asks provider
      → Safe s asks (resolve s r service provider)
  unfolding resolve
  resolve-Safe r service provider issue =
      Runs-bind
        (Runs-attempt_invoke {Q = λ _ _. Unit} (fetch_credential provider r.raw_token) _
          (λ t e. issue) (λ t e. tt))
        (λ answer. answer-Safe s asks _)

  module _ (r : HttpRequest String) (asked : asks (caller_of r))
      (agent : has_role s.roles Role.agent r.sub r.groups ≡ true) (service : String) where
    module _ (req : AgentRequest) (read : WasRead s req) (approved : is_phase "Approved" req ≡ true)
        (own : str_eq req.spec.agent_identity r.sub ≡ true) where
      issued :
          (cache : Trace → RegistrationCache) (t : Trace) (provider : Provider)
          → s.registrations ≡ some cache
          → provider_for (cache t) req.spec.agent_identity service ≡ some provider
          → IsIssue s asks provider
      issued cache t provider kept found = record {
        request = req;
        read = read;
        approved = approved;
        who = caller_of r;
        asked = asked;
        agent = agent;
        own = own;
        service = service;
        bound = rw kept (t, found);
      }

      find_provider-Safe :
          (cache : Trace → RegistrationCache)
          → s.registrations ≡ some cache
          → Safe s asks (find_provider s r service req cache)
      unfolding find_provider
      find_provider-Safe cache kept =
          Runs-bind (Runs-invoke {Q = λ _ _. Unit} read_registrations _ (λ t e. tt) (λ t e a p. tt))
            (λ c.
              Runs-option (get c req.spec.agent_identity) (λ e. fail-Safe s asks _ _)
                (λ reg e.
                  Runs-bind
                    (Runs-invoke {Q = λ c u. (t : Trace) × (cache t ≡ c)} read_registrations _
                      (λ t e. tt) (λ t e c p. (t, let q : cache t ≡ c = cc in q)))
                    (λ later. Runs-given (λ t seen.
                      Runs-option (provider_for later req.spec.agent_identity service)
                        (λ e. fail-Safe s asks _ _)
                        (λ provider found.
                          resolve-Safe r service provider
                            (issued cache seen.0 provider kept (rw seen.1 found)))))))

    issue-Safe :
        (answer : Outcome AgentRequest)
        → Runs (Allowed s asks) (Read s answer) (issue s r service answer) (λ _ _. Unit)
    unfolding issue
    issue-Safe (err e) = Runs-pre (answer-Safe s asks _) (λ t e. tt)
    issue-Safe (ok req) = Runs-given (λ t read.
        Runs-if (not (str_eq req.spec.agent_identity r.sub)) (λ e. fail-Safe s asks _ _)
          (λ own.
            Runs-if (not (is_phase "Approved" req)) (λ e. fail-Safe s asks _ _)
              (λ approved.
                Runs-option s.registrations (λ e. fail-Safe s asks _ _)
                  (find_provider-Safe req read (not-false _ approved) (not-false _ own)))))

  pub handle_get_token-Safe :
      (r : HttpRequest String) → asks (caller_of r) → Safe s asks (handle_get_token s r)
  unfolding handle_get_token
  handle_get_token-Safe r asked =
      Runs-option (require_role s.roles Role.agent r.sub r.groups)
        (λ none_missing.
          Runs-option r.body (λ e. fail-Safe s asks _ _)
            (λ service e.
              Runs-if (str_eq service "") (λ e. fail-Safe s asks _ _)
                (λ e. Runs-bind (get-Read s asks api_reader _ r.name) (
                  issue-Safe r asked (role_given s Role.agent r.sub r.groups none_missing)
                    service))))
        (λ m e. fail-Safe s asks _ _)
