-- ===== src/TrustProfile/Bootstrap.antt =====
-- `getOrBootstrapProfile`: a profile that does not exist is created for the agent of its name. A failed
-- create leaves the object as it was given.
pub mod Quiet
use aip_k8s.Prelude.{
  String, not, Option, none, some, List, [], ◌∷◌, str_eq, is_empty, if◌then◌else◌,
}
use aip_k8s.Api.Request.{AgentRequest}
use aip_k8s.Api.Trust.{TrustProfile}
use aip_k8s.Controller.Types.{cached, direct}
use aip_k8s.Effects.{
  Outcome, ok, err, is_not_found, is_already_exists, pure, raise, invoke, attempt, wrap_error,
  ◌>>=◌, ◌>>◌,
}
use aip_k8s.TrustProfile.{Summary, success_rate}
use aip_k8s.TrustProfile.Cluster.{
  Cluster, M, create_profile, get_profile_m, get_summary_m, list_registrations_m, list_requests_m,
  profile_name,
}

module _ {F : Type 0} (c : Cluster F) where
  -- The first identity with the profile's name; empty if there is none.
  named_identity : String → List String → String
  named_identity name [] = ""
  named_identity name (agent ∷ agents) =
      let rest = named_identity name agents in
      if str_eq (profile_name c agent) name then agent else rest

  first_identity : List String → String
  first_identity [] = ""
  first_identity (agent ∷ agents) = agent

  identities : List AgentRequest → List String
  identities [] = []
  identities (ar ∷ items) = ar.spec.agent_identity ∷ identities items

  -- By the index, or by a scan where the index is missing.
  registered : String → String → Outcome (List String) → M F String
  registered ns name (ok agents) = pure (first_identity agents)
  registered ns name (err e) = do
    scanned ← attempt (list_registrations_m c ns none)
    agents ← wrap_error "listing AgentRegistration fallback scan" scanned
    pure (named_identity name agents)

  -- `none` is an agent that is not found; nothing is created then.
  found_identity : String → Option String
  found_identity agent = if str_eq agent "" then none else some agent

  from_requests : String → String → M F (Option String)
  from_requests ns name = do
    labelled ← list_requests_m c ns (some name)
    if not (is_empty labelled) then pure (some (first_identity (identities labelled))) else (do
      all ← list_requests_m c ns none
      pure (found_identity (named_identity name (identities all))))

  from_summary : String → String → Outcome (Summary F) → M F (Option String)
  from_summary ns name (ok summary) = pure (some summary.agent_identity)
  from_summary ns name (err e) = if is_not_found e then from_requests ns name else raise e

  bootstrap_identity : String → String → M F (Option String)
  bootstrap_identity ns name = do
    indexed ← attempt (list_registrations_m c ns (some name))
    agent ← registered ns name indexed
    if not (str_eq agent "")
        then pure (some agent)
        else do summary ← attempt (get_summary_m c cached ns name); from_summary ns name summary

  new_profile : String → String → String → TrustProfile F
  new_profile ns name agent = record {
    name = name;
    namespace = ns;
    created = 0;
    agent_identity = agent;
    trust_level = "";
    diagnostic_accuracy = none;
    recent_accuracy = none;
    total_reviewed = 0;
    total_executions = 0;
    success_rate = none;
    last_promoted_at = none;
    last_demoted_at = none;
    last_evaluated_at = none;
  }

  profile_created : String → String → Outcome (Unit {0}) → M F (TrustProfile F)
  profile_created ns name (ok _) = get_profile_m c direct ns name
  profile_created ns name (err e) =
      if is_already_exists e then get_profile_m c direct ns name else raise e

  bootstrapped : String → String → Option String → M F (Option (TrustProfile F))
  bootstrapped ns name none = pure none
  bootstrapped ns name (some agent) = do
    created ← attempt (
        invoke (create_profile (new_profile ns name agent))
          (λ t. c.on_create_profile t (new_profile ns name agent)))
    profile ← profile_created ns name created
    pure (some profile)

  profile_read : String → String → Outcome (TrustProfile F) → M F (Option (TrustProfile F))
  profile_read ns name (ok profile) = pure (some profile)
  profile_read ns name (err e) =
      if is_not_found e
      then (do agent ← bootstrap_identity ns name; bootstrapped ns name agent)
      else raise e

  -- `getOrBootstrapProfile`; `none` is the empty profile.
  pub get_or_bootstrap_profile : String → String → M F (Option (TrustProfile F))
  get_or_bootstrap_profile ns name = do
    answer ← attempt (get_profile_m c cached ns name)
    profile_read ns name answer
