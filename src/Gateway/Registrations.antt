-- ===== src/Gateway/Registrations.antt =====
-- cmd/gateway/registration_watch.go: the cache of AgentRegistrations, which a list and a watch fill.
pub mod Cached
pub mod Subjects
mod Tests
use aip_k8s.Prelude.{
  ℕ, String, Bool, false, not, ◌||◌, Option, none, some, List, [], ◌∷◌, ◌==◌, map, str_eq, contains,
  is_empty, is_some, lookup, insert, erase, if◌then◌else◌, on_option,
}
use aip_k8s.Api.Request.{Message, sprintf, str}

-- AgentRegistrationSpec.oidc, and the identity that it is for.
pub record Oidc : Type 0 where
  pub issuer : String
  pub allowed_subjects : List String

-- `validateOIDCIdentity`: an error is its message.
pub validate_oidc_identity : String → Option Oidc → String → String → Option Message
validate_oidc_identity agent none issuer sub = none
validate_oidc_identity agent (some oidc) issuer sub =
    if not (str_eq issuer oidc.issuer)
    then some (
        sprintf "token issuer %q does not match registered issuer %q for agent %q"
          (str issuer ∷ str oidc.issuer ∷ str agent ∷ []))
    else (if not (is_empty oidc.allowed_subjects)
        then (if contains oidc.allowed_subjects sub
            then none
            else some (
                sprintf "token subject %q not in allowedSubjects for agent %q"
                  (str sub ∷ str agent ∷ [])))
        else (if str_eq sub "" || str_eq sub agent
            then none
            else some (
                sprintf "token subject %q does not match agentIdentity %q"
                  (str sub ∷ str agent ∷ []))))

-- ExternalIdentityBinding: the type of the credential with its settings, which may be missing.
pub data Credential : Type 0 where
  static_secret : Option (String × String × String) → Credential  -- name, namespace, key
  azure_workload_identity : Option (String × String × String) → Credential  -- tenant, client, scope
  -- role, session name, region, duration, endpoint
  aws_web_identity : Option (String × String × String × Option ℕ × String) → Credential
  kubernetes_oidc : Option (String × String) → Credential  -- exchange URL, audience
  -- service account, its namespace, expiration, audiences
  kubernetes_token_request : Option (String × String × Option ℕ × List String) → Credential
  unknown : String → Credential

pub record Binding : Type 0 where
  pub service : String
  pub credential : Credential

pub record Registration : Type 0 where
  pub generation : ℕ
  pub agent_identity : String
  pub oidc : Option Oidc
  pub external_identities : List Binding

-- What the constructors of internal/credential are called with.
pub data Provider : Type 0 where
  static_secret : String × String × String → Provider
  azure_workload_identity : String × String × String → Provider
  aws_web_identity : String × String × String × Option ℕ × String → Provider
  kubernetes_oidc : String × String → String → String → Provider  -- with the client's credentials
  kubernetes_token_request : String × String × Option ℕ × List String → Provider

pub record RegistrationCache : Type 0 where
  pub oidc_client_id : String
  pub oidc_client_secret : String
  pub by_agent : List (String × Registration)
  pub providers : List (String × List (String × Provider))

abbrev given : {A : Type 0} → Option A → (A → Provider) → Option Provider
given o f = on_option o none (λ a. some (f a))

provider_of : String → String → Credential → Option Provider
provider_of id secret (static_secret o) = given o Provider.static_secret
provider_of id secret (azure_workload_identity o) = given o Provider.azure_workload_identity
provider_of id secret (aws_web_identity o) = given o Provider.aws_web_identity
provider_of id secret (kubernetes_oidc o) = given o (λ b. Provider.kubernetes_oidc b id secret)
provider_of id secret (kubernetes_token_request o) = given o Provider.kubernetes_token_request
provider_of id secret (unknown type) = none

-- The providers of a registration, by service; a later binding of a service replaces an earlier one.
pub built : String → String → List Binding → List (String × Provider) → List (String × Provider)
built id secret [] made = made
built id secret (b ∷ bindings) made =
    built id secret bindings
      (on_option (provider_of id secret b.credential) made (λ p. insert b.service p made))

-- The entry in the cache has the generation of the registration.
same_generation : RegistrationCache → Registration → Bool
same_generation c reg =
    on_option (lookup reg.agent_identity c.by_agent) false
      (λ existing. existing.generation == reg.generation)

pub upsert : Registration → RegistrationCache → RegistrationCache
upsert reg c = if str_eq reg.agent_identity "" || same_generation c reg then c else record c {
  by_agent = insert reg.agent_identity reg c.by_agent;
  providers =
      insert reg.agent_identity
        (built c.oidc_client_id c.oidc_client_secret reg.external_identities []) c.providers;
}

pub remove : String → RegistrationCache → RegistrationCache
remove agent c = record c { by_agent = erase agent c.by_agent; providers = erase agent c.providers }

pub get : RegistrationCache → String → Option Registration
get c agent = lookup agent c.by_agent

pub exists : RegistrationCache → String → Bool
exists c agent = is_some (lookup agent c.by_agent)

pub provider_for : RegistrationCache → String → String → Option Provider
provider_for c agent service =
    on_option (lookup agent c.providers) none (λ made. lookup service made)

-- The registration lists the subject.
lists_subject : Registration → String → Bool
lists_subject reg sub = on_option reg.oidc false (λ o. contains o.allowed_subjects sub)

has_subjects : Registration → Bool
has_subjects reg = on_option reg.oidc false (λ o. not (is_empty o.allowed_subjects))

-- The scan: the match so far; a second match rejects the lookup.
scan : String → Option Registration → List (String × Registration) → Option Registration
scan sub found [] = found
scan sub found ((agent, reg) ∷ regs) =
    let more = scan sub (some reg) regs in
    let rest = scan sub found regs in
    if lists_subject reg sub then (if is_some found then none else more) else rest

direct : String → String → Registration → Option Registration
direct agent sub reg =
    if has_subjects reg
    then (if lists_subject reg sub then some reg else none)
    else (if str_eq sub "" || str_eq sub agent then some reg else none)

scan_all : RegistrationCache → String → Option Registration
scan_all c sub = if str_eq sub "" then none else scan sub none c.by_agent

pub get_for_subject : RegistrationCache → String → String → Option Registration
get_for_subject c agent sub =
    if not (str_eq agent "")
    then on_option (lookup agent c.by_agent) (scan_all c sub) (direct agent sub)
    else scan_all c sub

list_agents : RegistrationCache → List String
list_agents c = map (λ entry. entry.0) c.by_agent

upsert_all : List Registration → RegistrationCache → RegistrationCache
upsert_all [] c = c
upsert_all (reg ∷ regs) c = upsert_all regs (upsert reg c)

evict : List String → List String → RegistrationCache → RegistrationCache
evict present [] c = c
evict present (agent ∷ agents) c =
    evict present agents (if contains present agent then c else remove agent c)

-- The list of `watchAgentRegistrationsOnce`.
load : List Registration → RegistrationCache → RegistrationCache
load regs c =
    let loaded = upsert_all regs c in
    evict (map (λ reg. reg.agent_identity) regs) (list_agents loaded) loaded

-- What the list and the watch bring; an error ends the watch, and a new list follows.
pub data Update : Type 0 where
  listed : List Registration → Update
  added modified deleted : Registration → Update

updated : Update → RegistrationCache → RegistrationCache
updated (listed regs) c = load regs c
updated (added reg) c = upsert reg c
updated (modified reg) c = upsert reg c
updated (deleted reg) c = if str_eq reg.agent_identity "" then c else remove reg.agent_identity c

pub watch : List Update → RegistrationCache → RegistrationCache
watch [] c = c
watch (update ∷ updates) c = watch updates (updated update c)

pub new_registration_cache : String → String → RegistrationCache
new_registration_cache id secret = record {
  oidc_client_id = id;
  oidc_client_secret = secret;
  by_agent = [];
  providers = [];
}
