-- ===== src/Gateway/Registrations/Cached.antt =====
-- What the cache of registrations holds after any series of lists and watch events.
use aip_k8s.Prelude.{
  String, none, some, List, [], ◌∷◌, ◌≡◌, refl, ◌||◌, inl, inr, str_eq, eq_iff, contains, lookup,
  insert, lookup-insert, lookup-erase, arith, on_option, if◌then◌else◌, Bool-cases,
}
use aip_k8s.Gateway.Registrations.{
  Registration, Provider, RegistrationCache, Update, listed, added, modified, deleted, built,
  same_generation, upsert, remove, get, provider_for, upsert_all, evict, list_agents, load, updated,
  watch, new_registration_cache,
}

-- The providers that a cache makes from a registration.
abbrev pub made_of : RegistrationCache → Registration → List (String × Provider)
made_of c reg = built c.oidc_client_id c.oidc_client_secret reg.external_identities []

-- Each registration is held under its agent, and an agent has the providers of its registration.
pub record IsCoherent (c : RegistrationCache) : Type 0 where
  pub keyed :
      (agent : String) (reg : Registration)
      → lookup agent c.by_agent ≡ some reg
      → reg.agent_identity ≡ agent
  pub provided :
      (agent : String)
      → lookup agent c.providers
        ≡ on_option (lookup agent c.by_agent) none (λ reg. some (made_of c reg))

module _ (c : RegistrationCache) (v : IsCoherent c) where
  inserted-IsCoherent :
      (reg : Registration)
      → IsCoherent (record c {
        by_agent = insert reg.agent_identity reg c.by_agent;
        providers = insert reg.agent_identity (made_of c reg) c.providers;
      })
  inserted-IsCoherent reg = record {
    keyed = λ agent r found.
        held agent r (rw (← lookup-insert reg.agent_identity agent reg c.by_agent) found);
    provided = λ agent.
        rw
          (
            lookup-insert reg.agent_identity agent reg c.by_agent,
            lookup-insert reg.agent_identity agent (made_of c reg) c.providers,
          )
          (both agent);
  }
    where
      held :
          (agent : String) (r : Registration)
          → (if str_eq reg.agent_identity agent then some reg else lookup agent c.by_agent) ≡ some r
          → r.agent_identity ≡ agent
      held agent r found = elim (Bool-cases (str_eq reg.agent_identity agent)) [
        | inl same ↦
            let e : some reg ≡ some r = rw same at found in
            let q : reg ≡ r = cc in rw (← q) ((eq_iff reg.agent_identity agent).0 same)
        | inr other ↦ v.keyed agent r (rw other at found)
      ]

      both :
          (agent : String)
          → (if str_eq reg.agent_identity agent
              then some (made_of c reg)
              else lookup agent c.providers)
            ≡ on_option
                (if str_eq reg.agent_identity agent then some reg else lookup agent c.by_agent)
                none
                (λ reg. some (made_of c reg))
      both agent = elim (Bool-cases (str_eq reg.agent_identity agent)) [
        | inl same ↦ rw same refl
        | inr other ↦ rw other (v.provided agent)
      ]

  upsert-IsCoherent : (reg : Registration) → IsCoherent (upsert reg c)
  unfolding upsert
  upsert-IsCoherent reg =
      elim (Bool-cases (str_eq reg.agent_identity "" || same_generation c reg)) [
        | inl kept ↦ rw kept v
        | inr new ↦ rw new (inserted-IsCoherent reg)
      ]

  remove-IsCoherent : (agent : String) → IsCoherent (remove agent c)
  unfolding remove
  remove-IsCoherent agent = record {
    keyed = λ a r found. held a r (rw (← lookup-erase agent a c.by_agent) found);
    provided = λ a. rw (lookup-erase agent a c.by_agent, lookup-erase agent a c.providers) (both a);
  }
    where
      held :
          (a : String) (r : Registration)
          → (if str_eq agent a then none else lookup a c.by_agent) ≡ some r
          → r.agent_identity ≡ a
      held a r found = elim (Bool-cases (str_eq agent a)) [
        | inl same ↦ absurd (cc (rw same at found))
        | inr other ↦ v.keyed a r (rw other at found)
      ]

      both :
          (a : String)
          → (if str_eq agent a then none else lookup a c.providers)
            ≡ on_option
                (if str_eq agent a then none else lookup a c.by_agent)
                none
                (λ reg. some (made_of c reg))
      both a = elim (Bool-cases (str_eq agent a)) [
        | inl same ↦ rw same refl
        | inr other ↦ rw other (v.provided a)
      ]

upsert_all-IsCoherent :
    (regs : List Registration) (c : RegistrationCache)
    → IsCoherent c
    → IsCoherent (upsert_all regs c)
unfolding upsert_all
upsert_all-IsCoherent [] c v = v
upsert_all-IsCoherent (reg ∷ regs) c v = upsert_all-IsCoherent regs _ (upsert-IsCoherent c v reg)

evict-IsCoherent :
    (present agents : List String) (c : RegistrationCache)
    → IsCoherent c
    → IsCoherent (evict present agents c)
unfolding evict
evict-IsCoherent present [] c v = v
evict-IsCoherent present (agent ∷ agents) c v =
    evict-IsCoherent present agents _ (elim (Bool-cases (contains present agent)) [
      | inl found ↦ rw found v
      | inr stale ↦ rw stale (remove-IsCoherent c v agent)
    ])

updated-IsCoherent :
    (update : Update) (c : RegistrationCache) → IsCoherent c → IsCoherent (updated update c)
unfolding updated load
updated-IsCoherent (listed regs) c v =
    evict-IsCoherent _ (list_agents (upsert_all regs c)) _ (upsert_all-IsCoherent regs c v)
updated-IsCoherent (added reg) c v = upsert-IsCoherent c v reg
updated-IsCoherent (modified reg) c v = upsert-IsCoherent c v reg
updated-IsCoherent (deleted reg) c v = elim (Bool-cases (str_eq reg.agent_identity "")) [
  | inl blank ↦ rw blank v
  | inr named ↦ rw named (remove-IsCoherent c v reg.agent_identity)
]

watch-from :
    (updates : List Update) (c : RegistrationCache) → IsCoherent c → IsCoherent (watch updates c)
unfolding watch
watch-from [] c v = v
watch-from (update ∷ updates) c v = watch-from updates _ (updated-IsCoherent update c v)

pub watch-IsCoherent :
    (id secret : String) (updates : List Update)
    → IsCoherent (watch updates (new_registration_cache id secret))
unfolding new_registration_cache
watch-IsCoherent id secret updates =
    watch-from updates _
      (record { keyed = λ agent reg found. absurd (cc found); provided = λ agent. refl })

-- After any series of lists and watch events on an empty cache: the provider of an agent for a
-- service is the one that the agent's registration in the cache gives, and an agent without a
-- registration has none.
pub watch-provider_for :
    (id secret : String) (updates : List Update) (agent service : String)
    → provider_for (watch updates (new_registration_cache id secret)) agent service
      ≡ on_option
          (get (watch updates (new_registration_cache id secret)) agent)
          none
          (λ reg. lookup service (made_of (watch updates (new_registration_cache id secret)) reg))
unfolding provider_for get
watch-provider_for id secret updates agent service =
    ground (arith, (watch-IsCoherent id secret updates).provided agent)
