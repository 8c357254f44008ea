-- ===== src/Gateway/Registrations/Tests.antt =====
-- Lookups in a cache with one registration, which a watch has brought.
use aip_k8s.Prelude.{String, none, some, List, [], ◌∷◌, ◌≡◌, refl, lookup, insert, on_option}
use aip_k8s.Gateway.Registrations.{
  Registration, RegistrationCache, Binding, Credential, Provider, Update, added, listed, built,
  provider_of, same_generation, upsert, lists_subject, scan, scan_all, upsert_all, evict,
  list_agents, load, updated, get, get_for_subject, provider_for, watch, new_registration_cache,
}
use aip_k8s.Gateway.Registrations.Cached.{made_of, watch-provider_for}
use aip_k8s.Gateway.Registrations.Subjects.{Passes, get_for_subject-Passes}

abbrev binding : Binding
binding = record {
  service = "git";
  credential = Credential.static_secret (some ("name", "namespace", "key"));
}

abbrev registered : List String → Registration
registered subjects = record {
  generation = 1;
  agent_identity = "agent";
  oidc = some (record { issuer = "https://issuer"; allowed_subjects = subjects });
  external_identities = binding ∷ [];
}

abbrev updates : List Update
updates = added (registered ("bot" ∷ [])) ∷ []

abbrev sample_cache : RegistrationCache
sample_cache = watch updates (new_registration_cache "" "")

found : get_for_subject sample_cache "" "bot" ≡ some (registered ("bot" ∷ []))
unfolding get_for_subject scan_all scan lists_subject watch updated upsert same_generation insert
    new_registration_cache
found = refl

git_provided :
    provider_for sample_cache "agent" "git"
    ≡ some (Provider.static_secret ("name", "namespace", "key"))
unfolding provider_for watch updated upsert same_generation insert built provider_of
    new_registration_cache
git_provided = refl

-- A registration that is made again, with its generation back at 1, between two lists.
stale_kept :
    get
      (watch
        (listed (registered ("bot" ∷ []) ∷ []) ∷ listed (registered ("new" ∷ []) ∷ []) ∷ [])
        (new_registration_cache "" ""))
      "agent"
    ≡ some (registered ("bot" ∷ []))
unfolding get watch updated load upsert_all evict list_agents upsert same_generation insert
    new_registration_cache
stale_kept = refl

watch-provider_for_example :
    provider_for sample_cache "agent" "git"
    ≡ on_option (get sample_cache "agent") none (λ reg. lookup "git" (made_of sample_cache reg))
watch-provider_for_example = watch-provider_for "" "" updates "agent" "git"

get_for_subject-Passes_example : Passes (registered ("bot" ∷ [])) "bot"
get_for_subject-Passes_example =
    get_for_subject-Passes "" "" updates "" "bot" (registered ("bot" ∷ [])) found
