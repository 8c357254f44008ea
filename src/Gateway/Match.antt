-- ===== src/Gateway/Match.antt =====
-- `matchGovernedResource` of cmd/gateway/governed_resource.go. `compile` stands for glob.Compile of
-- github.com/gobwas/glob with the separator '/'; `none` is an error, which is logged.
pub mod Cached
pub mod Best
use Prim.Native.String.{len}
use aip_k8s.Prelude.{
  String, Bool, not, ◌&&◌, ◌||◌, Option, none, some, List, [], ◌∷◌, str_eq, ltb, ◌==◌, contains,
  lookup, length, is_empty, if◌then◌else◌, on_option,
}
use aip_k8s.Prelude.Order.{str_lt}
use aip_k8s.Api.Policy.{GovernedResource}

-- `globCache`; the patterns compiled so far.
abbrev pub Cache : Type 0
Cache = List (String × (String → Bool))

-- The resource declares permittedActions, and the requested action is not one of them.
pub action_excluded : GovernedResource → String → Bool
action_excluded gr action =
    not (str_eq action "")
    && not (is_empty gr.permitted_actions)
    && not (contains gr.permitted_actions action)

-- A longer pattern, or one as long of a resource whose name comes first.
pub is_better : GovernedResource → GovernedResource → Bool
is_better gr best =
    ltb (len best.uri_pattern) (len gr.uri_pattern)
    || (len gr.uri_pattern == len best.uri_pattern && str_lt gr.name best.name)

-- A full cache is emptied before the pattern is added.
pub cache_add : String → (String → Bool) → Cache → Cache
cache_add pattern g cache =
    if ltb 1000 (length cache) then (pattern, g) ∷ [] else (pattern, g) ∷ cache

pub pick :
    String → GovernedResource → (String → Bool) → Option GovernedResource → Option GovernedResource
pick uri gr g best =
    if g uri then on_option best (some gr) (λ b. if is_better gr b then some gr else best) else best

module _ (compile : String → Option (String → Bool)) where
  -- The glob of a pattern, from the cache or compiled and added to it.
  pub compiled : String → Cache → Option (String → Bool) × Cache
  compiled pattern cache =
      on_option (lookup pattern cache)
        (on_option (compile pattern) (none, cache) (λ g. (some g, cache_add pattern g cache)))
        (λ g. (some g, cache))

  pub match_step :
      String
      → String
      → GovernedResource
      → Option GovernedResource × Cache
      → Option GovernedResource × Cache
  match_step uri action gr (best, cache) =
      if action_excluded gr action
      then (best, cache)
      else (let (glob, cache') = compiled gr.uri_pattern cache in
          (on_option glob best (λ g. pick uri gr g best), cache'))

  match_loop :
      String
      → String
      → List GovernedResource
      → Option GovernedResource × Cache
      → Option GovernedResource × Cache
  match_loop uri action [] found = found
  match_loop uri action (gr ∷ items) found =
      match_loop uri action items (match_step uri action gr found)

  pub match_governed_resource :
      List GovernedResource → String → String → Cache → Option GovernedResource × Cache
  match_governed_resource items uri action cache = match_loop uri action items (none, cache)
