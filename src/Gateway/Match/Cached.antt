-- ===== src/Gateway/Match/Cached.antt =====
-- The cache of compiled patterns: the search is the same as one that compiles every pattern anew.
use aip_k8s.Prelude.{
  String, Bool, false, not, ◌&&◌, Option, none, some, List, [], ◌∷◌, str_eq, ◌≡◌, refl, ◌≤◌, inl,
  inr, arith, lookup, length, if◌then◌else◌, on_option, Bool-cases, Option-cases, eq_iff, ltb, sym,
  ap, ◌∙◌,
}
use aip_k8s.Api.Policy.{GovernedResource}
use aip_k8s.Gateway.Match.{
  Cache, action_excluded, is_better, cache_add, pick, compiled, match_step, match_loop,
  match_governed_resource,
}

module _ (compile : String → Option (String → Bool)) where
  -- The resource governs the operation, by its pattern as compiled now.
  abbrev pub governs : String → String → GovernedResource → Bool
  governs uri action gr =
      not (action_excluded gr action) && on_option (compile gr.uri_pattern) false (λ g. g uri)

  -- Every entry of the cache is the compiled pattern.
  abbrev pub IsCacheOf : Cache → Type 0
  IsCacheOf [] = Unit
  IsCacheOf ((p, g) ∷ cache) = (compile p ≡ some g) × IsCacheOf cache

  lookup-IsCacheOf :
      (p : String) (cache : Cache) {g : String → Bool}
      → IsCacheOf cache
      → lookup p cache ≡ some g
      → compile p ≡ some g
  lookup-IsCacheOf p [] v h = cc
  lookup-IsCacheOf p ((q, f) ∷ cache) v h = elim (Bool-cases (str_eq q p)) [
    | inl e ↦
        let same : q ≡ p = (eq_iff q p).0 e in let h' : some f ≡ some _ = rw e at h in cc (v.0)
    | inr e ↦ lookup-IsCacheOf p cache v.1 (rw e at h)
  ]

  cache_add-IsCacheOf :
      (p : String) (g : String → Bool) (cache : Cache)
      → compile p ≡ some g
      → IsCacheOf cache
      → IsCacheOf (cache_add p g cache)
  unfolding cache_add
  cache_add-IsCacheOf p g cache e v = elim (Bool-cases (ltb 1000 (length cache))) [
    | inl full ↦ rw full (e, tt)
    | inr small ↦ rw small (e, v)
  ]

  compiled-IsCacheOf :
      (p : String) (cache : Cache)
      → IsCacheOf cache
      → ((compiled compile p cache).0 ≡ compile p) × IsCacheOf (compiled compile p cache).1
  unfolding compiled
  compiled-IsCacheOf p cache v = elim (Option-cases (lookup p cache)) [
    | inr (g, e) ↦ rw e (sym (lookup-IsCacheOf p cache v e), v)
    | inl e ↦ rw e elim (Option-cases (compile p)) [
      | inl n ↦ rw n (refl, v)
      | inr (g, y) ↦ rw y (refl, cache_add-IsCacheOf p g cache y v)
    ]
  ]

  module _ (uri action : String) where
    -- One round of the search without a cache.
    unfoldable pub best_of : GovernedResource → Option GovernedResource → Option GovernedResource
    best_of gr best =
        if governs uri action gr
        then on_option best (some gr) (λ b. if is_better gr b then some gr else best)
        else best

    pub match_step-best_of :
        (gr : GovernedResource) (best : Option GovernedResource) (cache : Cache)
        → IsCacheOf cache
        → ((match_step compile uri action gr (best, cache)).0 ≡ best_of gr best)
          × IsCacheOf (match_step compile uri action gr (best, cache)).1
    unfolding match_step pick best_of
    match_step-best_of gr best cache v =
        let c = compiled-IsCacheOf gr.uri_pattern cache v in
        elim (Bool-cases (action_excluded gr action)) [
          | inl out ↦ rw out (refl, v)
          | inr in_scope ↦ rw in_scope (
            rw (c.0) elim (Option-cases (compile gr.uri_pattern)) [
              | inl n ↦ rw n refl
              | inr (g, y) ↦ rw y refl
            ],
            c.1,
          )
        ]

    -- The whole search without a cache.
    pub best_resource : List GovernedResource → Option GovernedResource → Option GovernedResource
    best_resource [] best = best
    best_resource (gr ∷ items) best = best_resource items (best_of gr best)

    match_loop-best_resource :
        (items : List GovernedResource) (best : Option GovernedResource) (cache : Cache)
        → IsCacheOf cache
        → ((match_loop compile uri action items (best, cache)).0 ≡ best_resource items best)
          × IsCacheOf (match_loop compile uri action items (best, cache)).1
    unfolding match_loop best_resource
    match_loop-best_resource [] best cache v = (refl, v)
    match_loop-best_resource (gr ∷ items) best cache v =
        let found = match_step compile uri action gr (best, cache) in
        let s = match_step-best_of gr best cache v in
        let rest = match_loop-best_resource items found.0 found.1 s.1 in
        (rest.0 ∙ ap (best_resource items) s.0, rest.1)

    -- From a cache that holds compiled patterns only: the search finds what the search that
    -- compiles every pattern anew finds, and its cache again holds compiled patterns only.
    pub match_governed_resource-best_resource :
        (items : List GovernedResource) (cache : Cache)
        → IsCacheOf cache
        → ((match_governed_resource compile items uri action cache).0 ≡ best_resource items none)
          × IsCacheOf (match_governed_resource compile items uri action cache).1
    unfolding match_governed_resource
    match_governed_resource-best_resource items cache v =
        match_loop-best_resource items none cache v

    match_step-le :
        (gr : GovernedResource) (best : Option GovernedResource) (cache : Cache)
        → length cache ≤ 1001
        → length (match_step compile uri action gr (best, cache)).1 ≤ 1001
    unfolding match_step compiled cache_add
    match_step-le gr best cache h = ground arith

    match_loop-le :
        (items : List GovernedResource) (best : Option GovernedResource) (cache : Cache)
        → length cache ≤ 1001
        → length (match_loop compile uri action items (best, cache)).1 ≤ 1001
    unfolding match_loop
    match_loop-le [] best cache h = h
    match_loop-le (gr ∷ items) best cache h =
        match_loop-le items _ _ (match_step-le gr best cache h)

    -- The cache of a search that starts with at most 1001 patterns keeps to that bound.
    pub match_governed_resource-length-le :
        (items : List GovernedResource) (cache : Cache)
        → length cache ≤ 1001
        → length (match_governed_resource compile items uri action cache).1 ≤ 1001
    unfolding match_governed_resource
    match_governed_resource-length-le items cache h = match_loop-le items none cache h
