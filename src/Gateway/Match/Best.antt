-- ===== src/Gateway/Match/Best.antt =====
-- What `match_governed_resource` finds: the most specific resource that governs, whatever the cache
-- of compiled patterns holds.
use aip_k8s.Prelude.{
  String, Bool, true, false, not, Option, none, some, List, [], ◌∷◌, ◌≡◌, refl, ◌⊎◌, inl, inr,
  arith, if◌then◌else◌, on_option, Bool-cases, subst,
}
use aip_k8s.Prelude.Order.{str_lt_trans, str_lt_asym, str_lt_irrefl}
use aip_k8s.Api.Policy.{GovernedResource}
use aip_k8s.Gateway.Match.{Cache, is_better, match_step, match_loop, match_governed_resource}
use aip_k8s.Gateway.Match.Cached.{governs, IsCacheOf, best_of, match_step-best_of}

is_better_asym : (a b : GovernedResource) → is_better a b ≡ true → is_better b a ≡ false
unfolding is_better
is_better_asym a b h = ground (arith, str_lt_asym a.name b.name)

is_better_irrefl : (a : GovernedResource) → is_better a a ≡ false
unfolding is_better
is_better_irrefl a = ground (arith, str_lt_irrefl a.name)

is_better_trans :
    (a b c : GovernedResource)
    → is_better a b ≡ false
    → is_better b c ≡ false
    → is_better a c ≡ false
unfolding is_better
is_better_trans a b c h k = ground (arith, str_lt_trans a.name b.name c.name)

module _ (compile : String → Option (String → Bool)) (uri action : String) where
  -- No resource of the list governs.
  abbrev pub NoneGoverns : List GovernedResource → Type 0
  NoneGoverns [] = Unit
  NoneGoverns (x ∷ items) = (governs compile uri action x ≡ false) × NoneGoverns items

  -- No resource of the list governs and is better than `r`.
  abbrev pub NoneBetter : List GovernedResource → GovernedResource → Type 0
  NoneBetter [] r = Unit
  NoneBetter (x ∷ items) r =
      ((governs compile uri action x ≡ false) ⊎ (is_better x r ≡ false)) × NoneBetter items r

  abbrev pub Among : List GovernedResource → GovernedResource → Type 0
  Among [] r = ⊥
  Among (x ∷ items) r = (x ≡ r) ⊎ Among items r

  -- The answer of the loop for a list, from the best resource so far.
  abbrev Ends : List GovernedResource → Option GovernedResource → Option GovernedResource → Type 0
  Ends items best none = (best ≡ none) × NoneGoverns items
  Ends items best (some r) =
      ((best ≡ some r) ⊎ ((governs compile uri action r ≡ true) × Among items r))
      × NoneBetter items r
      × (on_option best true (λ b. not (is_better b r)) ≡ true)

  origin :
      (gr : GovernedResource) (items : List GovernedResource) (r : GovernedResource)
      → governs compile uri action gr ≡ true
      → (some gr ≡ some r) ⊎ ((governs compile uri action r ≡ true) × Among items r)
      → (governs compile uri action r ≡ true) × Among (gr ∷ items) r
  origin gr items r g (inl p) = let same : gr ≡ r = cc in (rw (← same) g, inl same)
  origin gr items r g (inr q) = (q.0, inr q.1)

  Ends-if :
      (gr : GovernedResource) (items : List GovernedResource) (best r : Option GovernedResource)
      (b : Bool)
      → governs compile uri action gr ≡ b
      → Ends items
          (if b
            then on_option best (some gr) (λ x. if is_better gr x then some gr else best)
            else best)
          r
      → Ends (gr ∷ items) best r
  Ends-if gr items best none false g e = (e.0, (g, e.1))
  Ends-if gr items best (some r) false g e =
      (elim (e.0) [ inl p ↦ inl p | inr q ↦ inr (q.0, inr q.1) ], (inl g, e.1), e.2)
  Ends-if gr items none none true g e = absurd (cc (e.0))
  Ends-if gr items none (some r) true g e =
      (inr (origin gr items r g e.0), (inr (ground (arith, e.2)), e.1), refl)
  Ends-if gr items (some x) none true g e = absurd (ground (arith, e.0))
  Ends-if gr items (some x) (some r) true g e = elim (Bool-cases (is_better gr x)) [
    | inl better ↦
        let e' : Ends items (some gr) (some r) = rw better at e in
        let worse : is_better gr r ≡ false = ground (arith, e'.2) in
        (
          inr (origin gr items r g e'.0),
          (inr worse, e'.1),
          rw (is_better_trans x gr r (is_better_asym gr x better) worse) refl,
        )
    | inr not_better ↦
        let e' : Ends items (some x) (some r) = rw not_better at e in
        let worse : is_better x r ≡ false = ground (arith, e'.2) in
        (
          elim (e'.0) [ inl p ↦ inl p | inr q ↦ inr (q.0, inr q.1) ],
          (inr (is_better_trans gr x r not_better worse), e'.1),
          e'.2,
        )
  ]

  match_loop-Ends :
      (items : List GovernedResource) (best : Option GovernedResource) (cache : Cache)
      → IsCacheOf compile cache
      → Ends items best (match_loop compile uri action items (best, cache)).0
        × IsCacheOf compile (match_loop compile uri action items (best, cache)).1
  unfolding match_loop best_of
  match_loop-Ends [] none cache v = ((refl, tt), v)
  match_loop-Ends [] (some b) cache v = ((inl refl, tt, rw (is_better_irrefl b) refl), v)
  match_loop-Ends (gr ∷ items) best cache v =
      let found = match_step compile uri action gr (best, cache) in
      let s = match_step-best_of compile uri action gr best cache v in
      let rest = match_loop-Ends items found.0 found.1 s.1 in
      (
        Ends-if gr items best _ (governs compile uri action gr) refl
            (subst (λ b. Ends items b (match_loop compile uri action items found).0) s.0 rest.0),
        rest.1,
      )

  -- What the search finds for an operation on `uri`: nothing only if nothing governs it, else
  -- one of the resources, which governs it and which no other that governs it beats by the
  -- length of its pattern, or at equal length by its name.
  abbrev pub IsMostSpecific : List GovernedResource → Option GovernedResource → Type 0
  IsMostSpecific items none = NoneGoverns items
  IsMostSpecific items (some r) =
      (governs compile uri action r ≡ true) × Among items r × NoneBetter items r

  Ends-IsMostSpecific :
      (items : List GovernedResource) (r : Option GovernedResource)
      → Ends items none r
      → IsMostSpecific items r
  Ends-IsMostSpecific items none e = e.1
  Ends-IsMostSpecific items (some r) e = elim (e.0) [
    | inl p ↦ absurd (cc p)
    | inr q ↦ (q.0, q.1, e.1)
  ]

  -- Where the cache holds compiled patterns only: the search finds the most specific resource
  -- that governs the operation, nothing only if none does, and the cache holds compiled patterns
  -- only afterwards.
  pub match_governed_resource-IsMostSpecific :
      (items : List GovernedResource) (cache : Cache)
      → IsCacheOf compile cache
      → IsMostSpecific items (match_governed_resource compile items uri action cache).0
        × IsCacheOf compile (match_governed_resource compile items uri action cache).1
  unfolding match_governed_resource
  match_governed_resource-IsMostSpecific items cache v =
      let found = match_loop-Ends items none cache v in
      (Ends-IsMostSpecific items _ found.0, found.1)
