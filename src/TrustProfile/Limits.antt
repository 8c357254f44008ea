-- ===== src/TrustProfile/Limits.antt =====
-- The limit of accuracy under which a level is lost, and the grace period in which it is kept.
use aip_k8s.Prelude.{
  ℕ, String, true, false, Option, none, some, List, [], ◌∷◌, ◌≡◌, refl, ◌∙◌, ◌+◌, ◌≤◌, ◌<◌, ltb,
  ◌⊎◌, inl, inr, str_eq, deref_or, arith, Bool-cases, Option-cases,
}
use aip_k8s.Api.Trust.{AccuracyBand, GraduationLevel, GraduationPolicy, TrustProfile}
use aip_k8s.TrustProfile.{Float, below_band, in_grace_period}

module _ {F : Type 0} (float : Float F) where
  module _ (old : String) (threshold : F) where
    -- The level has another name, or no minimum accuracy.
    abbrev pub NoMin : GraduationLevel F → Type 0
    NoMin level =
        (str_eq level.name old ≡ false)
        ⊎ (level.accuracy ≡ none)
        ⊎ ((band : AccuracyBand F) × (level.accuracy ≡ some band) × (band.min ≡ none))

    abbrev pub NoLimit : List (GraduationLevel F) → Type 0
    NoLimit [] = Unit
    NoLimit (level ∷ levels) = NoMin level × NoLimit levels

    -- The first level of that name with a minimum gives the limit: the minimum less the level's
    -- buffer, or less the policy's threshold where the level has none.
    abbrev pub IsLimit : List (GraduationLevel F) → F → Type 0
    IsLimit [] limit = ⊥
    IsLimit (level ∷ levels) limit =
        ((band : AccuracyBand F) × (m : F) × (str_eq level.name old ≡ true)
          × (level.accuracy ≡ some band)
          × (band.min ≡ some m)
          × (limit ≡ float.sub m (deref_or band.demotion_buffer threshold)))
        ⊎ (NoMin level × IsLimit levels limit)

    abbrev pub Judged : F → List (GraduationLevel F) → Type 0
    Judged accuracy levels =
        (NoLimit levels × (below_band float old accuracy threshold levels ≡ false))
        ⊎ ((limit : F) × IsLimit levels limit
            × (below_band float old accuracy threshold levels ≡ float.lt accuracy limit))

    pub below_band-Judged :
        (accuracy : F) (levels : List (GraduationLevel F)) → Judged accuracy levels
    unfolding below_band
    below_band-Judged accuracy [] = inl (tt, refl)
    below_band-Judged accuracy (level ∷ levels) = elim (Bool-cases (str_eq level.name old)) [
      | inr other ↦ passed (below_band-Judged accuracy levels) (inl other) (rw other refl)
      | inl named ↦ elim (Option-cases level.accuracy) [
        | inl no_band ↦
            passed (below_band-Judged accuracy levels) (inr (inl no_band))
              (rw (named, no_band) refl)
        | inr (band, has_band) ↦ elim (Option-cases band.min) [
          | inl no_min ↦
              passed (below_band-Judged accuracy levels) (inr (inr (band, has_band, no_min)))
                (rw (named, has_band, no_min) refl)
          | inr (m, has_min) ↦ inr (
            float.sub m (deref_or band.demotion_buffer threshold),
            inl (band, m, named, has_band, has_min, refl),
            rw (named, has_band, has_min) refl,
          )
        ]
      ]
    ]
      where
        passed :
            Judged accuracy levels
            → NoMin level
            → below_band float old accuracy threshold (level ∷ levels)
              ≡ below_band float old accuracy threshold levels
            → Judged accuracy (level ∷ levels)
        passed rest no_min e = elim rest [
          | inl (no_limit, kept) ↦ inl ((no_min, no_limit), e ∙ kept)
          | inr (limit, is_limit, judged) ↦ inr (limit, inr (no_min, is_limit), e ∙ judged)
        ]

  module _ (parse : String → Option ℕ) (profile : TrustProfile F) (policy : GraduationPolicy F)
      (now : ℕ) where
    -- The grace period after the last promotion, or the creation, is running.
    abbrev pub InGrace : Type 0
    InGrace =
        (str_eq policy.grace_period "" ≡ false)
        × (d : ℕ) × (parse policy.grace_period ≡ some d)
        × (now < deref_or profile.last_promoted_at profile.created + d)

    -- There is no grace period, or none that can be read, or it is over.
    abbrev pub OutOfGrace : Type 0
    OutOfGrace =
        (str_eq policy.grace_period "" ≡ true)
        ⊎ (parse policy.grace_period ≡ none)
        ⊎ ((d : ℕ) × (parse policy.grace_period ≡ some d)
            × (deref_or profile.last_promoted_at profile.created + d ≤ now))

    pub grace_cases :
        (InGrace × (in_grace_period float parse profile policy now ≡ true))
        ⊎ (OutOfGrace × (in_grace_period float parse profile policy now ≡ false))
    unfolding in_grace_period
    grace_cases = elim (Bool-cases (str_eq policy.grace_period "")) [
      | inl blank ↦ inr (inl blank, rw blank refl)
      | inr given ↦ elim (Option-cases (parse policy.grace_period)) [
        | inl unread ↦ inr (inr (inl unread), rw (given, unread) refl)
        | inr (d, read) ↦
            let start = deref_or profile.last_promoted_at profile.created in
            elim (Bool-cases (ltb now (start + d))) [
              | inl running ↦
                  inl ((given, d, read, ground (arith, running)), rw (given, read) running)
              | inr over ↦ inr (inr (inr (d, read, ground (arith, over))), rw (given, read) over)
            ]
      ]
    ]
