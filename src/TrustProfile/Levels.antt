-- ===== src/TrustProfile/Levels.antt =====
-- How trust levels rise and fall.
use aip_k8s.Prelude.{
  ℕ, String, Bool, true, false, Option, none, some, List, [], ◌∷◌, ◌≡◌, refl, ◌∙◌, ◌≤◌, ◌<◌, ltb,
  is_empty, ◌⊎◌, inl, inr, str_eq, deref_or, arith, if◌then◌else◌, on_option, Bool-cases,
  Option-cases,
}
use aip_k8s.Api.Trust.{
  trust_level_rank, rank_lt, observer_name, AccuracyBand, GraduationLevel, GraduationPolicy,
  TrustProfile,
}
use aip_k8s.TrustProfile.{
  Float, level_meets, policy_found, last_met, resolve_trust_level, check_demotion, guarded_level,
}
use aip_k8s.TrustProfile.Limits.{
  NoLimit, IsLimit, below_band-Judged, InGrace, OutOfGrace, grace_cases,
}

module _ {F : Type 0} (float : Float F) where
  module _ (parse : String → Option ℕ) (profile : TrustProfile F) (old new : String) (accuracy : F)
      (policy : GraduationPolicy F) (now : ℕ) where
    -- Why a lower level is not taken.
    abbrev pub IsHeld : Type 0
    IsHeld =
        InGrace float parse profile policy now
        ⊎ NoLimit float old policy.accuracy_drop_threshold policy.levels
        ⊎ ((limit : F) × IsLimit float old policy.accuracy_drop_threshold policy.levels limit
            × (float.lt accuracy limit ≡ false))

    -- Why a lower level is taken.
    abbrev pub IsDue : Type 0
    IsDue =
        OutOfGrace float parse profile policy now
        × (limit : F) × IsLimit float old policy.accuracy_drop_threshold policy.levels limit
        × (float.lt accuracy limit ≡ true)

    -- The three ways in which the level is settled under a policy.
    abbrev pub IsSettled : String × Bool → Type 0
    IsSettled (level, demoted) =
        ((rank_lt (trust_level_rank new) (trust_level_rank old) ≡ false)
          × (level ≡ new)
          × (demoted ≡ false))
        ⊎ ((rank_lt (trust_level_rank new) (trust_level_rank old) ≡ true)
            × (level ≡ old)
            × (demoted ≡ false)
            × IsHeld)
        ⊎ ((rank_lt (trust_level_rank new) (trust_level_rank old) ≡ true)
            × (level ≡ new)
            × (demoted ≡ true)
            × IsDue)

    demotion_cases :
        (IsHeld × (check_demotion float parse profile old accuracy policy now ≡ false))
        ⊎ (IsDue × (check_demotion float parse profile old accuracy policy now ≡ true))
    unfolding check_demotion
    demotion_cases = elim (grace_cases float parse profile policy now) [
      | inl (running, e) ↦ inl (inl running, rw e refl)
      | inr (over, e) ↦
          elim (below_band-Judged float old policy.accuracy_drop_threshold accuracy policy.levels) [
            | inl (no_limit, kept) ↦ inl (inr (inl no_limit), rw e kept)
            | inr (limit, is_limit, judged) ↦ elim (Bool-cases (float.lt accuracy limit)) [
              | inl below ↦ inr ((over, limit, is_limit, below), rw e (judged ∙ below))
              | inr above ↦ inl (inr (inr (limit, is_limit, above)), rw e (judged ∙ above))
            ]
          ]
    ]

    pub guarded_level-IsSettled :
        IsSettled (guarded_level float parse profile old new accuracy (some policy) now)
    unfolding guarded_level
    guarded_level-IsSettled =
        elim (Bool-cases (rank_lt (trust_level_rank new) (trust_level_rank old))) [
          | inr not_lower ↦ rw not_lower (inl (refl, refl, refl))
          | inl lower ↦ elim demotion_cases [
            | inl (held, e) ↦ rw (lower, e) (inr (inl (refl, refl, refl, held)))
            | inr (due, e) ↦ rw (lower, e) (inr (inr (refl, refl, refl, due)))
          ]
        ]

  -- The minima of a level are met.
  abbrev pub MeetsMinima : GraduationLevel F → F → ℕ → Type 0
  MeetsMinima level accuracy executed =
      ((level.accuracy ≡ none)
        ⊎ ((band : AccuracyBand F) × (level.accuracy ≡ some band)
            × ((band.min ≡ none)
                ⊎ ((m : F) × (band.min ≡ some m) × (float.lt accuracy m ≡ false)))))
      × ((level.executions_min ≡ none)
          ⊎ ((k : ℕ) × (level.executions_min ≡ some k) × (k ≤ executed)))

  -- The accuracy or the number of executions is below the minimum of the level.
  abbrev pub MissesMinimum : GraduationLevel F → F → ℕ → Type 0
  MissesMinimum level accuracy executed =
      ((band : AccuracyBand F) × (m : F) × (level.accuracy ≡ some band)
        × (band.min ≡ some m)
        × (float.lt accuracy m ≡ true))
      ⊎ ((k : ℕ) × (level.executions_min ≡ some k) × (executed < k))

  accuracy_cases :
      (level : GraduationLevel F) (accuracy : F)
      → (((level.accuracy ≡ none)
            ⊎ ((band : AccuracyBand F) × (level.accuracy ≡ some band)
                × ((band.min ≡ none)
                    ⊎ ((m : F) × (band.min ≡ some m) × (float.lt accuracy m ≡ false)))))
          × (on_option level.accuracy false (λ band. on_option band.min false (float.lt accuracy))
              ≡ false))
        ⊎ (((band : AccuracyBand F) × (m : F) × (level.accuracy ≡ some band)
              × (band.min ≡ some m)
              × (float.lt accuracy m ≡ true))
            × (on_option level.accuracy false (λ band. on_option band.min false (float.lt accuracy))
                ≡ true))
  accuracy_cases level accuracy = elim (Option-cases level.accuracy) [
    | inl no_band ↦ inl (inl no_band, rw no_band refl)
    | inr (band, has_band) ↦ elim (Option-cases band.min) [
      | inl no_min ↦ inl (inr (band, has_band, inl no_min), rw (has_band, no_min) refl)
      | inr (m, has_min) ↦ elim (Bool-cases (float.lt accuracy m)) [
        | inl below ↦ inr ((band, m, has_band, has_min, below), rw (has_band, has_min) below)
        | inr met ↦ inl (inr (band, has_band, inr (m, has_min, met)), rw (has_band, has_min) met)
      ]
    ]
  ]

  meets_cases :
      (level : GraduationLevel F) (accuracy : F) (executed : ℕ)
      → (MeetsMinima level accuracy executed × (level_meets float level accuracy executed ≡ true))
        ⊎ (MissesMinimum level accuracy executed
            × (level_meets float level accuracy executed ≡ false))
  unfolding level_meets
  meets_cases level accuracy executed = elim (accuracy_cases level accuracy) [
    | inr (missed, e) ↦ inr (inl missed, rw e refl)
    | inl (met, e) ↦ elim (Option-cases level.executions_min) [
      | inl no_min ↦ inl ((met, inl no_min), rw (e, no_min) refl)
      | inr (k, has_min) ↦ elim (Bool-cases (ltb executed k)) [
        | inl few ↦ inr (inr (k, has_min, ground (arith, few)), rw (e, has_min, few) refl)
        | inr enough ↦
            inl ((met, inr (k, has_min, ground (arith, enough))), rw (e, has_min, enough) refl)
      ]
    ]
  ]

  -- Every level of the list misses a minimum.
  abbrev pub NoneMet : F → ℕ → List (GraduationLevel F) → Type 0
  NoneMet accuracy executed [] = Unit
  NoneMet accuracy executed (level ∷ levels) =
      MissesMinimum level accuracy executed × NoneMet accuracy executed levels

  -- The minima of a level of that name are met, and those of none after it.
  abbrev pub IsHighest : F → ℕ → List (GraduationLevel F) → String → Type 0
  IsHighest accuracy executed [] name = ⊥
  IsHighest accuracy executed (level ∷ levels) name =
      ((level.name ≡ name) × MeetsMinima level accuracy executed × NoneMet accuracy executed levels)
      ⊎ IsHighest accuracy executed levels name

  abbrev LastMet : F → ℕ → List (GraduationLevel F) → Option String → Type 0
  LastMet accuracy executed levels none = NoneMet accuracy executed levels
  LastMet accuracy executed levels (some name) = IsHighest accuracy executed levels name

  LastMet-cons :
      (accuracy : F) (executed : ℕ) (level : GraduationLevel F) (levels : List (GraduationLevel F))
      (rest : Option String)
      → LastMet accuracy executed levels rest
      → LastMet accuracy executed (level ∷ levels) (
          on_option rest
            (if level_meets float level accuracy executed then some level.name else none)
            some)
  LastMet-cons accuracy executed level levels (some name) h = inr h
  LastMet-cons accuracy executed level levels none h = elim (meets_cases level accuracy executed) [
    | inl (met, e) ↦ rw e (inl (refl, met, h))
    | inr (missed, e) ↦ rw e (missed, h)
  ]

  last_met-LastMet :
      (accuracy : F) (executed : ℕ) (levels : List (GraduationLevel F))
      → LastMet accuracy executed levels (last_met float accuracy executed levels)
  unfolding last_met
  last_met-LastMet accuracy executed [] = tt
  last_met-LastMet accuracy executed (level ∷ levels) =
      LastMet-cons accuracy executed level levels _ (last_met-LastMet accuracy executed levels)

  unfound :
      (policy : GraduationPolicy F)
      → policy_found float (some policy) ≡ false
      → (str_eq policy.name "" ≡ true) ⊎ (is_empty policy.levels ≡ true)
  unfolding policy_found
  unfound policy h = elim (Bool-cases (str_eq policy.name "")) [
    | inl blank ↦ inl blank
    | inr named ↦ inr (ground (arith, h, named))
  ]

  -- Of a policy with a name and levels, the level is that of the last level of which the minimum
  -- accuracy and the minimum number of executions are met, where it has them; whatever maxima the
  -- levels have. It is Observer where every level misses a minimum, and where the policy has no name
  -- or no levels.
  pub resolve_trust_level-IsHighest :
      (accuracy : F) (executed : ℕ) (policy : GraduationPolicy F)
      → (((str_eq policy.name "" ≡ true) ⊎ (is_empty policy.levels ≡ true))
          × (resolve_trust_level float accuracy executed (some policy) ≡ observer_name))
        ⊎ (NoneMet accuracy executed policy.levels
            × (resolve_trust_level float accuracy executed (some policy) ≡ observer_name))
        ⊎ IsHighest accuracy executed policy.levels
            (resolve_trust_level float accuracy executed (some policy))
  unfolding resolve_trust_level
  resolve_trust_level-IsHighest accuracy executed policy =
      elim (Bool-cases (policy_found float (some policy))) [
        | inr missing ↦ inl (unfound policy missing, rw missing refl)
        | inl found ↦ inr (rw found (met _ (last_met-LastMet accuracy executed policy.levels)))
      ]
    where
      met :
          (r : Option String)
          → LastMet accuracy executed policy.levels r
          → (NoneMet accuracy executed policy.levels × (deref_or r observer_name ≡ observer_name))
            ⊎ IsHighest accuracy executed policy.levels (deref_or r observer_name)
      met none h = inl (h, refl)
      met (some name) h = inr h
