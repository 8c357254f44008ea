-- ===== src/TrustProfile/Monotone.antt =====
-- A better record never gives a lower level.
use aip_k8s.Prelude.{
  ℕ, ◌≤◌, String, true, false, some, List, [], ◌∷◌, ◌≡◌, refl, ◌⊎◌, inl, inr, arith, Option-cases,
}
use aip_k8s.Api.Trust.{GraduationLevel}
use aip_k8s.TrustProfile.{Float, level_meets, last_met}

module _ {F : Type 0} (float : Float F) where
  -- Whatever minimum `a` is not below, `b` is not below.
  abbrev pub IsAtLeast : F → F → Type 0
  IsAtLeast b a = (m : F) → (float.lt a m ≡ true) ⊎ (float.lt b m ≡ false)

  abbrev pub NamedAmong : List (GraduationLevel F) → String → Type 0
  NamedAmong [] name = ⊥
  NamedAmong (level ∷ levels) name = (level.name ≡ name) ⊎ NamedAmong levels name

  -- `y` is the name of the level that is named `x`, or of one after it.
  abbrev pub AtOrAfter : List (GraduationLevel F) → String → String → Type 0
  AtOrAfter [] x y = ⊥
  AtOrAfter (level ∷ levels) x y =
      ((level.name ≡ x) × ((level.name ≡ y) ⊎ NamedAmong levels y)) ⊎ AtOrAfter levels x y

  last_met-NamedAmong :
      (a : F) (n : ℕ) (levels : List (GraduationLevel F)) (name : String)
      → last_met float a n levels ≡ some name
      → NamedAmong levels name
  unfolding last_met
  last_met-NamedAmong a n [] name h = absurd (cc h)
  last_met-NamedAmong a n (level ∷ levels) name h =
      elim (Option-cases (last_met float a n levels)) [
        | inr (x, e) ↦ inr (last_met-NamedAmong a n levels name (ground (arith, e)))
        | inl e ↦ inl (ground (arith, e))
      ]

  module _ (a b : F) (n k : ℕ) (up : IsAtLeast b a) (le : n ≤ k) where
    level_meets-monotone :
        (level : GraduationLevel F)
        → level_meets float level a n ≡ true
        → level_meets float level b k ≡ true
    unfolding level_meets
    level_meets-monotone level h = elim (Option-cases level.accuracy) [
      | inl no_band ↦ ground (arith, no_band)
      | inr (band, e) ↦ elim (Option-cases band.min) [
        | inl no_min ↦ ground (arith, e, no_min)
        | inr (m, d) ↦ ground (arith, e, d, up m)
      ]
    ]

    -- Where the accuracy `b` is not below any minimum that `a` is not below, and `k` executions are
    -- no fewer than `n`: if a level is met with `a` and `n`, then the one that is found with `b` and
    -- `k` is that level or stands after it in the policy, whatever maxima the levels have.
    pub last_met-monotone :
        (levels : List (GraduationLevel F)) (x : String)
        → last_met float a n levels ≡ some x
        → (y : String) × (last_met float b k levels ≡ some y) × AtOrAfter levels x y
    unfolding last_met
    last_met-monotone [] x h = absurd (cc h)
    last_met-monotone (level ∷ levels) x h = elim (Option-cases (last_met float a n levels)) [
      | inr (z, e) ↦
          let (y, found, after) = last_met-monotone levels x (ground (arith, e)) in
          (y, ground (arith, found), inr after)
      | inl e ↦
          let met : level_meets float level a n ≡ true = ground (arith, e) in
          let named : level.name ≡ x = ground (arith, e) in
          let still : level_meets float level b k ≡ true = level_meets-monotone level met in
          elim (Option-cases (last_met float b k levels)) [
            | inr (y, found) ↦ (
              y,
              ground (arith, found),
              inl (named, inr (last_met-NamedAmong b k levels y found)),
            )
            | inl none_found ↦ (level.name, ground (arith, still), inl (named, inl refl))
          ]
    ]
