-- ===== src/Gateway/Names/Classes.antt =====
-- normalizeClassification meets the pattern of the field `classification`.
use aip_k8s.Prelude.{
  String, Bool, true, false, not, ◌&&◌, ◌||◌, some, List, [], ◌∷◌, ◌++◌, map, ◌≡◌, refl, leb, ltb,
  arith, Bool-cases, inl, inr, any, str_eq, eq_iff, ◌⊎◌,
}
use aip_k8s.Prelude.Chars.{
  Char, code, chars, chars-text_of, hyphen, is_hyphen, All, trim_left, kept_before, trim_right,
}
use aip_k8s.Api.Naming.{is_alphanumeric, is_dns}
use aip_k8s.Api.Naming.Labels.{
  alphanumeric-is_dns, hyphen-is_dns, alphanumeric-kept, trim_right-All,
}
use aip_k8s.Gateway.Names.{
  slash, cut_slash, slug_loop, with_letter, joined, slugify, classified, normalize_classification,
}

abbrev is_letter : Char → Bool
is_letter c = leb b'a' (code c) && leb (code c) b'z'

-- `[a-z][a-z0-9-]*`
abbrev pub IsSlug : List Char → Type 0
IsSlug [] = ⊥
IsSlug (c ∷ s) = (is_letter c ≡ true) × All is_dns s

-- `^[a-z][a-z0-9-]*/[a-z][a-z0-9-]*$`
abbrev pub IsClassification : String → Type 0
IsClassification text = (a b : List Char) × (chars text ≡ a ++ slash ∷ b) × IsSlug a × IsSlug b

slug_loop-All : (last started : Bool) (s : List Char) → All is_dns (slug_loop last started s)
unfolding slug_loop
slug_loop-All last started [] = tt
slug_loop-All last started (c ∷ s) = elim (Bool-cases (is_alphanumeric c)) [
  | inl kept ↦ rw kept (alphanumeric-is_dns c kept, slug_loop-All false true s)
  | inr other ↦ rw other (elim (Bool-cases (not last && started)) [
    | inl separated ↦ rw separated (hyphen-is_dns, slug_loop-All true started s)
    | inr skipped ↦ rw skipped (slug_loop-All last started s)
  ])
]

any_tail :
    (d : Char) (r : List Char)
    → any is_alphanumeric r ≡ true
    → (is_alphanumeric d || any is_alphanumeric r) ≡ true
any_tail d r h = elim (Bool-cases (is_alphanumeric d)) [
  | inl e ↦ rw e refl
  | inr e ↦ rw (e, h) refl
]

-- The loop drops no letter and no digit.
slug_loop-any :
    (last started : Bool) (s : List Char)
    → any is_alphanumeric s ≡ true
    → any is_alphanumeric (slug_loop last started s) ≡ true
unfolding slug_loop
slug_loop-any last started [] h = h
slug_loop-any last started (c ∷ s) h = elim (Bool-cases (is_alphanumeric c)) [
  | inl kept ↦ rw (kept, kept) refl
  | inr other ↦
      let rest : any is_alphanumeric s ≡ true = rw other at h in
      rw other (elim (Bool-cases (not last && started)) [
        | inl separated ↦ rw separated (any_tail hyphen _ (slug_loop-any true started s rest))
        | inr skipped ↦ rw skipped (slug_loop-any last started s rest)
      ])
]

trim_left-any :
    (s : List Char)
    → any is_alphanumeric s ≡ true
    → any is_alphanumeric (trim_left is_hyphen s) ≡ true
unfolding trim_left
trim_left-any [] h = h
trim_left-any (c ∷ s) h = elim (Bool-cases (is_alphanumeric c)) [
  | inl kept ↦ rw (alphanumeric-kept c kept) (rw kept refl)
  | inr other ↦ elim (Bool-cases (is_hyphen c)) [
    | inl dropped ↦ rw dropped (trim_left-any s (rw other at h))
    | inr begun ↦ rw begun h
  ]
]

kept_before-any :
    (c : Char) (r : List Char)
    → (is_alphanumeric c ≡ true) ⊎ (any is_alphanumeric r ≡ true)
    → any is_alphanumeric (kept_before is_hyphen c r) ≡ true
unfolding kept_before
kept_before-any c [] (inl h) = rw (alphanumeric-kept c h) (rw h refl)
kept_before-any c [] (inr h) = absurd (cc h)
kept_before-any c (d ∷ r) (inl h) = rw h refl
kept_before-any c (d ∷ r) (inr h) = any_tail c (d ∷ r) h

trim_right-any :
    (s : List Char)
    → any is_alphanumeric s ≡ true
    → any is_alphanumeric (trim_right is_hyphen s) ≡ true
unfolding trim_right
trim_right-any [] h = h
trim_right-any (c ∷ s) h = elim (Bool-cases (is_alphanumeric c)) [
  | inl kept ↦ kept_before-any c (trim_right is_hyphen s) (inl kept)
  | inr other ↦ kept_before-any c (trim_right is_hyphen s) (inr (trim_right-any s (rw other at h)))
]

trim_left-All : (s : List Char) → All is_dns s → All is_dns (trim_left is_hyphen s)
unfolding trim_left
trim_left-All [] h = tt
trim_left-All (c ∷ s) (h, hs) = elim (Bool-cases (is_hyphen c)) [
  | inl dropped ↦ rw dropped (trim_left-All s hs)
  | inr kept ↦ rw kept (h, hs)
]

letter_first : (c : Char) → (ltb (code c) b'a' || ltb b'z' (code c)) ≡ false → is_letter c ≡ true
letter_first c h = ground (arith, h)

with_letter-IsSlug :
    (s : List Char) → All is_dns s → any is_alphanumeric s ≡ true → IsSlug (with_letter s)
unfolding with_letter
with_letter-IsSlug [] h k = absurd (cc k)
with_letter-IsSlug (c ∷ s) (h, hs) k = elim (Bool-cases (ltb (code c) b'a' || ltb b'z' (code c))) [
  | inl digit ↦ rw digit (refl, (hyphen-is_dns, (h, hs)))
  | inr letter ↦ rw letter (letter_first c letter, hs)
]

joined_lem : (a b : List Char) → IsSlug a → IsSlug b → joined a b ≡ a ++ slash ∷ b
unfolding joined
joined_lem [] b h k = absurd h
joined_lem (c ∷ a) [] h k = absurd k
joined_lem (c ∷ a) (d ∷ b) h k = refl

module _ (lower : Char → Char) where
  slugify-IsSlug :
      (s : List Char) → any is_alphanumeric (map lower s) ≡ true → IsSlug (slugify lower s)
  unfolding slugify
  slugify-IsSlug s h =
      with_letter-IsSlug _
        (trim_right-All _ (trim_left-All _ (slug_loop-All false false (map lower s)))).0
        (trim_right-any _ (trim_left-any _ (slug_loop-any false false (map lower s) h)))

  classified_lem :
      (s before after : List Char)
      → cut_slash s ≡ some (before, after)
      → classified lower s ≡ joined (slugify lower before) (slugify lower after)
  unfolding classified
  classified_lem s before after found = rw (found, classified) refl

  -- For every text with a slash that has, in lower case, an ASCII letter or digit before the first
  -- slash and one after it: the normalized classification meets the pattern of the schema,
  -- `^[a-z][a-z0-9-]*/[a-z][a-z0-9-]*$`.
  pub normalize_classification-IsClassification :
      (text : String) (before after : List Char)
      → cut_slash (chars text) ≡ some (before, after)
      → any is_alphanumeric (map lower before) ≡ true
      → any is_alphanumeric (map lower after) ≡ true
      → IsClassification (normalize_classification lower text)
  unfolding normalize_classification
  normalize_classification-IsClassification text before after found h k =
      let a = slugify-IsSlug before h in
      let b = slugify-IsSlug after k in
      elim (Bool-cases (str_eq text "")) [
        | inl blank ↦ absurd (not_blank text found ((eq_iff text "").0 blank))
        | inr given ↦ (
          slugify lower before,
          slugify lower after,
          rw (given, classified_lem _ before after found, chars-text_of) (joined_lem _ _ a b),
          a,
          b,
        )
      ]
    where
      not_blank : (u : String) → cut_slash (chars u) ≡ some (before, after) → u ≡ "" → ⊥
      not_blank u e blank = cc (rw blank at e)
