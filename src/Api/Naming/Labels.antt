-- ===== src/Api/Naming/Labels.antt =====
-- The names of api/v1alpha1/naming.go are DNS labels.
use aip_k8s.Prelude.{
  ℕ, String, Bool, true, false, ◌&&◌, ◌≤◌, ◌<◌, suc, List, [], ◌∷◌, ◌++◌, map, length,
  length-append, ◌≡◌, refl, arith, Bool-cases, inl, inr,
}
use aip_k8s.Prelude.Chars.{
  Char, chars, chars-text_of, hyphen, is_hyphen, All, all-All, cut, trim_left, kept_before,
  trim_right, length-cut, cut-All, hex, hex-All,
}
use aip_k8s.Api.Naming.{
  is_alphanumeric, is_dns, replaced, or_default, sanitize_dns_segment, registration_object_name,
  profile_name_for_agent,
}

-- `[a-z0-9]([-a-z0-9]*[a-z0-9])?`, at most 63 characters.
abbrev pub ends_well : List Char → Bool
ends_well [] = false
ends_well (c ∷ []) = is_alphanumeric c
ends_well (c ∷ d ∷ s) = is_dns c && ends_well (d ∷ s)

abbrev pub starts_well : List Char → Bool
starts_well [] = false
starts_well (c ∷ s) = is_alphanumeric c

abbrev pub IsLabel : List Char → Type 0
IsLabel s = (starts_well s ≡ true) × (ends_well s ≡ true) × (length s ≤ 63)

-- sha256.Sum256 answers with 32 bytes.
abbrev pub IsDigest : List ℕ → Type 0
IsDigest d = length d ≡ 32

pub hyphen-is_dns : is_dns hyphen ≡ true
unfolding is_dns is_alphanumeric
hyphen-is_dns = refl

replaced-is_dns : (c : Char) → is_dns (replaced c) ≡ true
unfolding replaced
replaced-is_dns c = elim (Bool-cases (is_dns c)) [
  | inl kept ↦ rw kept kept
  | inr other ↦ rw other hyphen-is_dns
]

map-All : (s : List Char) → All is_dns (map replaced s)
map-All [] = tt
map-All (c ∷ s) = (replaced-is_dns c, map-All s)

-- A trimmed segment is empty, or starts with a letter or digit; it may be shorter.
abbrev IsSegment : ℕ → List Char → Type 0
IsSegment n [] = Unit
IsSegment n (c ∷ s) = (is_alphanumeric c ≡ true) × All is_dns s × (suc (length s) ≤ n)

no_hyphen : (c : Char) → is_dns c ≡ true → is_hyphen c ≡ false → is_alphanumeric c ≡ true
unfolding is_dns
no_hyphen c h k = ground arith

trim_left-IsSegment :
    (n : ℕ) (s : List Char) → All is_dns s → length s ≤ n → IsSegment n (trim_left is_hyphen s)
unfolding trim_left
trim_left-IsSegment n [] h k = tt
trim_left-IsSegment n (c ∷ s) (h, hs) k = elim (Bool-cases (is_hyphen c)) [
  | inl dropped ↦ rw dropped (trim_left-IsSegment n s hs (omega (arith, k)))
  | inr other ↦ rw other (no_hyphen c h other, hs, k)
]

kept_before-All :
    (c : Char) (n : ℕ) (r : List Char)
    → is_dns c ≡ true
    → All is_dns r × (length r ≤ n)
    → All is_dns (kept_before is_hyphen c r) × (length (kept_before is_hyphen c r) ≤ suc n)
unfolding kept_before
kept_before-All c n [] h (hr, k) = elim (Bool-cases (is_hyphen c)) [
  | inl dropped ↦ rw dropped (tt, omega arith)
  | inr other ↦ rw other ((h, tt), omega arith)
]
kept_before-All c n (d ∷ r) h (hr, k) = ((h, hr), omega (arith, k))

pub trim_right-All :
    (s : List Char)
    → All is_dns s
    → All is_dns (trim_right is_hyphen s) × (length (trim_right is_hyphen s) ≤ length s)
unfolding trim_right
trim_right-All [] h = (tt, omega arith)
trim_right-All (c ∷ s) (h, hs) =
    kept_before-All c (length s) (trim_right is_hyphen s) h (trim_right-All s hs)

pub alphanumeric-kept : (c : Char) → is_alphanumeric c ≡ true → is_hyphen c ≡ false
unfolding is_alphanumeric
alphanumeric-kept c h = ground (arith, h)

kept_before-IsSegment :
    (c : Char) (n : ℕ) (r : List Char)
    → is_alphanumeric c ≡ true
    → All is_dns r × (suc (length r) ≤ n)
    → IsSegment n (kept_before is_hyphen c r)
unfolding kept_before
kept_before-IsSegment c n [] h (hr, k) = rw (alphanumeric-kept c h) (h, tt, k)
kept_before-IsSegment c n (d ∷ r) h (hr, k) = (h, hr, k)

trim_right-IsSegment :
    (n : ℕ) (s : List Char) → IsSegment n s → IsSegment n (trim_right is_hyphen s)
unfolding trim_right
trim_right-IsSegment n [] h = tt
trim_right-IsSegment n (c ∷ s) (h, hs, k) =
    let rest = trim_right-All s hs in
    kept_before-IsSegment c n (trim_right is_hyphen s) h (rest.0, omega (arith, k, rest.1))

pub alphanumeric-is_dns : (c : Char) → is_alphanumeric c ≡ true → is_dns c ≡ true
unfolding is_dns
alphanumeric-is_dns c h = rw h refl

suffix-ends_well :
    (c : Char) (s : List Char) → All is_alphanumeric (c ∷ s) → ends_well (c ∷ s) ≡ true
suffix-ends_well c [] (h, _) = h
suffix-ends_well c (d ∷ s) (h, hs) = rw (alphanumeric-is_dns c h) (suffix-ends_well d s hs)

ends_well-append :
    (p : List Char) (c : Char) (s : List Char)
    → All is_dns p
    → ends_well (c ∷ s) ≡ true
    → ends_well (p ++ c ∷ s) ≡ true
ends_well-append [] c s h k = k
ends_well-append (a ∷ []) c s (h, _) k = rw h k
ends_well-append (a ∷ b ∷ p) c s (h, hs) k = rw h (ends_well-append (b ∷ p) c s hs k)

hyphen-ends_well :
    (s : List Char) → All is_alphanumeric s → length s ≡ 8 → ends_well (hyphen ∷ s) ≡ true
hyphen-ends_well [] h k = absurd (omega (arith, k))
hyphen-ends_well (c ∷ s) h k = rw hyphen-is_dns (suffix-ends_well c s h)

label :
    (p suffix : List Char)
    → IsSegment 54 p
    → (0 < length p)
    → All is_alphanumeric suffix
    → length suffix ≡ 8
    → IsLabel (p ++ hyphen ∷ suffix)
label [] suffix h k l m = absurd (omega (arith, k))
label (c ∷ p) suffix (h, hs, n) k l m = (
  h,
  ends_well-append (c ∷ p) hyphen suffix (alphanumeric-is_dns c h, hs)
      (hyphen-ends_well suffix l m),
  omega (arith, n, m, length-append p (hyphen ∷ suffix)),
)

cut-hex : (d : List ℕ) → length d ≡ 32 → (length (cut 8 (hex d)) ≡ 8) × (length (hex (cut 4 d)) ≡ 8)
unfolding cut hex
cut-hex (a ∷ b ∷ c ∷ e ∷ d) h = (refl, refl)
cut-hex (a ∷ b ∷ c ∷ []) h = absurd (omega (arith, h))
cut-hex (a ∷ b ∷ []) h = absurd (omega (arith, h))
cut-hex (a ∷ []) h = absurd (omega (arith, h))
cut-hex [] h = absurd (omega (arith, h))

or_default-IsSegment :
    (c : Char) (default s : List Char)
    → IsSegment 54 (c ∷ default)
    → IsSegment 54 s
    → IsSegment 54 (or_default (c ∷ default) s) × (0 < length (or_default (c ∷ default) s))
unfolding or_default
or_default-IsSegment c default [] h k = (h, omega arith)
or_default-IsSegment c default (d ∷ s) h k = (k, omega arith)

module _ (lower : Char → Char) where
  sanitize-IsSegment : (s : String) (n : ℕ) → IsSegment n (sanitize_dns_segment lower s n)
  unfolding sanitize_dns_segment
  sanitize-IsSegment s n = trim_right-IsSegment n _ (
      trim_left-IsSegment n _ (cut-All is_dns n _ (map-All (map lower (chars s))))
        (length-cut n (map replaced (map lower (chars s)))))

  digits-All : All is_alphanumeric (chars "0123456789abcdef")
  unfolding is_alphanumeric
  digits-All = all-All is_alphanumeric (chars "0123456789abcdef") refl

  module _ (sum : String → List ℕ) where
    -- For every agent identity, whatever unicode.ToLower answers, and where SHA-256 answers with 32
    -- bytes: the name of its registration and the name of its profile are DNS labels, which have at
    -- most 63 characters, all of them lower-case letters, digits or hyphens, and no hyphen at either
    -- end.
    pub names-IsLabel :
        (agent : String)
        → IsDigest (sum agent)
        → IsLabel (chars (registration_object_name lower sum agent))
          × IsLabel (chars (profile_name_for_agent lower sum agent))
    unfolding registration_object_name profile_name_for_agent is_alphanumeric is_dns
    names-IsLabel agent h =
        let slug = sanitize-IsSegment agent 54 in
        let reg =
          or_default-IsSegment "r" (chars "eg") _
            (refl, all-All is_dns (chars "eg") refl, omega arith) slug in
        let profile =
          or_default-IsSegment "a" (chars "gent") _
            (refl, all-All is_dns (chars "gent") refl, omega arith) slug in
        let eight = cut-hex (sum agent) h in
        (
          rw
              (chars-text_of (
                or_default (chars "reg") (sanitize_dns_segment lower agent 54)
                ++ hyphen ∷ cut 8 (hex (sum agent))))
              (label _ _ reg.0 reg.1
                (cut-All is_alphanumeric 8 _ (hex-All is_alphanumeric (sum agent) digits-All))
                eight.0),
          rw
              (chars-text_of (
                or_default (chars "agent") (sanitize_dns_segment lower agent 54)
                ++ hyphen ∷ hex (cut 4 (sum agent))))
              (label _ _ profile.0 profile.1
                (hex-All is_alphanumeric (cut 4 (sum agent)) digits-All) eight.1),
        )
