-- ===== src/Prelude/Chars.antt =====
-- The characters of a string, and what Go programs take from the packages strings and hex. An invalid
-- byte of a string counts as U+FFFD.
pub use Prim.Native.Char.{Char, code}
use Prim.Native.String.{String}
use Prim.Native.Nat.{ℕ, zero, suc, ◌/◌, ◌%◌, ◌≤◌}
use mathlib.Core.Path.{◌≡◌, refl, ap}
use mathlib.Core.Bool.{Bool, true, ◌&&◌}
use mathlib.Core.Logic.{inl, inr}
use mathlib.Core.List.{List, [], ◌∷◌}
use native.Mathlib.Omega.{arith}
use aip_k8s.Prelude.Tests.{◌==◌, if◌then◌else◌, Bool-cases}
use aip_k8s.Prelude.Lists.{length}

abbrev pub chars : String → List Char
chars String.[] = []
chars (String.◌∷◌ c s) = c ∷ chars s

abbrev pub text_of : List Char → String
text_of [] = ""
text_of (c ∷ s) = String.◌∷◌ c (text_of s)

pub chars-text_of : (s : List Char) → chars (text_of s) ≡ s
chars-text_of [] = refl
chars-text_of (c ∷ s) = ap (λ (t : List Char). c ∷ t) (chars-text_of s)

abbrev pub hyphen : Char
hyphen = "-"

abbrev pub is_hyphen : Char → Bool
is_hyphen c = code c == b'-'

abbrev pub All : (Char → Bool) → List Char → Type 0
All p [] = Unit
All p (c ∷ s) = (p c ≡ true) × All p s

abbrev pub all : (Char → Bool) → List Char → Bool
all p [] = true
all p (c ∷ s) = p c && all p s

pub all-All : (p : Char → Bool) (s : List Char) → all p s ≡ true → All p s
all-All p [] h = tt
all-All p (c ∷ s) h = elim (Bool-cases (p c)) [
  | inl kept ↦ (kept, all-All p s (rw kept at h))
  | inr dropped ↦ absurd (cc (rw dropped at h))
]

-- `s[:n]` of a string that is longer
unfoldable pub cut : {A : Type 0} → ℕ → List A → List A
cut zero s = []
cut (suc n) [] = []
cut (suc n) (c ∷ s) = c ∷ cut n s

-- strings.Trim, with the characters that are cut off as a test
module _ (dropped : Char → Bool) where
  unfoldable pub trim_left : List Char → List Char
  trim_left [] = []
  trim_left (c ∷ s) = let rest = trim_left s in if dropped c then rest else c ∷ s

  unfoldable pub kept_before : Char → List Char → List Char
  kept_before c [] = if dropped c then [] else c ∷ []
  kept_before c (d ∷ s) = c ∷ d ∷ s

  unfoldable pub trim_right : List Char → List Char
  trim_right [] = []
  trim_right (c ∷ s) = kept_before c (trim_right s)

  abbrev pub trim : List Char → List Char
  trim s = trim_right (trim_left s)

pub length-cut : {A : Type 0} (n : ℕ) (s : List A) → length (cut n s) ≤ n
unfolding cut
length-cut zero s = omega arith
length-cut (suc n) [] = omega arith
length-cut (suc n) (c ∷ s) = omega (arith, length-cut n s)

pub cut-All : (p : Char → Bool) (n : ℕ) (s : List Char) → All p s → All p (cut n s)
unfolding cut
cut-All p zero s h = tt
cut-All p (suc n) [] h = tt
cut-All p (suc n) (c ∷ s) (h, hs) = (h, cut-All p n s hs)

char_at : List Char → ℕ → Char
char_at [] n = "0"
char_at (c ∷ s) zero = c
char_at (c ∷ s) (suc n) = char_at s n

hex_digit : ℕ → Char
unfolding char_at
hex_digit = char_at (chars "0123456789abcdef")

-- hex.EncodeToString, and the format %x
unfoldable pub hex : List ℕ → List Char
unfolding hex_digit
hex [] = []
hex (b ∷ bytes) = hex_digit (b / 16) ∷ hex_digit (b % 16) ∷ hex bytes

char_at-All :
    (p : Char → Bool) (s : List Char) (n : ℕ) → p "0" ≡ true → All p s → p (char_at s n) ≡ true
unfolding char_at
char_at-All p [] n z h = z
char_at-All p (c ∷ s) zero z (h, hs) = h
char_at-All p (c ∷ s) (suc n) z (h, hs) = char_at-All p s n z hs

-- Hexadecimal text has a property that its digits have.
pub hex-All :
    (p : Char → Bool) (bytes : List ℕ) → All p (chars "0123456789abcdef") → All p (hex bytes)
unfolding hex
hex-All p [] h = tt
hex-All p (b ∷ bytes) h = (
  char_at-All p (chars "0123456789abcdef") (b / 16) h.0 h,
  (char_at-All p (chars "0123456789abcdef") (b % 16) h.0 h, hex-All p bytes h),
)
