-- ===== src/Api/Naming.antt =====
-- api/v1alpha1/naming.go: the names of the objects that belong to an agent.
pub mod Labels
mod Tests
use aip_k8s.Prelude.{ℕ, String, Bool, ◌&&◌, ◌||◌, List, [], ◌∷◌, ◌++◌, map, leb, if◌then◌else◌}
use aip_k8s.Prelude.Chars.{Char, code, chars, text_of, hyphen, is_hyphen, cut, trim, hex}

unfoldable pub is_alphanumeric : Char → Bool
is_alphanumeric c =
    (leb b'a' (code c) && leb (code c) b'z') || (leb b'0' (code c) && leb (code c) b'9')

-- What `invalidDNSChars` leaves.
pub is_dns : Char → Bool
is_dns c = is_alphanumeric c || is_hyphen c

replaced : Char → Char
replaced c = if is_dns c then c else hyphen

or_default : List Char → List Char → List Char
or_default default [] = default
or_default default (c ∷ s) = c ∷ s

module _ (lower : Char → Char) where
  -- `lower` is unicode.ToLower, which strings.ToLower applies to each character.
  unfoldable pub sanitize_dns_segment : String → ℕ → List Char
  unfolding replaced is_dns is_alphanumeric
  sanitize_dns_segment s max_len = trim is_hyphen (cut max_len (map replaced (map lower (chars s))))

  -- `sum` is sha256.Sum256.
  module _ (sum : String → List ℕ) where
    unfoldable pub registration_object_name : String → String
    unfolding sanitize_dns_segment or_default
    registration_object_name agent = text_of (
        or_default (chars "reg") (sanitize_dns_segment agent 54)
        ++ hyphen ∷ cut 8 (hex (sum agent)))

    unfoldable pub profile_name_for_agent : String → String
    unfolding sanitize_dns_segment or_default
    profile_name_for_agent agent = text_of (
        or_default (chars "agent") (sanitize_dns_segment agent 54)
        ++ hyphen ∷ hex (cut 4 (sum agent)))
