-- ===== src/Gateway/Names.antt =====
-- The helpers of cmd/gateway/server.go and agent_request_handlers.go that make labels, names and
-- classifications from what an agent sends.
pub mod Classes
pub mod Tests
use Prim.Native.Char.{nul}
use aip_k8s.Prelude.{
  ℕ, String, Bool, true, false, not, ◌&&◌, ◌||◌, Option, none, some, List, [], ◌∷◌, ◌++◌, ◌/◌, map,
  leb, ◌==◌, ltb, str_eq, str_append, if◌then◌else◌,
}
use aip_k8s.Prelude.Chars.{Char, code, chars, text_of, hyphen, is_hyphen, cut, trim, hex}
use aip_k8s.Api.Naming.{is_alphanumeric, sanitize_dns_segment}

-- What `invalidLabelChars` leaves.
is_label_char : Char → Bool
is_label_char c =
    (leb b'A' (code c) && leb (code c) b'Z')
    || (leb b'a' (code c) && leb (code c) b'z')
    || (leb b'0' (code c) && leb (code c) b'9')
    || code c == b'-'
    || code c == b'_'
    || code c == b'.'

-- The characters that sanitizeLabelValue trims.
is_mark : Char → Bool
is_mark c = code c == b'-' || code c == b'_' || code c == b'.'

label_char : Char → Char
label_char c = if is_label_char c then c else hyphen

unfoldable pub sanitize_label_value : String → String
unfolding label_char is_label_char is_mark
sanitize_label_value s = text_of (trim is_mark (cut 63 (map label_char (chars s))))

pub slash : Char
slash = "/"

-- strings.Cut(s, "/"): the parts before and after the first slash; `none` where there is none.
pub cut_slash : List Char → Option (List Char × List Char)
cut_slash [] = none
cut_slash (c ∷ s) =
    let rest = cut_slash s in
    if code c == b'/'
    then some ([], s)
    else elim rest [ none ↦ none | some (before, after) ↦ some (c ∷ before, after) ]

-- The loop of slugifyClassificationSegment: the rest of the builder's text, from `lastHyphen` and
-- whether the builder has text.
slug_loop : Bool → Bool → List Char → List Char
slug_loop last_hyphen started [] = []
slug_loop last_hyphen started (c ∷ s) =
    let kept = c ∷ slug_loop false true s in
    let separated = hyphen ∷ slug_loop true started s in
    let skipped = slug_loop last_hyphen started s in
    if is_alphanumeric c then kept else (if not last_hyphen && started then separated else skipped)

-- `out`, with a leading letter
with_letter : List Char → List Char
with_letter [] = []
with_letter (c ∷ s) = if ltb (code c) b'a' || ltb b'z' (code c) then "x" ∷ hyphen ∷ c ∷ s else c ∷ s

joined : List Char → List Char → List Char
joined [] sub = sub
joined (c ∷ cat) [] = c ∷ cat
joined (c ∷ cat) (d ∷ sub) = (c ∷ cat) ++ slash ∷ d ∷ sub

module _ (lower : Char → Char) where
  slugify : List Char → List Char
  slugify s = with_letter (trim is_hyphen (slug_loop false false (map lower s)))

  classified : List Char → List Char
  classified s = elim (cut_slash s) [
    | none ↦ slugify s
    | some (category, sub) ↦ joined (slugify category) (slugify sub)
  ]

  unfoldable pub normalize_classification : String → String
  unfolding classified slugify joined with_letter slug_loop cut_slash slash
  normalize_classification s = if str_eq s "" then "" else text_of (classified (chars s))

-- The bytes that the hash of computeDedupKey is fed.
dedup_input : String → String → String → String → String
dedup_input agent action uri classification =
    let end = String.◌∷◌ nul "" in
    str_append agent (
      str_append end (
        str_append action
          (str_append end (str_append uri (str_append end (str_append classification end))))))

module _ (sum : String → List ℕ) where
  pub compute_dedup_key : String → String → String → String → String → String
  compute_dedup_key agent action uri classification explicit =
      if not (str_eq explicit "")
      then explicit
      else text_of (hex (sum (dedup_input agent action uri classification)))

  -- `format_int` is strconv.FormatInt in base 10. The window and the time are in nanoseconds.
  pub deterministic_request_name : (Char → Char) → (ℕ → String) → String → String → ℕ → ℕ → String
  deterministic_request_name lower format_int agent key window now =
      let input = str_append key (String.◌∷◌ nul (format_int (now / window))) in
      text_of (sanitize_dns_segment lower agent 54 ++ hyphen ∷ cut 8 (hex (sum input)))
