-- ===== src/Gateway/Names/Tests.antt =====
-- Labels and classifications of sample texts.
use aip_k8s.Prelude.{◌≡◌, refl, ◌==◌, if◌then◌else◌}
use aip_k8s.Prelude.Chars.{Char, code, chars, trim_left, trim_right, kept_before, cut}
use aip_k8s.Gateway.Names.{sanitize_label_value, cut_slash, normalize_classification}
use aip_k8s.Gateway.Names.Classes.{IsClassification, normalize_classification-IsClassification}
use aip_k8s.Api.Naming.{is_alphanumeric}

abbrev sample_lower : Char → Char
sample_lower c = if code c == 65 then "a" else c

label_trimmed : sanitize_label_value "_a b." ≡ "a-b"
unfolding sanitize_label_value trim_left trim_right kept_before cut
label_trimmed = refl

slashes_collapsed : normalize_classification sample_lower "A b/c/d" ≡ "a-b/c-d"
unfolding normalize_classification trim_left trim_right kept_before is_alphanumeric
slashes_collapsed = refl

-- A value that the schema admits, and that is changed.
valid_changed : normalize_classification sample_lower "a--b/c-" ≡ "a-b/c"
unfolding normalize_classification trim_left trim_right kept_before is_alphanumeric
valid_changed = refl

digit_prefixed : normalize_classification sample_lower "9/b" ≡ "x-9/b"
unfolding normalize_classification trim_left trim_right kept_before is_alphanumeric
digit_prefixed = refl

normalize_classification-IsClassification_example :
    IsClassification (normalize_classification sample_lower "a-c/b d/e")
normalize_classification-IsClassification_example =
    normalize_classification-IsClassification sample_lower "a-c/b d/e" (chars "a-c") (chars "b d/e")
      (unfold cut_slash in refl) (unfold is_alphanumeric in refl) (unfold is_alphanumeric in refl)
