-- ===== src/Api/Naming/Tests.antt =====
-- Names of agents, with functions in the place of unicode.ToLower and SHA-256.
use aip_k8s.Prelude.{ℕ, String, List, [], ◌∷◌, ◌≡◌, refl, ◌==◌, if◌then◌else◌}
use aip_k8s.Prelude.Chars.{Char, code, chars, trim_left, trim_right, kept_before, cut, hex}
use aip_k8s.Api.Naming.{registration_object_name, profile_name_for_agent}
use aip_k8s.Api.Naming.Labels.{IsLabel, names-IsLabel}

abbrev sample_lower : Char → Char
sample_lower c = if code c == 65 then "a" else c

abbrev digest : String → List ℕ
digest s =
    0 ∷ 255 ∷ 16 ∷ 171 ∷ 4 ∷ 5 ∷ 6 ∷ 7 ∷ 8 ∷ 9 ∷ 10 ∷ 11 ∷ 12 ∷ 13 ∷ 14 ∷ 15 ∷ 16 ∷ 17 ∷ 18 ∷ 19
    ∷ 20 ∷ 21 ∷ 22 ∷ 23 ∷ 24 ∷ 25 ∷ 26 ∷ 27 ∷ 28 ∷ 29 ∷ 30 ∷ 31 ∷ []

profile_name-dots : profile_name_for_agent sample_lower digest "-A.b" ≡ "a-b-00ff10ab"
unfolding profile_name_for_agent trim_left trim_right kept_before cut hex
profile_name-dots = refl

names-IsLabel_example :
    IsLabel (chars (registration_object_name sample_lower digest "-A.b"))
    × IsLabel (chars (profile_name_for_agent sample_lower digest "-A.b"))
names-IsLabel_example = names-IsLabel sample_lower digest "-A.b" refl
