-- ===== src/Base/Search.antt =====
-- Texts: joining, and what a text contains.
use Prim.Native.Char.{code}
use Prim.Native.String.{String}
use mathlib.Core.Path.{◌≡◌, refl}
use text.Mathlib.Text.{◌==◌}
use mathlib.Core.Bool.{Bool, true, false, ◌&&◌, ◌||◌}
use mathlib.Core.List.{List, [], ◌∷◌}
use fluxseer_rca.Base.Tests.{eqb, if◌then◌else◌}
use fluxseer_rca.Base.Text.{◌+++◌}

-- `strings.Join`.
unfoldable pub join : String → List String → String
join separator [] = ""
join separator (s ∷ []) = s
join separator (s ∷ t ∷ rest) = s +++ separator +++ join separator (t ∷ rest)

-- `strings.HasPrefix` and `strings.Contains`.
unfoldable pub has_prefix : String → String → Bool
has_prefix s String.[] = true
has_prefix String.[] (String.◌∷◌ d t) = false
has_prefix (String.◌∷◌ c s) (String.◌∷◌ d t) = eqb (code c) (code d) && has_prefix s t

unfoldable pub has_part : String → String → Bool
unfolding has_prefix
has_part String.[] t = has_prefix String.[] t
has_part (String.◌∷◌ c s) t = has_prefix (String.◌∷◌ c s) t || has_part s t

unfoldable pub has_any_part : String → List String → Bool
unfolding has_part
has_any_part s [] = false
has_any_part s (t ∷ ts) = has_part s t || has_any_part s ts

has_part_test : has_any_part "request failed token=x" ("password=" ∷ "token=" ∷ []) ≡ true
unfolding has_any_part
has_part_test = refl

-- `strings.TrimSuffix`.
unfoldable pub trim_suffix : String → String → String
trim_suffix String.[] suffix = String.[]
trim_suffix (String.◌∷◌ c s) suffix =
    let rest = trim_suffix s suffix in
    if String.◌∷◌ c s == suffix then String.[] else String.◌∷◌ c rest

trim_suffix_test : trim_suffix "metricobservation" "observation" ≡ "metric"
unfolding trim_suffix
trim_suffix_test = refl
