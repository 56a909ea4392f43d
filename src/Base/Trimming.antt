-- ===== src/Base/Trimming.antt =====
-- Trimming twice is trimming once.
use Prim.Native.Char.{Char, code}
use Prim.Native.String.{String}
use mathlib.Core.Path.{◌≡◌, refl, ap, ◌∙◌}
use mathlib.Core.Logic.{inl, inr}
use mathlib.Core.Bool.{false}
use fluxseer_rca.Base.Tests.{Bool-cases}
use fluxseer_rca.Base.Text.{is_space, trim_left, trim_right, cons_trimmed, trim_space}

StartsDense : String → Type 0
StartsDense String.[] = Unit
StartsDense (String.◌∷◌ c s) = is_space (code c) ≡ false

trim_left_dense : (s : String) → StartsDense (trim_left s)
unfolding trim_left StartsDense
trim_left_dense String.[] = tt
trim_left_dense (String.◌∷◌ c s) = elim (Bool-cases (is_space (code c))) [
  | inl e ↦ rw e (trim_left_dense s)
  | inr e ↦ rw e e
]

trim_left_fixed : (s : String) → StartsDense s → trim_left s ≡ s
unfolding trim_left StartsDense
trim_left_fixed String.[] h = refl
trim_left_fixed (String.◌∷◌ c s) h = rw h refl

cons_trimmed_dense :
    (c : Char) (s : String) → is_space (code c) ≡ false → StartsDense (cons_trimmed c s)
unfolding cons_trimmed StartsDense
cons_trimmed_dense c String.[] h = rw h h
cons_trimmed_dense c (String.◌∷◌ d s) h = h

trim_right_dense : (s : String) → StartsDense s → StartsDense (trim_right s)
unfolding trim_right StartsDense
trim_right_dense String.[] h = tt
trim_right_dense (String.◌∷◌ c s) h = cons_trimmed_dense c (trim_right s) h

trim_right_cons :
    (c : Char) (r : String) → trim_right r ≡ r → trim_right (cons_trimmed c r) ≡ cons_trimmed c r
unfolding trim_right cons_trimmed
trim_right_cons c String.[] h = elim (Bool-cases (is_space (code c))) [
  | inl e ↦ rw e refl
  | inr e ↦ rw (e, e) refl
]
trim_right_cons c (String.◌∷◌ d r) h = ap (cons_trimmed c) h

trim_right_idem : (s : String) → trim_right (trim_right s) ≡ trim_right s
unfolding trim_right
trim_right_idem String.[] = refl
trim_right_idem (String.◌∷◌ c s) = trim_right_cons c (trim_right s) (trim_right_idem s)

pub trim_space_idem : (s : String) → trim_space (trim_space s) ≡ trim_space s
unfolding trim_space
trim_space_idem s =
    ap trim_right (trim_left_fixed _ (trim_right_dense (trim_left s) (trim_left_dense s)))
    ∙ trim_right_idem (trim_left s)
