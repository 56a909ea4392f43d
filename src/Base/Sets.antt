-- ===== src/Base/Sets.antt =====
-- Sets of texts, as sorted lists.
use Prim.Native.String.{String}
use mathlib.Core.Path.{◌≡◌, refl, subst}
use mathlib.Core.Bool.{Bool, true, false, ◌||◌}
use mathlib.Core.Logic.{inl, inr}
use mathlib.Core.List.{List, [], ◌∷◌}
use text.Mathlib.Text.{◌==◌}
use fluxseer_rca.Base.Tests.{if◌then◌else◌, Bool-cases, str_eq→eq}
use fluxseer_rca.Base.Sort.{insert, sort_stable, ascending_text}

-- A set of texts, as the sorted list of its members.
abbrev pub has_text : String → List String → Bool
has_text t [] = false
has_text t (s ∷ ss) = s == t || has_text t ss

-- Each text once, where it stands last.
unfoldable pub distinct : List String → List String
distinct [] = []
distinct (s ∷ ss) = let rest = distinct ss in if has_text s ss then rest else s ∷ rest

unfoldable pub sorted_set : List String → List String
unfolding distinct sort_stable
sorted_set ss = sort_stable (ascending_text (λ s. s)) (distinct ss)

pub or_swap : (a b c : Bool) → (a || (b || c)) ≡ (b || (a || c))
or_swap true true c = refl
or_swap true false c = refl
or_swap false b c = refl

has_text-insert :
    (less : String → String → Bool) (t x : String) (ss : List String)
    → has_text t (insert less x ss) ≡ has_text t (x ∷ ss)
unfolding insert
has_text-insert less t x [] = refl
has_text-insert less t x (y ∷ ys) = elim (Bool-cases (less y x)) [
  | inl e ↦ rw (e, has_text-insert less t x ys) (or_swap (y == t) (x == t) (has_text t ys))
  | inr e ↦ rw e refl
]

has_text-sort_stable :
    (less : String → String → Bool) (t : String) (ss : List String)
    → has_text t (sort_stable less ss) ≡ has_text t ss
unfolding sort_stable
has_text-sort_stable less t [] = refl
has_text-sort_stable less t (s ∷ ss) =
    rw (has_text-insert less t s (sort_stable less ss), has_text-sort_stable less t ss) refl

absorbed : (b c : Bool) → (b ≡ true → c ≡ true) → c ≡ (b || c)
absorbed true c h = h refl
absorbed false c h = refl

has_text-distinct : (t : String) (ss : List String) → has_text t (distinct ss) ≡ has_text t ss
unfolding distinct
has_text-distinct t [] = refl
has_text-distinct t (s ∷ ss) = elim (Bool-cases (has_text s ss)) [
  | inl e ↦
      rw (e, has_text-distinct t ss)
        (absorbed (s == t) (has_text t ss)
          (λ h. subst (λ u. has_text u ss ≡ true) (str_eq→eq s t h) e))
  | inr e ↦ rw (e, has_text-distinct t ss) refl
]

-- A text is in the sorted set where it is in the list.
pub has_text-sorted_set :
    (t : String) (ss : List String) → has_text t (sorted_set ss) ≡ has_text t ss
unfolding sorted_set
has_text-sorted_set t ss =
    rw (has_text-sort_stable (ascending_text (λ s. s)) t (distinct ss), has_text-distinct t ss) refl
