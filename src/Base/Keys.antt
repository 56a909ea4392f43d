-- ===== src/Base/Keys.antt =====
-- Lists whose elements have different keys, and sorting.
use Prim.Native.String.{String}
use mathlib.Core.Path.{◌≡◌, refl, sym, ap, ◌∙◌}
use mathlib.Core.Bool.{Bool, true, false, ◌||◌}
use mathlib.Core.Logic.{inl, inr}
use mathlib.Core.List.{List, [], ◌∷◌, map}
use text.Mathlib.Text.{◌==◌}
use fluxseer_rca.Base.Tests.{Bool-cases, str_eq→eq, eq→str_eq}
use fluxseer_rca.Base.Sort.{insert, sort_stable}
use fluxseer_rca.Base.Sets.{has_text, or_swap}

-- No text occurs twice.
abbrev pub IsDistinct : List String → Type 0
IsDistinct [] = Unit
IsDistinct (s ∷ ss) = (has_text s ss ≡ false) × IsDistinct ss

eq_swap : (s t : String) → (s == t) ≡ (t == s)
eq_swap s t = elim (Bool-cases (s == t)) [
  | inl e ↦ e ∙ sym (eq→str_eq t s (sym (str_eq→eq s t e)))
  | inr e ↦ elim (Bool-cases (t == s)) [
    | inl k ↦ eq→str_eq s t (sym (str_eq→eq t s k)) ∙ sym k
    | inr k ↦ e ∙ sym k
  ]
]

or_false_left : (a b : Bool) → (a || b) ≡ false → a ≡ false
or_false_left true b h = cc
or_false_left false b h = refl

or_false_right : (a b : Bool) → (a || b) ≡ false → b ≡ false
or_false_right true b h = cc
or_false_right false b h = h

both_false : (a b : Bool) → a ≡ false → b ≡ false → (a || b) ≡ false
both_false a b h k = rw (h, k) refl

module _ {A : Type 0} (key : A → String) (less : A → A → Bool) where
  has_key-insert :
      (t : String) (x : A) (xs : List A)
      → has_text t (map key (insert less x xs)) ≡ has_text t (map key (x ∷ xs))
  unfolding insert
  has_key-insert t x [] = refl
  has_key-insert t x (y ∷ ys) = elim (Bool-cases (less y x)) [
    | inl e ↦
        rw (e, has_key-insert t x ys) (or_swap (key y == t) (key x == t) (has_text t (map key ys)))
    | inr e ↦ rw e refl
  ]

  -- Sorting keeps the keys.
  pub has_key-sort_stable :
      (t : String) (xs : List A)
      → has_text t (map key (sort_stable less xs)) ≡ has_text t (map key xs)
  unfolding sort_stable
  has_key-sort_stable t [] = refl
  has_key-sort_stable t (x ∷ xs) =
      has_key-insert t x (sort_stable less xs)
      ∙ ap (λ b. key x == t || b) (has_key-sort_stable t xs)

  insert-IsDistinct :
      (x : A) (xs : List A)
      → has_text (key x) (map key xs) ≡ false
      → IsDistinct (map key xs)
      → IsDistinct (map key (insert less x xs))
  unfolding insert
  insert-IsDistinct x [] h d = (refl, tt)
  insert-IsDistinct x (y ∷ ys) h d = elim (Bool-cases (less y x)) [
    | inl e ↦ rw e (
      has_key-insert (key y) x ys
          ∙ both_false _ _ (eq_swap (key x) (key y) ∙ or_false_left _ _ h) d.0,
      insert-IsDistinct x ys (or_false_right (key y == key x) _ h) d.1,
    )
    | inr e ↦ rw e (h, d)
  ]

  -- Sorting keeps the keys different.
  pub sort_stable-IsDistinct :
      (xs : List A) → IsDistinct (map key xs) → IsDistinct (map key (sort_stable less xs))
  unfolding sort_stable
  sort_stable-IsDistinct [] d = tt
  sort_stable-IsDistinct (x ∷ xs) d =
      insert-IsDistinct x (sort_stable less xs) (has_key-sort_stable (key x) xs ∙ d.0)
        (sort_stable-IsDistinct xs d.1)
