-- ===== src/Base/Sort.antt =====
-- `sort.SliceStable`, and what its first element is.
use Prim.Native.String.{String}
use mathlib.Core.Path.{◌≡◌, refl, subst}
use mathlib.Core.Bool.{Bool, true, false, not}
use mathlib.Core.Logic.{inl, inr}
use mathlib.Core.Option.{Option, none, some}
use mathlib.Core.List.{List, [], ◌∷◌, Perm, Memᴰ}
use mathlib.Core.List.Perm
use native.Mathlib.Omega.{arith}
use fluxseer_rca.Base.Tests.{if◌then◌else◌, Bool-cases}
use Prim.Native.Nat.{suc}
use fluxseer_rca.Base.Lists.{All, first, length}
use fluxseer_rca.Base.Int.{ℤ, ltb_ℤ, eqb_ℤ}
use fluxseer_rca.Base.Text.{str_lt, str_lt_asymm, str_lt_not_trans}

-- What a comparison needs to be sorted by: `before` is asymmetric, and "not before" is transitive.
pub record IsRanking {ℓ} {A : Type ℓ} (before : A → A → Bool) : Type ℓ where
  pub asymm : (a b : A) → before a b ≡ true → before b a ≡ false
  pub not_trans : (a b c : A) → before b a ≡ false → before c b ≡ false → before c a ≡ false

module _ {ℓ} {A : Type ℓ} (less : A → A → Bool) where
  -- The new element came before those in the list, so it stands before its equals.
  unfoldable pub insert : A → List A → List A
  insert x [] = x ∷ []
  insert x (y ∷ ys) = if less y x then y ∷ insert x ys else x ∷ y ∷ ys

  unfoldable pub sort_stable : List A → List A
  unfolding insert
  sort_stable [] = []
  sort_stable (x ∷ xs) = insert x (sort_stable xs)

  insert-perm : (x : A) (xs : List A) → Perm (insert x xs) (x ∷ xs)
  unfolding insert
  insert-perm x [] = Perm.refl _
  insert-perm x (y ∷ ys) = elim (Bool-cases (less y x)) [
    | inl e ↦ rw e (Perm.trans (Perm.cons y (insert-perm x ys)) (Perm.swap x y ys))
    | inr e ↦ rw e (Perm.refl _)
  ]

  pub sort_stable-perm : (xs : List A) → Perm (sort_stable xs) xs
  unfolding sort_stable
  sort_stable-perm [] = Perm.refl _
  sort_stable-perm (x ∷ xs) =
      Perm.trans (insert-perm x (sort_stable xs)) (Perm.cons x (sort_stable-perm xs))

  abbrev NotBefore : A → List A → Type 0
  NotBefore a = All (λ b. less b a ≡ false)

  NotBefore-trans :
      IsRanking less → (a b : A) (xs : List A) → less b a ≡ false → NotBefore b xs → NotBefore a xs
  NotBefore-trans r a b [] h hs = tt
  NotBefore-trans r a b (x ∷ xs) h hs = (r.not_trans a b x h hs.0, NotBefore-trans r a b xs h hs.1)

  less_irrefl : IsRanking less → (a : A) → less a a ≡ false
  less_irrefl r a = ground (arith, r.asymm a a)

  -- The head of a list into which `x` is inserted, by the list's own head.
  abbrev better : A → Option A → A
  better x none = x
  better x (some y) = if less y x then y else x

  better_old : (x y : A) → less y x ≡ true → y ≡ better x (some y)
  better_old x y e = rw e

  better_new : (x y : A) → less y x ≡ false → x ≡ better x (some y)
  better_new x y e = rw e

  insert-first : (x : A) (ys : List A) → first (insert x ys) ≡ some (better x (first ys))
  unfolding insert
  insert-first x [] = refl
  insert-first x (y ∷ ys) = ground arith

  -- `none` comes of the empty list alone; else the element is in the list, and none stands before it.
  abbrev IsFirst : List A → Option A → Type ℓ
  IsFirst xs none = xs ≡ []
  IsFirst xs (some h) = Memᴰ h xs × NotBefore h xs

  IsFirst-better :
      IsRanking less
      → (x : A) (xs : List A) (o : Option A) → IsFirst xs o
      → IsFirst (x ∷ xs) (some (better x o))
  IsFirst-better r x xs none e = rw e (Memᴰ.head refl, (less_irrefl r x, tt))
  IsFirst-better r x xs (some y) h = elim (Bool-cases (less y x)) [
    | inl e ↦
        subst (λ b. IsFirst (x ∷ xs) (some b)) (better_old x y e)
          (Memᴰ.tail h.0, (r.asymm y x e, h.1))
    | inr e ↦
        subst (λ b. IsFirst (x ∷ xs) (some b)) (better_new x y e)
          (Memᴰ.head refl, (less_irrefl r x, NotBefore-trans r x y xs e h.1))
  ]

  sort_stable-IsFirst : IsRanking less → (xs : List A) → IsFirst xs (first (sort_stable xs))
  unfolding sort_stable
  sort_stable-IsFirst r [] = refl
  sort_stable-IsFirst r (x ∷ xs) =
      rw (insert-first x (sort_stable xs))
        (IsFirst-better r x xs (first (sort_stable xs)) (sort_stable-IsFirst r xs))

  -- The first element after sorting is one of the list, and no element stands before it.
  pub first-sort_stable :
      IsRanking less
      → (xs : List A) {h : A} → first (sort_stable xs) ≡ some h
      → Memᴰ h xs × All (λ b. less b h ≡ false) xs
  first-sort_stable r xs e = subst (IsFirst xs) e (sort_stable-IsFirst r xs)

  pub first-sort_stable-none :
      IsRanking less → (xs : List A) → first (sort_stable xs) ≡ none → xs ≡ []
  first-sort_stable-none r xs e = subst (IsFirst xs) e (sort_stable-IsFirst r xs)

-- `if key(a) != key(b) { return key(a) > key(b) }`, and then the rest of the comparison.
abbrev pub descending {ℓ} : {A : Type ℓ} → (A → ℤ) → (A → A → Bool) → A → A → Bool
descending key rest a b = if eqb_ℤ (key a) (key b) then rest a b else ltb_ℤ (key b) (key a)

abbrev differ : Bool → Bool → Bool
differ true b = not b
differ false b = b

-- `if test(a) != test(b) { return test(a) }`, and then the rest of the comparison.
abbrev pub preferring {ℓ} : {A : Type ℓ} → (A → Bool) → (A → A → Bool) → A → A → Bool
preferring test rest a b = if differ (test a) (test b) then test a else rest a b

-- `return text(a) < text(b)`.
abbrev pub ascending_text {ℓ} : {A : Type ℓ} → (A → String) → A → A → Bool
ascending_text text a b = str_lt (text a) (text b)

module _ {ℓ} {A : Type ℓ} where
  pub descending-IsRanking :
      (key : A → ℤ) (rest : A → A → Bool) → IsRanking rest → IsRanking (descending key rest)
  descending-IsRanking key rest r = record {
    asymm = λ a b. ground (arith, r.asymm a b);
    not_trans = λ a b c. ground (arith, r.not_trans a b c);
  }

  pub preferring-IsRanking :
      (test : A → Bool) (rest : A → A → Bool) → IsRanking rest → IsRanking (preferring test rest)
  preferring-IsRanking test rest r = record {
    asymm = λ a b. ground (arith, r.asymm a b);
    not_trans = λ a b c. ground (arith, r.not_trans a b c);
  }

  pub ascending_text-IsRanking : (text : A → String) → IsRanking (ascending_text text)
  ascending_text-IsRanking text = record {
    asymm = λ a b. str_lt_asymm (text a) (text b);
    not_trans = λ a b c. str_lt_not_trans (text a) (text b) (text c);
  }

module _ {A : Type 0} (P : A → Type 0) (less : A → A → Bool) where
  All-insert : (x : A) (xs : List A) → P x → All P xs → All P (insert less x xs)
  unfolding insert
  All-insert x [] p h = (p, tt)
  All-insert x (y ∷ ys) p h = elim (Bool-cases (less y x)) [
    | inl e ↦ rw e (h.0, All-insert x ys p h.1)
    | inr e ↦ rw e (p, h)
  ]

  -- Sorting keeps what holds of all.
  pub All-sort_stable : (xs : List A) → All P xs → All P (sort_stable less xs)
  unfolding sort_stable
  All-sort_stable [] h = tt
  All-sort_stable (x ∷ xs) h = All-insert x (sort_stable less xs) h.0 (All-sort_stable xs h.1)

module _ {A : Type 0} (less : A → A → Bool) where
  length-insert : (x : A) (xs : List A) → length (insert less x xs) ≡ suc (length xs)
  unfolding insert
  length-insert x [] = refl
  length-insert x (y ∷ ys) = elim (Bool-cases (less y x)) [
    | inl e ↦ rw (e, length-insert x ys) refl
    | inr e ↦ rw e refl
  ]

  pub length-sort_stable : (xs : List A) → length (sort_stable less xs) ≡ length xs
  unfolding sort_stable
  length-sort_stable [] = refl
  length-sort_stable (x ∷ xs) =
      rw (length-insert x (sort_stable less xs), length-sort_stable xs) refl
