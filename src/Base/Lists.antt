-- ===== src/Base/Lists.antt =====
-- Lists measured by native numbers, and Boolean quantifiers that compute.
use Prim.Native.Nat.{ℕ, zero, suc, ◌+◌, ◌≤◌}
use mathlib.Core.Path.{◌≡◌, refl, subst, sym}
use mathlib.Core.Bool.{Bool, true, false, ◌&&◌, ◌||◌}
use mathlib.Core.Option.{Option, none, some}
use mathlib.Core.List.{List, [], ◌∷◌, ◌++◌, Memᴰ}
use native.Mathlib.Omega.{arith}
use mathlib.Core.Logic.{inl, inr}
use fluxseer_rca.Base.Tests.{if◌then◌else◌, Bool-cases}

module _ {ℓ} {A : Type ℓ} where
  abbrev pub length : List A → ℕ
  length [] = 0
  length (x ∷ xs) = suc (length xs)

  abbrev pub take : ℕ → List A → List A
  take zero xs = []
  take (suc n) [] = []
  take (suc n) (x ∷ xs) = x ∷ take n xs

  abbrev pub first : List A → Option A
  first [] = none
  first (x ∷ xs) = some x

  abbrev pub any : (A → Bool) → List A → Bool
  any p [] = false
  any p (x ∷ xs) = p x || any p xs

  abbrev pub all : (A → Bool) → List A → Bool
  all p [] = true
  all p (x ∷ xs) = p x && all p xs

  -- The elements that a loop with `continue` keeps.
  abbrev pub keep : (A → Bool) → List A → List A
  keep p [] = []
  keep p (x ∷ xs) = let rest = keep p xs in if p x then x ∷ rest else rest

  abbrev pub count : (A → Bool) → List A → ℕ
  count p [] = 0
  count p (x ∷ xs) = let rest = count p xs in if p x then suc rest else rest

  -- A predicate by recursion: it computes to tuples.
  abbrev pub All {κ} : (A → Type κ) → List A → Type κ
  All P [] = Unit
  All P (x ∷ xs) = P x × All P xs

  pub length-append : (xs ys : List A) → length (xs ++ ys) ≡ length xs + length ys
  length-append [] ys = omega arith
  length-append (x ∷ xs) ys = omega (arith, length-append xs ys)

  pub length-take-le : (n : ℕ) (xs : List A) → length (take n xs) ≤ n
  length-take-le zero xs = omega arith
  length-take-le (suc n) [] = omega arith
  length-take-le (suc n) (x ∷ xs) = omega (arith, length-take-le n xs)

  pub count-append : (p : A → Bool) (xs ys : List A) → count p (xs ++ ys) ≡ count p xs + count p ys
  count-append p [] ys = omega arith
  count-append p (x ∷ xs) ys = ground (arith, count-append p xs ys)

-- A loop that returns the first element to pass a test.
module _ {A : Type 0} (test : A → Bool) where
  unfoldable pub find : List A → Option A
  find [] = none
  find (x ∷ xs) = if test x then some x else find xs

  -- `x` passes, and the elements before it do not.
  pub record IsFirstPassing (xs : List A) (x : A) : Type 0 where
    pub skipped : List A
    pub rest : List A
    pub split : xs ≡ skipped ++ x ∷ rest
    pub fail : All (λ y. test y ≡ false) skipped
    pub pass : test x ≡ true

  IsFirstPassing-here : (x : A) (xs : List A) → test x ≡ true → IsFirstPassing (x ∷ xs) x
  IsFirstPassing-here x xs h = record { skipped = []; rest = xs; split = refl; fail = tt; pass = h }

  IsFirstPassing-there :
      (y : A) {x : A} {xs : List A}
      → test y ≡ false
      → IsFirstPassing xs x
      → IsFirstPassing (y ∷ xs) x
  IsFirstPassing-there y h f = record {
    skipped = y ∷ f.skipped;
    rest = f.rest;
    split = rw f.split;
    fail = (h, f.fail);
    pass = f.pass;
  }

  pub find-IsFirstPassing : (xs : List A) {r : A} → find xs ≡ some r → IsFirstPassing xs r
  unfolding find
  find-IsFirstPassing [] h = cc
  find-IsFirstPassing (x ∷ xs) h = elim (Bool-cases (test x)) [
    | inl e ↦ subst (IsFirstPassing (x ∷ xs)) (cc (rw e at h)) (IsFirstPassing-here x xs e)
    | inr e ↦ IsFirstPassing-there x e (find-IsFirstPassing xs (rw e at h))
  ]

  pub find-none : (xs : List A) → find xs ≡ none → All (λ y. test y ≡ false) xs
  unfolding find
  find-none [] h = tt
  find-none (x ∷ xs) h = elim (Bool-cases (test x)) [
    | inl e ↦ cc (rw e at h)
    | inr e ↦ (e, find-none xs (rw e at h))
  ]

module _ {ℓ κ μ} {A : Type ℓ} {P : A → Type κ} {Q : A → Type μ} where
  pub All-map : ((x : A) → P x → Q x) → (xs : List A) → All P xs → All Q xs
  All-map f [] h = tt
  All-map f (x ∷ xs) h = (f x h.0, All-map f xs h.1)

module _ {ℓ κ} {A : Type ℓ} (P : A → Type κ) where
  pub All-mem : {x : A} (xs : List A) → All P xs → Memᴰ x xs → P x
  All-mem [] h m = elim m [ ]
  All-mem (y ∷ xs) h (Memᴰ.head e) = subst P (sym e) h.0
  All-mem (y ∷ xs) h (Memᴰ.tail m) = All-mem xs h.1 m

pub members-All {ℓ} : {A : Type ℓ} (xs : List A) → All (λ x. Memᴰ x xs) xs
members-All [] = tt
members-All (x ∷ xs) = (Memᴰ.head refl, All-map (λ y m. Memᴰ.tail m) xs (members-All xs))
