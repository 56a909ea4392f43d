-- ===== src/Controllers/Triples.antt =====
-- What a flow does to the log: from a log with `P` it returns with `Q`, or leaves with `R`.
use fluxseer_rca.Base.{List, ◌∷◌, Bool, true, false, if◌then◌else◌, ◌≡◌, refl}
use fluxseer_rca.Api.Meta.{Result, ok, err}
use fluxseer_rca.Controllers.Flow.{
  Flow, State, Step, next, exit, Outcome, Effect, pure, leave, query, write, or_fail, or_ignore,
  ◌>>=◌, and_then,
}

abbrev pub Ends :
    {A : Type 0}
    → (A → List Effect → Type 0)
    → (List Effect → Type 0)
    → Step A
    → List Effect
    → Type 0
Ends Q R (next a) log = Q a log
Ends Q R (exit o) log = R log

pub record Triple {W A : Type 0} (P : List Effect → Type 0) (m : Flow W A)
    (Q : A → List Effect → Type 0) (R : List Effect → Type 0) : Type 0 where
  pub at : (s : State W) → P s.log → Ends Q R (m s).0 (m s).1.log

module _ {W A : Type 0} {P R : List Effect → Type 0} where
  pub Triple-pure :
      {Q : A → List Effect → Type 0} (a : A)
      → ((log : List Effect) → P log → Q a log)
      → Triple {W = W} P (pure a) Q R
  unfolding pure
  Triple-pure a h = record { at = λ s p. h s.log p }

  pub Triple-leave :
      {Q : A → List Effect → Type 0} (o : Outcome)
      → ((log : List Effect) → P log → R log)
      → Triple {W = W} P (leave o) Q R
  unfolding leave
  Triple-leave o h = record { at = λ s p. h s.log p }

  -- A query leaves the log alone.
  pub Triple-query : (call : W → A × W) → Triple P (query call) (λ _. P) R
  unfolding query
  Triple-query call = record { at = λ s p. p }

  pub Triple-or_fail :
      (r : Result A)
      → ((log : List Effect) → P log → R log)
      → Triple {W = W} P (or_fail r) (λ _. P) R
  unfolding or_fail pure leave
  Triple-or_fail (ok a) h = record { at = λ s p. p }
  Triple-or_fail (err e) h = record { at = λ s p. h s.log p }

  pub Triple-or_ignore :
      (r : Result A)
      → ((log : List Effect) → P log → R log)
      → Triple {W = W} P (or_ignore r) (λ _. P) R
  unfolding or_ignore pure leave
  Triple-or_ignore (ok a) h = record { at = λ s p. p }
  Triple-or_ignore (err e) h = record { at = λ s p. h s.log p }

  pub Triple-if :
      {Q : A → List Effect → Type 0} (c : Bool) {m n : Flow W A}
      → (c ≡ true → Triple P m Q R)
      → (c ≡ false → Triple P n Q R)
      → Triple P (if c then m else n) Q R
  Triple-if true p q = p refl
  Triple-if false p q = q refl

module _ {W : Type 0} {P R : List Effect → Type 0} where
  pub Triple-write :
      {Q : List Effect → Type 0} (e : Effect)
      → ((log : List Effect) → P log → Q (e ∷ log))
      → Triple {W = W} P (write e) (λ _. Q) R
  unfolding write
  Triple-write e h = record { at = λ s p. h s.log p }

module _ {W A B : Type 0} {R : List Effect → Type 0} {Q : A → List Effect → Type 0}
    {S : B → List Effect → Type 0} where
  Ends-and_then :
      (r : Step A) (f : A → Flow W B) (s : State W)
      → Ends Q R r s.log
      → ((a : A) → Triple (Q a) (f a) S R)
      → Ends S R (and_then r f s).0 (and_then r f s).1.log
  unfolding and_then
  Ends-and_then (next a) f s h t = (t a).at s h
  Ends-and_then (exit o) f s h t = h

  pub Triple-bind :
      {P : List Effect → Type 0} {m : Flow W A} {f : A → Flow W B}
      → Triple P m Q R
      → ((a : A) → Triple (Q a) (f a) S R)
      → Triple P (m >>= f) S R
  unfolding ◌>>=◌
  Triple-bind {m = m} {f = f} p t = record {
    at = λ s h. Ends-and_then (m s).0 f (m s).1 (p.at s h) t;
  }
