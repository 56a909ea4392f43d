-- ===== src/Diagnostic/Planner/Registry.antt =====
-- The registry holds each diagnostic once.
use fluxseer_rca.Base.{
  String, List, [], ◌∷◌, Option, none, some, Bool, true, false, ◌||◌, ◌==◌, ◌≡◌, refl, sym, ◌∙◌,
  inl, inr, Bool-cases, has_text, map, IsDistinct, has_key-sort_stable, sort_stable-IsDistinct,
  str_eq→eq, eq→str_eq, subst,
}
use fluxseer_rca.Diagnostic.Evidence.{Diagnostic}
use fluxseer_rca.Diagnostic.Planner.{key_of, register, diagnostic_before, new_planner}

-- The keys of the diagnostics that are not nil.
abbrev pub keys_of : List (Option Diagnostic) → List String
keys_of [] = []
keys_of (none ∷ ds) = keys_of ds
keys_of (some d ∷ ds) = key_of d ∷ keys_of ds

skipped :
    (a k x r : Bool) → (k ≡ true → a ≡ true) → (a || x) ≡ (a || r) → (a || x) ≡ (a || (k || r))
skipped true k x r f h = refl
skipped false true x r f h = cc (f refl)
skipped false false x r f h = h

moved : (a k x r : Bool) → ((k || a) || x) ≡ ((k || a) || r) → (a || (k || x)) ≡ (a || (k || r))
moved true k x r h = refl
moved false true x r h = refl
moved false false x r h = h

seen_as :
    (t key : String) (seen : List String)
    → has_text key seen ≡ true
    → (key == t) ≡ true
    → has_text t seen ≡ true
seen_as t key seen h e = subst (λ u. has_text u seen ≡ true) (str_eq→eq key t e) h

has_key-register :
    (t : String) (seen : List String) (ds : List (Option Diagnostic))
    → (has_text t seen || has_text t (map key_of (register seen ds)))
      ≡ (has_text t seen || has_text t (keys_of ds))
unfolding register
has_key-register t seen [] = refl
has_key-register t seen (none ∷ ds) = has_key-register t seen ds
has_key-register t seen (some d ∷ ds) = elim (Bool-cases (has_text (key_of d) seen)) [
  | inl e ↦
      rw (register, e)
        (skipped (has_text t seen) (key_of d == t) _ _ (seen_as t (key_of d) seen e)
          (has_key-register t seen ds))
  | inr e ↦
      rw (register, e)
        (moved (has_text t seen) (key_of d == t) _ _ (has_key-register t (key_of d ∷ seen) ds))
]

other_key :
    (t key : String) (seen : List String)
    → has_text key seen ≡ false
    → has_text t seen ≡ true
    → (key == t) ≡ false
other_key t key seen e h = elim (Bool-cases (key == t)) [
  | inl k ↦ cc (e, subst (λ u. has_text u seen ≡ true) (sym (str_eq→eq key t k)) h)
  | inr k ↦ k
]

seen_stays : (a b : Bool) → a ≡ true → (b || a) ≡ true
seen_stays a true h = refl
seen_stays a false h = h

-- What was seen is not registered again.
not_again :
    (t : String) (seen : List String) (ds : List (Option Diagnostic))
    → has_text t seen ≡ true
    → has_text t (map key_of (register seen ds)) ≡ false
unfolding register
not_again t seen [] h = refl
not_again t seen (none ∷ ds) h = not_again t seen ds h
not_again t seen (some d ∷ ds) h = elim (Bool-cases (has_text (key_of d) seen)) [
  | inl e ↦ rw (register, e) (not_again t seen ds h)
  | inr e ↦
      rw (register, e, other_key t (key_of d) seen e h)
        (not_again t (key_of d ∷ seen) ds (seen_stays _ (key_of d == t) h))
]

register-IsDistinct :
    (seen : List String) (ds : List (Option Diagnostic))
    → IsDistinct (map key_of (register seen ds))
unfolding register
register-IsDistinct seen [] = tt
register-IsDistinct seen (none ∷ ds) = register-IsDistinct seen ds
register-IsDistinct seen (some d ∷ ds) = elim (Bool-cases (has_text (key_of d) seen)) [
  | inl e ↦ rw (register, e) (register-IsDistinct seen ds)
  | inr e ↦
      rw (register, e)
        (
          not_again (key_of d) (key_of d ∷ seen) ds
              (rw (eq→str_eq (key_of d) (key_of d) refl) refl),
          register-IsDistinct (key_of d ∷ seen) ds,
        )
]

-- Whatever diagnostics a planner is made of, nil ones and duplicates among them, its registry has
-- the keys, an id with a version, of those that are not nil, and each key once.
pub new_planner-IsRegistry :
    (ds : List (Option Diagnostic))
    → IsDistinct (map key_of (new_planner ds))
      × ((key : String) → has_text key (map key_of (new_planner ds)) ≡ has_text key (keys_of ds))
unfolding new_planner
new_planner-IsRegistry ds = (
  sort_stable-IsDistinct key_of diagnostic_before (register [] ds) (register-IsDistinct [] ds),
  λ key.
      has_key-sort_stable key_of diagnostic_before key (register [] ds)
      ∙ has_key-register key [] ds,
)
