-- ===== src/Controllers/Equality.antt =====
-- `statusChangedAction`: `reflect.DeepEqual` on two statuses of an AgentAction
-- (internal/controllers/remediationplan_controller.go).
use fluxseer_rca.Base.{
  String, Bool, true, false, ◌≡◌, refl, ◌≢◌, ◌==◌, str_eq→eq, eq→str_eq, Bool-cases, inl, inr,
}
use native.Mathlib.Decide.{ℕ_discrete}
use fluxseer_rca.Api.Action.{AgentActionStatus}

String_discrete : Discrete String
String_discrete s t = elim (Bool-cases (s == t)) [
  | inl e ↦ yes (str_eq→eq s t e)
  | inr e ↦ no (λ p. cc (eq→str_eq s t p))
]

status_discrete : Discrete AgentActionStatus
status_discrete = hlevel (ℕ_discrete, String_discrete)

abbrev is_no : {A : Type 0} → Dec A → Bool
is_no (yes _) = false
is_no (no _) = true

unfoldable pub status_changed : AgentActionStatus → AgentActionStatus → Bool
unfolding status_discrete String_discrete
status_changed before after = is_no (status_discrete before after)

is_no_of_not : {A : Type 0} (d : Dec A) → ¬ A → is_no d ≡ true
is_no_of_not (yes a) n = absurd (n a)
is_no_of_not (no _) n = refl

pub status_changed_of_ne : (a b : AgentActionStatus) → a ≢ b → status_changed a b ≡ true
unfolding status_changed
status_changed_of_ne a b n = is_no_of_not (status_discrete a b) n

is_no_false : {A : Type 0} (d : Dec A) → is_no d ≡ false → A
is_no_false (yes a) h = a
is_no_false (no _) h = cc

pub status_unchanged_eq : (a b : AgentActionStatus) → status_changed a b ≡ false → a ≡ b
unfolding status_changed
status_unchanged_eq a b h = is_no_false (status_discrete a b) h
