-- ===== src/Controllers/RemediationPlan/Ttl/Finish.antt =====
-- When a plan counts as finished.
use fluxseer_rca.Base.{
  List, [], ◌∷◌, some, false, ◌≡◌, refl, ◌⊎◌, inl, inr, ◌≤ℤ◌, All, pos, keep, arith, Bool-cases,
  Option-cases, some-injective, sym, subst, ◌∙◌,
}
use fluxseer_rca.Api.Meta.{Time, after, is_zero_time}
use fluxseer_rca.Api.Action.{AgentAction, RemediationPlan}
use fluxseer_rca.Controllers.RemediationPlan.Ttl.{
  owned_by_plan, terminal_finish, later, latest_finish, finish_among,
}

later_bounds : (t latest : Time) → (t ≤ℤ later t latest) × (latest ≤ℤ later t latest)
later_bounds t latest = ground arith

-- Every one of the actions is over, by `t` at the latest.
abbrev pub AllOver : Time → List AgentAction → Type 0
AllOver t = All (λ a. (f : Time) × (terminal_finish a ≡ some f) × (f ≤ℤ t))

abbrev pub IsAmong : Time → List AgentAction → Type 0
IsAmong t [] = ⊥
IsAmong t (a ∷ rest) = (terminal_finish a ≡ some t) ⊎ IsAmong t rest

later_cases : (t latest : Time) → (later t latest ≡ t) ⊎ (later t latest ≡ latest)
later_cases t latest = elim (Bool-cases (after t latest)) [
  | inl e ↦ inl (rw e refl)
  | inr e ↦ inr (rw e refl)
]

IsAmong-there :
    (latest f t : Time) (a : AgentAction) (rest : List AgentAction)
    → terminal_finish a ≡ some f
    → (t ≡ later f latest) ⊎ IsAmong t rest
    → (t ≡ latest) ⊎ IsAmong t (a ∷ rest)
IsAmong-there latest f t a rest e (inl p) = elim (later_cases f latest) [
  | inl q ↦ inr (inl (rw (p, q) e))
  | inr q ↦ inl (p ∙ q)
]
IsAmong-there latest f t a rest e (inr p) = inr (inr p)

latest_bounds :
    (latest : Time) (actions : List AgentAction) (t : Time)
    → latest_finish latest actions ≡ some t
    → (latest ≤ℤ t) × AllOver t actions × ((t ≡ latest) ⊎ IsAmong t actions)
unfolding latest_finish
latest_bounds latest [] t h = let e = some-injective h in (rw e omega arith, tt, inl (sym e))
latest_bounds latest (a ∷ rest) t h = elim (Option-cases (terminal_finish a)) [
  | inl e ↦ cc (rw (latest_finish, e) at h)
  | inr (f, e) ↦
      let (bound, over, among) =
        latest_bounds (later f latest) rest t (rw (latest_finish, e) at h) in
      let (p, q) = later_bounds f latest in
      (
        omega (arith, bound, q),
        ((f, e, omega (arith, bound, p)), over),
        IsAmong-there latest f t a rest e among,
      )
]

IsAmong-owned :
    (u : Time) (actions : List AgentAction)
    → is_zero_time u ≡ false
    → (u ≡ pos 0) ⊎ IsAmong u actions
    → IsAmong u actions
IsAmong-owned u actions z (inl p) = cc (rw p at z)
IsAmong-owned u actions z (inr p) = p

-- A plan counts as finished at `t` only where each action of its own among those listed is over,
-- with a finish of `t` at the latest, and one of them has the finish `t`.
pub finish_among-IsLatest :
    (plan : RemediationPlan) (actions : List AgentAction) (t : Time)
    → finish_among plan actions ≡ some t
    → AllOver t (keep (owned_by_plan plan) actions) × IsAmong t (keep (owned_by_plan plan) actions)
unfolding finish_among
finish_among-IsLatest plan actions t h =
    elim (Option-cases (latest_finish (pos 0) (keep (owned_by_plan plan) actions))) [
      | inl e ↦ cc (rw e at h)
      | inr (u, e) ↦ elim (Bool-cases (is_zero_time u)) [
        | inl z ↦ cc (rw (e, z) at h)
        | inr z ↦
            let (_, over, among) = latest_bounds _ _ u e in
            let same = some-injective (rw (e, z) at h) in
            subst
              (λ v.
                AllOver v (keep (owned_by_plan plan) actions)
                × IsAmong v (keep (owned_by_plan plan) actions))
              same (over, IsAmong-owned u _ z among)
      ]
    ]
