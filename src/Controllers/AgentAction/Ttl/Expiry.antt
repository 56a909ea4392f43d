-- ===== src/Controllers/AgentAction/Ttl/Expiry.antt =====
-- When the controller deletes an action.
use fluxseer_rca.Base.{
  ℕ, suc, List, ◌∷◌, Option, none, some, Bool, true, false, not, is_none, ◌||◌, ◌≡◌, ◌≢◌, ◌↔◌, refl,
  sym, ap, subst, ◌∙◌, ◌⊎◌, inl, inr, Bool-cases, pos, eqb_ℤ, arith, length,
}
use fluxseer_rca.Api.Meta.{
  Time, lookup, after, add_time, sub_time, seconds, key_of, Result, ok, err, Error,
}
use fluxseer_rca.Api.Action.{AgentAction}
use fluxseer_rca.Controllers.Flow.{
  State, Effect, deleted, pure, leave, query, write, or_ignore, ◌>>=◌, and_then, done, Step, next,
  exit, Outcome, requeue, ignoring_not_found,
}
use fluxseer_rca.Controllers.AgentAction.Env.{Env, annotation_retain, now}
use fluxseer_rca.Controllers.AgentAction.Ttl.{
  is_kept, expires_at, delete, expire, reconcile_terminal_state_ttl,
}

-- The action finished, has a time to live, and no annotation retains it.
pub record IsLimited (action : AgentAction) (finished : Time) : Type 0 where
  pub limited : eqb_ℤ action.spec.ttl_seconds (pos 0) ≡ false
  pub unretained : lookup action.meta.annotations annotation_retain ≡ none
  pub over : action.status.finished_at ≡ some finished

abbrev pub end_of_life : AgentAction → Time → Time
end_of_life action finished = add_time finished (seconds action.spec.ttl_seconds)

-- How a run over a finished action ends, and with which log.
pub data TtlEnd {W : Type 0} (env : Env W) (action : AgentAction) (now : Time) (w : W)
    (log : List Effect) : Step Outcome → List Effect → Type 0 where
  unlimited :
      ((finished : Time) → ¬ IsLimited action finished)
      → TtlEnd env action now w log (next done) log
  alive :
      (finished : Time)
      → IsLimited action finished
      → after now (end_of_life action finished) ≡ false
      → TtlEnd env action now w log
          (next (requeue (sub_time (end_of_life action finished) now)))
          log
  expired :
      (finished : Time)
      → IsLimited action finished
      → after now (end_of_life action finished) ≡ true
      → (env.delete_action action w).0 ≡ ok tt
      → TtlEnd env action now w log (next done) (deleted (key_of action.meta) ∷ log)
  refused :
      (finished : Time) (e : Error)
      → IsLimited action finished
      → after now (end_of_life action finished) ≡ true
      → (env.delete_action action w).0 ≡ err e
      → TtlEnd env action now w log (exit (ignoring_not_found e)) log

none_there : {A : Type 0} (o : Option A) → not (is_none o) ≡ false → o ≡ none
none_there none h = refl
none_there (some a) h = cc

or_false_cases : (a b : Bool) → (a || b) ≡ false → (a ≡ false) × (b ≡ false)
or_false_cases true b h = cc
or_false_cases false b h = (refl, h)

kept-unlimited :
    (action : AgentAction) (finished : Time) → is_kept action ≡ true → ¬ IsLimited action finished
unfolding is_kept
kept-unlimited action finished k l = cc (rw (l.limited, l.unretained) at k)

module _ {W : Type 0} (env : Env W) where
  abbrev Ended : AgentAction → Time → State W → Step Outcome × State W → Type 0
  Ended action now s r = TtlEnd env action now s.world s.log r.0 r.1.log

  deleted_end :
      (action : AgentAction) (now finished : Time) (s : State W)
      → IsLimited action finished
      → after now (end_of_life action finished) ≡ true
      → (r : Result (Unit {0})) (s' : State W) → (env.delete_action action s.world).0 ≡ r
      → s'.log ≡ s.log
      → Ended action now s
          ((or_ignore r >>= λ _. write (deleted (key_of action.meta)) >>= λ _. pure done) s')
  unfolding or_ignore ◌>>=◌ and_then write pure leave
  deleted_end action now finished s l due (ok tt) s' e p = rw p (expired finished l due e)
  deleted_end action now finished s l due (err f) s' e p = rw p (refused finished f l due e)

  expire-Ended :
      (action : AgentAction) (now : Time) (finished : Option Time) (s : State W)
      → is_kept action ≡ false
      → action.status.finished_at ≡ finished
      → Ended action now s (expire env action now finished s)
  unfolding expire pure is_kept expires_at delete query ◌>>=◌ and_then
  expire-Ended action now none s k f = unlimited (λ t l. cc (f, l.over))
  expire-Ended action now (some finished) s k f =
      let (limited, free) = or_false_cases _ _ k in
      let l : IsLimited action finished = record {
        limited = limited;
        unretained = none_there _ free;
        over = f;
      } in
      elim (Bool-cases (after now (end_of_life action finished))) [
        | inl due ↦ rw due (
            deleted_end action now finished s l due (env.delete_action action s.world).0
              (record s { world = (env.delete_action action s.world).1 }) refl refl)
        | inr early ↦ rw early (alive finished l early)
      ]

  pub reconcile_terminal_state_ttl-Ended :
      (action : AgentAction) (now : Time) (s : State W)
      → Ended action now s (reconcile_terminal_state_ttl env action now s)
  unfolding reconcile_terminal_state_ttl pure
  reconcile_terminal_state_ttl-Ended action now s = elim (Bool-cases (is_kept action)) [
    | inl kept ↦ rw kept (unlimited (λ f. kept-unlimited action f kept))
    | inr free ↦ rw free (expire-Ended action now action.status.finished_at s free refl)
  ]

-- The action has outlived its time, and the server accepts its deletion.
abbrev pub IsExpired : {W : Type 0} → Env W → AgentAction → Time → W → Type 0
IsExpired env action now w =
    (finished : Time) × IsLimited action finished
    × (after now (end_of_life action finished) ≡ true)
    × ((env.delete_action action w).0 ≡ ok tt)

longer : (n : ℕ) → n ≢ suc n
longer n h = omega arith

cons-ne : (e : Effect) (log : List Effect) → log ≢ (e ∷ log)
cons-ne e log h = longer (length log) (ap length h)

same_finish :
    (action : AgentAction) (t u : Time)
    → action.status.finished_at ≡ some t
    → action.status.finished_at ≡ some u
    → t ≡ u
same_finish action t u h k = cc

-- The log is the one before the run, and a deletion more exactly where the action is expired.
pub TtlEnd-IsExpired :
    {W : Type 0} (env : Env W) (action : AgentAction) (now : Time) (w : W) (log : List Effect)
    (r : Step Outcome) (log' : List Effect)
    → TtlEnd env action now w log r log'
    → ((log' ≡ log) ⊎ (log' ≡ (deleted (key_of action.meta) ∷ log)))
      × ((log' ≡ (deleted (key_of action.meta) ∷ log)) ↔ IsExpired env action now w)
TtlEnd-IsExpired env action now w log r log' (unlimited f) =
    (inl refl, (λ h. absurd (cons-ne _ log h), λ x. absurd (f x.0 x.1)))
TtlEnd-IsExpired env action now w log r log' (alive t l early) = (
  inl refl,
  (
    λ h. absurd (cons-ne _ log h),
    λ x. cc (
      early,
      subst (λ u. after now (end_of_life action u) ≡ true)
          (same_finish action x.0 t x.1.over l.over) x.2,
    ),
  ),
)
TtlEnd-IsExpired env action now w log r log' (expired t l due a) =
    (inr refl, (λ h. (t, l, due, a), λ x. refl))
TtlEnd-IsExpired env action now w log r log' (refused t e l due a) =
    (inl refl, (λ h. absurd (cons-ne _ log h), λ x. cc (sym a ∙ x.3)))
