-- ===== src/Controllers/RemediationPlan/Reconcile/Decided.antt =====
-- A plan is decided on once.
use fluxseer_rca.Base.{
  String, List, [], false, ◌==◌, ◌≡◌, ◌≢◌, refl, sym, ◌∙◌, All, All-mem, str_ne→ne, ne→str_ne,
}
use mathlib.Core.List.{Memᴰ}
use fluxseer_rca.Api.Meta.{Key, ok}
use fluxseer_rca.Api.Action.{AgentActionSpec, RemediationPlan, phase_rejected}
use fluxseer_rca.Controllers.Flow.{
  State, Effect, saved, dispatched, deleted, notified, event, verification_created, plan_updated,
  plan_saved, action_applied, next, done, query, or_ignore, pure, ◌>>=◌, and_then,
}
use fluxseer_rca.Controllers.RemediationPlan.Env.{Env}
use fluxseer_rca.Controllers.RemediationPlan.Protocol.{
  Stage, Move, default, refuse, apply, store, warn_unsaved, warn, announce, decide, Trace, begin,
  later, silently,
}
use fluxseer_rca.Controllers.RemediationPlan.Reconcile.{proceed, reconcile}
use fluxseer_rca.Controllers.RemediationPlan.Reconcile.Traced.{reconcile-IsReached}

-- The runs of the reconciler, one after the other and over any plans, from a start with an empty
-- log; what else happens to the world between two runs is arbitrary.
pub data Runs {W : Type 0} (env : Env W) : State W → Type 0 where
  start : (w : W) → Runs env (record { world = w; log = [] })
  meanwhile : {s : State W} (w : W) → Runs env s → Runs env (record s { world = w })
  run : {s : State W} (key : Key) → Runs env s → Runs env (reconcile env key s).1

-- A plan that was saved has a phase.
HasPhase : Effect → Type 0
HasPhase (saved a) = Unit
HasPhase (dispatched r) = Unit
HasPhase (deleted k) = Unit
HasPhase notified = Unit
HasPhase (event t r m) = Unit
HasPhase (verification_created r) = Unit
HasPhase (plan_updated p) = Unit
HasPhase (plan_saved p) = p.status.phase ≢ ""
HasPhase (action_applied a) = Unit

module _ (digest : AgentActionSpec → String) where
  Move-HasPhase : {s t : Stage} {e : Effect} → Move digest s e t → HasPhase e
  unfolding HasPhase
  Move-HasPhase (default p) = tt
  Move-HasPhase (refuse p h) = λ e. str_ne→ne phase_rejected "" refl (sym h ∙ e)
  Move-HasPhase (apply a) = tt
  Move-HasPhase (store a b p h d) = tt
  Move-HasPhase (warn_unsaved t r m) = tt
  Move-HasPhase (warn t r m) = tt
  Move-HasPhase (announce t r m p) = tt
  Move-HasPhase (decide p phase h ne) = λ e. ne (sym h ∙ e)

  Trace-HasPhase :
      {start log : List Effect} {stage : Stage}
      → All HasPhase start
      → Trace digest start stage log
      → All HasPhase log
  Trace-HasPhase h begin = h
  Trace-HasPhase h (later t m) = (Move-HasPhase m, Trace-HasPhase h t)
  Trace-HasPhase h (silently p t d) = Trace-HasPhase h t

module _ {W : Type 0} (env : Env W) where
  Runs-HasPhase : {s : State W} → Runs env s → All HasPhase s.log
  Runs-HasPhase (start w) = tt
  Runs-HasPhase (meanwhile w r) = Runs-HasPhase r
  Runs-HasPhase (run {s} key r) =
      Trace-HasPhase env.spec_digest (Runs-HasPhase r) (reconcile-IsReached env key s).trace

  decided_still :
      (key : Key) (s : State W) (plan : RemediationPlan)
      → (env.get_plan key s.world).0 ≡ ok plan
      → (plan.status.phase == "") ≡ false
      → reconcile env key s ≡ (next done, record s { world = (env.get_plan key s.world).1 })
  unfolding reconcile proceed query or_ignore pure ◌>>=◌ and_then
  decided_still key s plan read h = rw (read, h) refl

  -- After any runs of the reconciler over any plans, with the world changing between them, a run
  -- that reads a plan with the phase of a status that one of those runs saved ends at once: the
  -- plan is read and nothing else, so it is neither evaluated nor written again.
  pub reconcile_decided :
      {s : State W} (key : Key) (plan stored : RemediationPlan)
      → Runs env s
      → Memᴰ (plan_saved stored) s.log
      → (env.get_plan key s.world).0 ≡ ok plan
      → plan.status.phase ≡ stored.status.phase
      → reconcile env key s ≡ (next done, record s { world = (env.get_plan key s.world).1 })
  unfolding HasPhase
  reconcile_decided {s} key plan stored runs m read same = decided_still key s plan read (
      ne→str_ne plan.status.phase ""
        (λ e. All-mem HasPhase s.log (Runs-HasPhase runs) m (sym same ∙ e)))
