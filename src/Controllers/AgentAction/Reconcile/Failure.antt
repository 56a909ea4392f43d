-- ===== src/Controllers/AgentAction/Reconcile/Failure.antt =====
-- What is recorded of a dispatch that failed for certain.
use fluxseer_rca.Base.{
  String, List, ◌∷◌, Bool, true, false, ◌≡◌, refl, ◌⊎◌, inl, inr, ◌==◌, ◌∙◌, if◌then◌else◌,
}
use fluxseer_rca.Api.Meta.{Time, Error, Result, ok, err, set_resource_status}
use fluxseer_rca.Api.Action.{AgentAction, phase_failed}
use fluxseer_rca.Domain.{ExecutionResult, outcome_unknown}
use fluxseer_rca.Controllers.Flow.{
  State, Step, next, exit, Outcome, Effect, saved, pure, leave, query, write, or_fail, ◌>>=◌, ◌>>◌,
  and_then, failed,
}
use fluxseer_rca.Controllers.AgentAction.Env.{Env, save, record_phase_transition}
use fluxseer_rca.Controllers.AgentAction.Statuses.{failed_status}
use fluxseer_rca.Controllers.AgentAction.Reconcile.{failed_dispatch}

module _ {W : Type 0} where
  leave_log :
      {A : Type 0} (B : Type 0) (r : Step A) (o : Outcome) (s : State W)
      → (and_then r (λ _. leave {A = B} o) s).1.log ≡ s.log
  unfolding and_then leave
  leave_log B (next a) o s = refl
  leave_log B (exit x) o s = refl

  unsaid : (c : Bool) (s : State W) → ((if c then pure tt else pure tt) s).1.log ≡ s.log
  unfolding pure
  unsaid true s = refl
  unsaid false s = refl

module _ {W : Type 0} (env : Env W) where
  silent :
      (to : String) (s : State W)
      → to ≡ phase_failed
      → (record_phase_transition env phase_failed to s).1.log ≡ s.log
  unfolding record_phase_transition
  silent to s e = rw e (unsaid env.has_recorder s)

  abbrev pub saved_log : AgentAction → State W → List Effect
  saved_log action s = saved action ∷ s.log

  after_save :
      (action : AgentAction) (e : Error) (r : Result AgentAction) (s : State W)
      → ((a : AgentAction) → r ≡ ok a → a.status.phase ≡ phase_failed)
      → let log =
          ((or_fail r >>= λ a. write (saved action) >> pure a) >>= λ stored.
          record_phase_transition env phase_failed stored.status.phase
          >> leave {A = Outcome} (failed e))
            s in
        (log.1.log ≡ s.log) ⊎ (log.1.log ≡ saved_log action s)
  unfolding or_fail ◌>>=◌ and_then write pure leave
  after_save action e (err x) s h = inl refl
  after_save action e (ok a) s h =
      let t = record s { log = saved action ∷ s.log } in
      let m = record_phase_transition env phase_failed a.status.phase t in
      inr (leave_log Outcome m.0 (failed e) m.1 ∙ silent a.status.phase t (h a refl))

  -- A dispatch that failed for certain adds to the log at most the status that was saved: where the
  -- server stores the phase that it is sent, no event tells of the failure.
  pub failed_dispatch-silent :
      (action : AgentAction) (result : ExecutionResult) (e : Error) (t : Time) (s : State W)
      → ((a b : AgentAction) (w : W)
          → (env.update_status a w).0 ≡ ok b
          → b.status.phase ≡ a.status.phase)
      → (result.outcome == outcome_unknown) ≡ false
      → let log = (failed_dispatch env action result e t s).1.log in
        (log ≡ s.log) ⊎ (log ≡ saved_log (record action { status = failed_status action e t }) s)
  unfolding failed_dispatch save query ◌>>=◌ and_then failed_status set_resource_status
  failed_dispatch-silent action result e t s echo known =
      let sent = record action { status = failed_status action e t } in
      rw known (
        after_save sent e (env.update_status sent s.world).0
          (record s { world = (env.update_status sent s.world).1 })
          (λ a stored. echo sent a s.world stored))
