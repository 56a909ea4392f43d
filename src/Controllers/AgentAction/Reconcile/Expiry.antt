-- ===== src/Controllers/AgentAction/Reconcile/Expiry.antt =====
-- A run over a finished action deletes it when its time is over, and only then.
use fluxseer_rca.Base.{◌∷◌, none, true, ◌≡◌, ◌⊎◌, ◌↔◌}
use fluxseer_rca.Api.Meta.{Time, Key, ok, key_of}
use fluxseer_rca.Api.Action.{AgentAction}
use fluxseer_rca.Controllers.Flow.{State, deleted, query, or_ignore, pure, ◌>>=◌, and_then}
use fluxseer_rca.Controllers.AgentAction.Env.{Env}
use fluxseer_rca.Controllers.AgentAction.Ttl.Expiry.{
  IsExpired, TtlEnd, TtlEnd-IsExpired, reconcile_terminal_state_ttl-Ended,
}
use fluxseer_rca.Controllers.AgentAction.Reconcile.{is_terminal, verifying, proceed, reconcile}

module _ {W : Type 0} (env : Env W) where
  -- The clock, read after the action, and the world after it.
  abbrev pub clock_after : Key → State W → Time × W
  clock_after key s = env.clock (env.get_action key s.world).1

  ended :
      (key : Key) (s : State W) (action : AgentAction)
      → (env.get_action key s.world).0 ≡ ok action
      → is_terminal action.status.phase ≡ true
      → verifying action.status.effectiveness ≡ none
      → TtlEnd env action
          (clock_after key s).0
          (clock_after key s).1
          s.log
          (reconcile env key s).0
          (reconcile env key s).1.log
  unfolding reconcile proceed query or_ignore pure ◌>>=◌ and_then
  ended key s action read terminal v =
      rw (read, v, terminal)
        (reconcile_terminal_state_ttl-Ended env action (clock_after key s).0
          (record s { world = (clock_after key s).1 }))

  -- A run that reads a finished action, which is not under verification, leaves the log as it was
  -- or deletes the action, and nothing else. It deletes the action exactly when a time to live is
  -- set, no annotation retains the action, the time is past the finish by more than the time to
  -- live, and the server accepts the deletion.
  pub reconcile-IsExpired :
      (key : Key) (s : State W) (action : AgentAction)
      → (env.get_action key s.world).0 ≡ ok action
      → is_terminal action.status.phase ≡ true
      → verifying action.status.effectiveness ≡ none
      → (((reconcile env key s).1.log ≡ s.log)
          ⊎ ((reconcile env key s).1.log ≡ (deleted (key_of action.meta) ∷ s.log)))
        × (((reconcile env key s).1.log ≡ (deleted (key_of action.meta) ∷ s.log))
            ↔ IsExpired env action (clock_after key s).0 (clock_after key s).1)
  reconcile-IsExpired key s action read terminal v =
      TtlEnd-IsExpired env action (clock_after key s).0 (clock_after key s).1 s.log
        (reconcile env key s).0 (reconcile env key s).1.log (ended key s action read terminal v)
