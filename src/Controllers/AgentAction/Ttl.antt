-- ===== src/Controllers/AgentAction/Ttl.antt =====
-- `reconcileTerminalStateTTL`: a finished action is deleted once its time to live is over
-- (internal/controllers/agentaction_controller.go).
pub mod Quiet
pub mod Expiry
use fluxseer_rca.Base.{
  String, Option, none, some, Bool, true, false, not, is_none, ◌||◌, ℤ, pos, eqb_ℤ, if◌then◌else◌,
}
use fluxseer_rca.Api.Meta.{
  Time, lookup, after, add_time, sub_time, seconds, key_of, Result, ok, err, is_not_found,
}
use fluxseer_rca.Api.Action.{AgentAction}
use fluxseer_rca.Controllers.Flow.{
  Flow, Outcome, done, failed, requeue, ignoring_not_found, pure, leave, query, write, or_ignore,
  ◌>>=◌, ◌>>◌, deleted,
}
use fluxseer_rca.Controllers.AgentAction.Env.{Env, annotation_retain}

unfoldable pub expires_at : AgentAction → Time → Time
expires_at action finished = add_time finished (seconds action.spec.ttl_seconds)

-- The action is never deleted: no time to live is set, or an annotation retains it.
unfoldable pub is_kept : AgentAction → Bool
is_kept action =
    eqb_ℤ action.spec.ttl_seconds (pos 0)
    || not (is_none (lookup action.meta.annotations annotation_retain))

module _ {W : Type 0} (env : Env W) where
  delete : AgentAction → Flow W Outcome
  delete action = do
    r ← query (env.delete_action action)
    or_ignore r
    write (deleted (key_of action.meta))
    pure done

  expire : AgentAction → Time → Option Time → Flow W Outcome
  unfolding delete expires_at
  expire action now none = pure done
  expire action now (some finished) =
      if after now (expires_at action finished)
      then delete action
      else pure (requeue (sub_time (expires_at action finished) now))

  unfoldable pub reconcile_terminal_state_ttl : AgentAction → Time → Flow W Outcome
  unfolding expire is_kept
  reconcile_terminal_state_ttl action now =
      if is_kept action then pure done else expire action now action.status.finished_at
