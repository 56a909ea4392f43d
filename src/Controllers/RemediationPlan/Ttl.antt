-- ===== src/Controllers/RemediationPlan/Ttl.antt =====
-- The time to live of a plan whose actions are over
-- (internal/controllers/remediationplan_ttl_controller.go).
pub mod Finish
use fluxseer_rca.Base.{
  String, List, [], ◌∷◌, Option, none, some, is_none, Bool, true, false, not, ◌&&◌, ◌||◌, ◌==◌, ℤ,
  pos, ltb_ℤ, if◌then◌else◌, ◌+++◌, any, keep,
}
use fluxseer_rca.Api.Meta.{
  Time, lookup, is_zero_time, before, after, add_time, sub_time, seconds, Key, key_of, Result, ok,
  err,
}
use fluxseer_rca.Api.Action.{AgentAction, RemediationPlan, phase_rejected}
use fluxseer_rca.Controllers.Flow.{
  Flow, Outcome, done, requeue, crashed, pure, leave, query, write, or_fail, or_ignore, ◌>>=◌, ◌>>◌,
  plan_saved, deleted,
}
use fluxseer_rca.Controllers.AgentAction.Env.{annotation_retain}
use fluxseer_rca.Controllers.AgentAction.Reconcile.{is_terminal}
use fluxseer_rca.Controllers.RemediationPlan.Env.{Env, now}

-- `hasRetainAnnotation`.
unfoldable pub has_retain_annotation : RemediationPlan → Bool
has_retain_annotation plan = not (is_none (lookup plan.meta.annotations annotation_retain))

-- `ownedByPlan`.
unfoldable pub owned_by_plan : RemediationPlan → AgentAction → Bool
owned_by_plan plan action =
    any (λ o. o.kind == "RemediationPlan" && o.name == plan.meta.name) action.meta.owner_references
    || action.meta.name == plan.meta.name +++ "-action"

-- The finish of an action that is over.
unfoldable pub terminal_finish : AgentAction → Option Time
terminal_finish action = if is_terminal action.status.phase then action.status.finished_at else none

abbrev pub later : Time → Time → Time
later t latest = if after t latest then t else latest

-- The loop over the plan's own actions: it stops at the first that is not over.
unfoldable pub latest_finish : Time → List AgentAction → Option Time
latest_finish latest [] = some latest
latest_finish latest (action ∷ actions) = elim (terminal_finish action) [
  | none ↦ none
  | some t ↦ latest_finish (later t latest) actions
]

abbrev pub unless_zero : Option Time → Option Time
unless_zero none = none
unless_zero (some t) = if is_zero_time t then none else some t

-- Without an action of its own the latest finish stays the zero time.
unfoldable pub finish_among : RemediationPlan → List AgentAction → Option Time
unfolding latest_finish
finish_among plan actions = unless_zero (latest_finish (pos 0) (keep (owned_by_plan plan) actions))

unfoldable pub plan_expires_at : RemediationPlan → Time → Time
plan_expires_at plan finished = add_time finished (seconds plan.spec.ttl_seconds)

-- Without a time to live, or retained, a plan is kept.
unfoldable pub is_kept : RemediationPlan → Bool
is_kept plan = not (ltb_ℤ (pos 0) plan.spec.ttl_seconds) || has_retain_annotation plan

module _ {W : Type 0} (env : Env W) where
  -- `terminalFinishedAt`: a rejected plan has no finish to find.
  unfoldable pub terminal_finished_at : RemediationPlan → Flow W (Option Time)
  unfolding finish_among
  terminal_finished_at plan =
      if plan.status.phase == phase_rejected
      then pure none
      else (query (env.list_actions plan.meta.namespace) >>= λ r.
          or_fail r >>= λ actions. pure (finish_among plan actions))

  store_finish : RemediationPlan → Option Time → Flow W RemediationPlan
  store_finish plan none = leave done
  store_finish plan (some t) = do
    let finished : RemediationPlan = record plan {
      status = record plan.status { finished_at = some t };
    }
    r ← query (env.update_plan_status finished)
    stored ← or_ignore r
    write (plan_saved finished)
    pure stored

  -- The plan with its finish; without one the reconciler returns.
  unfoldable pub finished_plan : RemediationPlan → Option Time → Flow W RemediationPlan
  unfolding store_finish terminal_finished_at
  finished_plan plan (some t) = pure plan
  finished_plan plan none = terminal_finished_at plan >>= store_finish plan

  delete : RemediationPlan → Flow W Outcome
  delete plan = do
    r ← query (env.delete_plan plan)
    or_ignore r
    write (deleted (key_of plan.meta))
    pure done

  unfoldable pub expire : RemediationPlan → Option Time → Flow W Outcome
  unfolding delete plan_expires_at
  expire plan none = leave crashed
  expire plan (some finished) = do
    t ← now env
    if not (before t (plan_expires_at plan finished))
        then delete plan
        else (now env >>= λ u. pure (requeue (sub_time (plan_expires_at plan finished) u)))

  unfoldable pub expire_finished : RemediationPlan → Flow W Outcome
  unfolding finished_plan expire
  expire_finished plan = do
    finished ← finished_plan plan plan.status.finished_at
    expire finished finished.status.finished_at

  -- `Reconcile` of the controller of the time to live.
  unfoldable pub reconcile_ttl : Key → Flow W Outcome
  unfolding is_kept expire_finished
  reconcile_ttl key = do
    r ← query (env.get_plan key)
    plan ← or_ignore r
    if is_kept plan then pure done else expire_finished plan
