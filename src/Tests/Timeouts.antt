-- ===== src/Tests/Timeouts.antt =====
-- What happens when the time of an action is over, on concrete inputs.
use fluxseer_rca.Base.{◌↔◌, String, [], ◌∷◌, none, some, true, false, ◌≡◌, refl, ◌⊎◌, pos}
use fluxseer_rca.Controllers.AgentAction.Env.{Env}
use fluxseer_rca.Api.Meta.{Time, key_of, add_time, seconds}
use fluxseer_rca.Api.Action.{AgentAction}
use fluxseer_rca.Controllers.Flow.{deleted}
use fluxseer_rca.Controllers.AgentAction.Ttl.Expiry.{IsExpired}
use fluxseer_rca.Controllers.AgentAction.Reconcile.Expiry.{reconcile-IsExpired}
use fluxseer_rca.Controllers.AgentAction.Reconcile.{reconcile, is_terminal, verifying}
use fluxseer_rca.Tests.Worlds.{World, approval_of, action_with, env, start_of, action_key}
use fluxseer_rca.Controllers.Flow.{◌>>=◌, query, or_ignore, write}
use fluxseer_rca.Api.Meta.{lookup}
use fluxseer_rca.Controllers.AgentAction.Ttl.{reconcile_terminal_state_ttl}

abbrev current_digest : String
current_digest = "kubernetes.rolloutRestart/web"

abbrev approved_action : AgentAction
approved_action = action_with (approval_of true current_digest)

abbrev waiting_action : AgentAction
waiting_action = action_with (approval_of false current_digest)

abbrev notifying : Env World
notifying = record env { notifier = some (λ m w. (none, w)) }

-- The deadline of the waiting action is 300 seconds after its status was written.
abbrev after_deadline : Time
after_deadline = pos 300_000_000_501

abbrev finished_action : AgentAction
finished_action = record approved_action {
  status = record approved_action.status {
    resource = record approved_action.status.resource { phase = "Succeeded" };
    finished_at = some (pos 900);
  };
}

-- The time to live of the action is 60 seconds.
abbrev a_minute_later : Env World
a_minute_later = record env { clock = λ w. (pos 60_000_000_901, w) }

expired_test :
    (reconcile a_minute_later action_key (start_of finished_action)).1.log
    ≡ deleted (key_of finished_action.meta) ∷ []
unfolding reconcile ◌>>=◌ query or_ignore is_terminal reconcile_terminal_state_ttl lookup add_time
    seconds write
expired_test = refl

finished_terminal : is_terminal finished_action.status.phase ≡ true
unfolding is_terminal
finished_terminal = refl

finished_verified : verifying finished_action.status.effectiveness ≡ none
unfolding verifying
finished_verified = refl

reconcile-IsExpired_example :
    (((reconcile a_minute_later action_key (start_of finished_action)).1.log ≡ [])
      ⊎ ((reconcile a_minute_later action_key (start_of finished_action)).1.log
          ≡ (deleted (key_of finished_action.meta) ∷ [])))
    × (((reconcile a_minute_later action_key (start_of finished_action)).1.log
          ≡ (deleted (key_of finished_action.meta) ∷ []))
        ↔ IsExpired a_minute_later finished_action
            (pos 60_000_000_901)
            (start_of finished_action).world)
reconcile-IsExpired_example =
    reconcile-IsExpired a_minute_later action_key (start_of finished_action) finished_action refl
      finished_terminal finished_verified
