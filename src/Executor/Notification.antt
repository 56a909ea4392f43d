-- ===== src/Executor/Notification.antt =====
-- `NotificationExecutor` (internal/executor/notification.go). The webhook is a parameter: what it
-- answers to a message, where its URL is set.
use fluxseer_rca.Base.{String, [], ◌∷◌, Option, none, some, false, ◌==◌, if◌then◌else◌, ◌+++◌}
use fluxseer_rca.Api.Meta.{Time, Error, read}
use fluxseer_rca.Domain.{outcome_succeeded}
use fluxseer_rca.Controllers.AgentAction.Env.{Message}
use fluxseer_rca.Executor.Contract.{ExecutorRequest}
use fluxseer_rca.Executor.Router.{Executed, Backend, no_result}

unfoldable pub channel_of : ExecutorRequest → String
channel_of action =
    let channel = read action.parameters "channel" in if channel == "" then "webhook" else channel

unfoldable pub notification_message : ExecutorRequest → String → Message
notification_message action summary = record {
  title = "FluxSeer RCA Notification";
  summary = summary;
  body = action.dry_run_result;
  fields =
      ("target", action.target.name)
      ∷ ("namespace", action.target.namespace)
      ∷ ("actionType", action.action_type)
      ∷ [];
}

module _ {W : Type 0} (clock : W → Time × W) where
  -- The clock is read again for the finish.
  unfoldable pub reported : ExecutorRequest → Time → String → W → Executed × W
  unfolding channel_of
  reported action started summary w =
      let (finished, w') = clock w in
      (
        record {
          result = record {
            execution_id = action.execution_id;
            outcome = outcome_succeeded;
            failure_reason = "";
            started_at = started;
            finished_at = finished;
            external_ref = "";
            retryable = false;
            executor = "notification-executor";
            status = "succeeded";
            summary = summary;
            outputs = ("channel", channel_of action) ∷ ("actionType", action.action_type) ∷ [];
          };
          error = none;
        },
        w',
      )

  answered : ExecutorRequest → Time → Option Error × W → Executed × W
  unfolding reported channel_of
  answered action started (some e, w) = (record { result = no_result; error = some e }, w)
  answered action started (none, w) =
      reported action started
        ("Webhook notification sent to " +++ channel_of action +++ " for " +++ action.target.name) w

  -- After the start; without a URL the notification is only simulated.
  unfoldable pub notify_webhook :
      Option (Message → W → Option Error × W) → ExecutorRequest → Time × W → Executed × W
  unfolding reported answered channel_of notification_message
  notify_webhook none action (started, w) =
      reported action started
        ("Simulated notification sent to " +++ channel_of action +++ " for " +++ action.target.name)
        w
  notify_webhook (some notify) action (started, w) = answered action started (
      notify
        (notification_message action (
          "Simulated notification sent to "
          +++ channel_of action
          +++ " for "
          +++ action.target.name))
        w)

  unfoldable pub notification_backend : Option (Message → W → Option Error × W) → Backend W
  unfolding notify_webhook
  notification_backend webhook = record {
    name = "notification-executor";
    execute = λ action w. notify_webhook webhook action (clock w);
    resolver = none;
    capturer = none;
    observer = none;
  }
