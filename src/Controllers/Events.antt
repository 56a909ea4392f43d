-- ===== src/Controllers/Events.antt =====
-- The Kubernetes Event of a phase transition (internal/controllers/agentaction_controller.go).
use fluxseer_rca.Base.{String, Bool, ◌==◌, ◌||◌, if◌then◌else◌, ◌+++◌}
use fluxseer_rca.Controllers.Flow.{Flow, pure, write, event}

pub record TransitionEvent : Type 0 where
  pub type : String
  pub reason : String
  pub message : String

abbrev pub normal : String
normal = "Normal"

abbrev pub warning : String
warning = "Warning"

abbrev transition : String → String → TransitionEvent
transition reason message = record { type = normal; reason = reason; message = message }

abbrev alarm : String → String → TransitionEvent
alarm reason message = record { type = warning; reason = reason; message = message }

-- The key of the switch.
abbrev pub arrow : String → String → String
arrow from to = from +++ "→" +++ to

unfoldable pub known_transition : (String → String) → String → String → String → TransitionEvent
known_transition quote key from to =
    if key == "→WaitingApproval"
    then transition "ApprovalRequired" "AgentAction is waiting for approval"
    else if key == "→Approved"
    then transition "ApprovalGranted" "AgentAction has been approved"
    else if key == "→Rejected"
    then alarm "ApprovalDenied" "AgentAction was rejected by guardrails"
    else if key == "Approved→Executing" || key == "WaitingApproval→Executing"
    then transition "ExecutionStarted" "AgentAction is now executing"
    else if key == "WaitingApproval→Escalated"
    then alarm "EscalationTriggered" "AgentAction approval timeout reached; escalating for review"
    else if key == "Executing→Succeeded"
    then transition "ExecutionSucceeded" "AgentAction execution completed successfully"
    else if key == "Executing→Failed"
    then alarm "ExecutionFailed" "AgentAction execution failed"
    else transition "PhaseTransition" ("phase changed from " +++ quote from +++ " to " +++ quote to)

abbrev no_event : TransitionEvent
no_event = record { type = ""; reason = ""; message = "" }

unfoldable pub phase_transition_event : (String → String) → String → String → TransitionEvent
unfolding known_transition
phase_transition_event quote original_phase new_phase =
    if original_phase == new_phase
    then no_event
    else known_transition quote (arrow original_phase new_phase) original_phase new_phase

-- `recordPhaseTransition`, of a reconciler with or without an event recorder.
abbrev pub emit_transition :
    {W : Type 0} → Bool → (String → String) → String → String → Flow W (Unit {0})
emit_transition has_recorder quote from to =
    let e = phase_transition_event quote from to in
    if has_recorder
    then (if from == to || e.reason == "" then pure tt else write (event e.type e.reason e.message))
    else pure tt
