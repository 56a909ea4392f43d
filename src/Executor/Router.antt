-- ===== src/Executor/Router.antt =====
-- `Router` picks the backend of an action (internal/executor/router.go). `W` is the world outside:
-- a call returns what it answers and the world after it.
use fluxseer_rca.Base.{
  String, [], Option, none, some, Bool, false, pos, starts_with, ◌||◌, if◌then◌else◌, ◌+++◌,
}
use fluxseer_rca.Api.Meta.{Result, ok, err, Error, other}
use fluxseer_rca.Domain.{ExecutionResult}
use fluxseer_rca.Executor.Contract.{ExecutorRequest, HealthSnapshot, Baseline}

-- `Execute` returns a result beside its error.
pub record Executed : Type 0 where
  pub result : ExecutionResult
  pub error : Option Error

-- The other calls answer `none` where they find nothing.
abbrev pub Answer : Type 0 → Type 0
Answer A = Result (Option A)

-- An `Executor`, with the optional interfaces that the router asks for by type assertions.
pub record Backend (W : Type 0) : Type 0 where
  pub name : String
  pub execute : ExecutorRequest → W → Executed × W
  pub resolver : Option (ExecutorRequest → W → Answer ExecutionResult × W)
  pub capturer : Option (ExecutorRequest → W → Answer Baseline × W)
  pub observer : Option (ExecutorRequest → W → Answer HealthSnapshot × W)

pub record Router (W : Type 0) : Type 0 where
  pub kubernetes : Backend W
  pub gitops : Backend W
  pub runbook : Backend W
  pub notify : Backend W

abbrev pub no_result : ExecutionResult
no_result = record {
  execution_id = "";
  outcome = "";
  failure_reason = "";
  started_at = pos 0;
  finished_at = pos 0;
  external_ref = "";
  retryable = false;
  executor = "";
  status = "";
  summary = "";
  outputs = [];
}

-- The action types that have a backend, and the error for the others.
unfoldable pub is_routed : String → Bool
is_routed action_type =
    starts_with action_type "kubernetes."
    || (starts_with action_type "gitops."
        || (starts_with action_type "runbook." || starts_with action_type "notification."))

unfoldable pub unrouted : (String → String) → String → Error
unrouted quote action_type = other ("no executor registered for action type " +++ quote action_type)

module _ {W : Type 0} where
  unfoldable pub executor_for : (String → String) → Router W → String → Result (Backend W)
  unfolding unrouted
  executor_for quote r action_type =
      if starts_with action_type "kubernetes."
      then ok r.kubernetes
      else if starts_with action_type "gitops."
      then ok r.gitops
      else if starts_with action_type "runbook."
      then ok r.runbook
      else if starts_with action_type "notification."
      then ok r.notify
      else err (unrouted quote action_type)

  unfoldable pub execute_on : Result (Backend W) → ExecutorRequest → W → Executed × W
  execute_on (err e) request w = (record { result = no_result; error = some e }, w)
  execute_on (ok backend) request w = backend.execute request w

  unfoldable pub execute : (String → String) → Router W → ExecutorRequest → W → Executed × W
  unfolding execute_on
  execute quote r request w = execute_on (executor_for quote r request.action_type) request w

  abbrev pub ask :
      {A : Type 0}
      → Option (ExecutorRequest → W → Answer A × W)
      → ExecutorRequest
      → W
      → Answer A × W
  ask none request w = (ok none, w)
  ask (some call) request w = call request w

  abbrev pub ask_backend :
      {A : Type 0}
      → Result (Backend W)
      → (Backend W → Option (ExecutorRequest → W → Answer A × W))
      → ExecutorRequest
      → W
      → Answer A × W
  ask_backend (err e) part request w = (err e, w)
  ask_backend (ok backend) part request w = ask (part backend) request w

  unfoldable pub resolve :
      (String → String) → Router W → ExecutorRequest → W → Answer ExecutionResult × W
  resolve quote r request =
      ask_backend (executor_for quote r request.action_type) (λ b. b.resolver) request

  unfoldable pub capture_baseline :
      (String → String) → Router W → ExecutorRequest → W → Answer Baseline × W
  capture_baseline quote r request =
      ask_backend (executor_for quote r request.action_type) (λ b. b.capturer) request

  unfoldable pub observe_health :
      (String → String) → Router W → ExecutorRequest → W → Answer HealthSnapshot × W
  observe_health quote r request =
      ask_backend (executor_for quote r request.action_type) (λ b. b.observer) request
