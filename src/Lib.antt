-- ===== src/Lib.antt =====
-- FluxSeer RCA: the part that decides on, executes and verifies remediation actions.
--
-- A RemediationPlan asks for actions. The guardrails (internal/guardrails) decide on each one:
-- approved automatically, to be approved by a human, or rejected; the decision is stored in the
-- status of an AgentAction, beside the digest of the content that was judged. The reconciler of
-- AgentActions (internal/controllers/agentaction_controller.go) waits for the approval, escalates
-- when it takes too long (internal/escalation), captures the health of the target, stores the
-- identity of the execution, sends the action to an executor (internal/executor), and later judges
-- by an investigation and the new health whether it helped (internal/controllers/effectiveness.go).
--
-- Beside it stand parts that the investigations rest on: the accounting of the claims that
-- deterministic diagnostics propose (internal/diagnostic), the classification of evidence and what
-- of it a model provider may be sent (internal/dataclassification), and the budget of the status of
-- an investigation (internal/statusbudget).
--
-- The files:
--   Base            what the modules share: integers with Go's wrap-around, texts, lists, sorting
--   Api             api/v1alpha1: the resources, as records
--   Domain          internal/domain/types.go
--   Guardrails      Engine: Engine.Evaluate (engine.go); Policy and Resolve: PolicyEngine
--                   (policy_engine.go); Decisions, Rules, Selection, AutoApproval: proofs
--   Executor        Contract: contract.go; Router: the Router of router.go; Kubernetes and Restart:
--                   KubernetesExecutor; Simulated: GitOpsExecutor and RunbookExecutor;
--                   Notification: notification.go; Coherence, Sends, Recovery, Uncertain: proofs
--   Escalation      Router: internal/escalation/router.go; Selection: proofs
--   Thresholds      Enforcer: internal/thresholds/enforcer.go; Limits: proofs
--   Controllers     Flow: the state and the early returns of a reconciler; Triples: its Hoare
--                   triples; Events and Equality: phaseTransitionEvent, statusChangedAction and
--                   statusChangedPlan; Effectiveness: evaluateEffectiveness; AgentAction: the
--                   reconciler, a child for each part (Approval, Pending; Execution, Baseline,
--                   Statuses: what is stored and sent; Outcomes: recordExecutionSuccess; Inquiry,
--                   Verification, Ttl, Reconcile, Watches), their proofs in children of these;
--                   Dispatches: what the log tells; RemediationPlan: the reconciler of plans
--                   (remediationplan_controller.go): Derive, Admission, Statuses, Reconcile, and
--                   Ttl (remediationplan_ttl_controller.go). A Protocol, of waiting actions
--                   (AgentAction.Pending) and of plans, is the order of the effects as a step
--                   relation
--   StatusBudget    Limits: internal/statusbudget/limits.go; Truncation, Trimming, Enforcement:
--                   proofs
--   Classification  Levels, Bundle, Egress: internal/dataclassification/classification.go, with
--                   their proofs in children
--   Diagnostic      Types: types.go of internal/diagnostic; Candidates and Accounting:
--                   accounting.go; Accounted and Proposed: proofs; Evidence: what the
--                   diagnostics read; Scheduling, ImagePull, ServicePort, Planner: the files
--                   of these names, with the proofs of two in children
--   Tests           the theorems at concrete inputs
--
-- How the code is rendered. A struct is a record, a pointer an Option, a map an association list (a
-- nil map is empty), a slice a list. An int32 or int64 is an integer that wraps around where the
-- code computes with it; an instant is a number of nanoseconds since Go's zero time, a Duration an
-- int64 of nanoseconds, whose product with a second wraps and whose difference saturates. A Go
-- string is a text; lengths and cuts are those of ASCII texts, as the names and digests are that
-- the code cuts, but for StatusBudget, which counts the bytes of UTF-8. A function that returns (T,
-- error) returns a Result; where a result comes beside the error and is used, both are kept
-- (Executed). A reconciler is a Flow: it threads the world and a log of its effects (statuses
-- saved, requests dispatched, objects deleted, events), newest first, and may return early; a nil
-- dereference is the outcome `crashed`. A status is logged as it was sent; the object that the
-- server returned is used from there on, except for the deadline of the settling time, which is the
-- one computed. Loops are structural recursion, but for the trimming of a status, which runs on
-- fuel: one more than its references and claims, which is enough since every round sheds one of
-- them.
--
-- Parameters. What the Go code only calls is an argument: the API server, the clock, the
-- notifier (Env and KubernetesClient over an abstract world W), label selectors (Selects), the
-- verb %q (quote) and the lower case of letters beyond ASCII (beyond); so are the canonical
-- digests, which internal/canonicaldigest computes by SHA-256 over JSON (Digests), the size of the
-- JSON of a status, and the comparison of two instants by their text (same_instant). Lists of plans
-- and actions of the namespace "" are those of all namespaces.
-- IsCoherent states what is asked of the API server for a restart to be recoverable: an answered
-- patch is what the next read returns, and nothing else is patched in between. A client that reads
-- from a stale cache does not keep to it.
--
-- Not modelled: the investigations and the rules that start them, the adapters of data sources,
-- models and notifiers, the registration of watches, metrics (a counter of update conflicts among
-- them), the command line.
-- The router's four backends are taken as present.
pub mod Base
pub mod Api
pub mod Domain
pub mod Guardrails
pub mod Executor
pub mod Escalation
pub mod Controllers
pub mod Tests
pub mod Thresholds
pub mod StatusBudget
pub mod Classification
pub mod Diagnostic
