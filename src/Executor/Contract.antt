-- ===== src/Executor/Contract.antt =====
-- The contract between the controllers and the executors (internal/executor/contract.go).
use Prim.Native.String.{len, slice}
use fluxseer_rca.Base.{ℕ, String, List, ℤ, ltb, starts_with, if◌then◌else◌, ◌+++◌}
use fluxseer_rca.Api.Meta.{StringMap, Time, Duration}
use fluxseer_rca.Domain.{ResourceRef}

pub record PolicySnapshot : Type 0 where
  pub reference : String
  pub version : String
  pub digest : String
  pub observed_generation : ℤ

pub record ExecutorRequest : Type 0 where
  pub execution_id : String
  pub idempotency_key : String
  pub action_digest : String
  pub action_type : String
  pub action_index : ℤ
  pub target : ResourceRef
  pub target_uid : String
  pub parameters : StringMap
  pub approved_policy_snapshot : PolicySnapshot
  pub approved_by : String
  pub dry_run_result : String
  pub rollback_plan : List String
  pub timeout : Duration
  pub attempt : ℤ

pub record IdentityInput : Type 0 where
  pub action_ref : String
  pub agent_action_uid : String
  pub generation : ℤ
  pub action_index : ℤ
  pub target : ResourceRef
  pub target_uid : String
  pub action_digest : String
  pub action_type : String
  pub parameters : StringMap

pub record ExecutionIdentity : Type 0 where
  pub execution_id : String
  pub idempotency_key : String

-- `strings.TrimPrefix`.
unfoldable pub trim_prefix : String → String → String
trim_prefix s prefix = if starts_with s prefix then slice s (len prefix) (len s) else s

-- `if len(s) > n { s = s[:n] }`.
unfoldable pub cut : ℕ → String → String
cut n s = if ltb n (len s) then slice s 0 n else s

-- `digest` stands for the canonical digest of the input, "sha256:" and hexadecimal digits.
unfoldable pub build_execution_identity :
    (IdentityInput → String) → IdentityInput → ExecutionIdentity
build_execution_identity digest input = record {
  execution_id = "exec-" +++ cut 32 (trim_prefix (digest input) "sha256:");
  idempotency_key = digest input;
}

pub record HealthCondition : Type 0 where
  pub type : String
  pub status : String
  pub reason : String
  pub message : String

pub record HealthSnapshot : Type 0 where
  pub generation : ℤ
  pub observed_generation : ℤ
  pub desired_replicas : ℤ
  pub updated_replicas : ℤ
  pub available_replicas : ℤ
  pub ready_replicas : ℤ
  pub conditions : List HealthCondition

pub record Baseline : Type 0 where
  pub captured_at : Time
  pub target : ResourceRef
  pub target_uid : String
  pub health : HealthSnapshot
  pub digest : String
