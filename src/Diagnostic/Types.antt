-- ===== src/Diagnostic/Types.antt =====
-- What diagnostics exchange (internal/diagnostic/types.go, accounting.go).
use fluxseer_rca.Base.{ℕ, String, List, Bool}
use fluxseer_rca.Api.Meta.{Time}

abbrev pub claim_observation : String
claim_observation = "Observation"

abbrev pub claim_failure_mechanism : String
claim_failure_mechanism = "FailureMechanism"

abbrev pub claim_root_cause : String
claim_root_cause = "RootCause"

abbrev pub status_supported : String
status_supported = "Supported"

abbrev pub status_inconclusive : String
status_inconclusive = "Inconclusive"

abbrev pub status_not_applicable : String
status_not_applicable = "NotApplicable"

pub record Requirement : Type 0 where
  pub id : String
  pub capability : String
  pub description : String
  pub required : Bool

pub record CandidateClaim : Type 0 where
  pub id : String
  pub type : String
  pub statement : String
  pub target_uid : String
  pub evidence_refs : List String

abbrev pub coverage_unavailable : String
coverage_unavailable = "Unavailable"

abbrev pub coverage_truncated : String
coverage_truncated = "Truncated"

abbrev pub coverage_unauthorized : String
coverage_unauthorized = "Unauthorized"

abbrev pub coverage_collection_failed : String
coverage_collection_failed = "CollectionFailed"

pub record SchedulingObservation : Type 0 where
  pub id : String
  pub pod_uid : String
  pub pod_namespace : String
  pub pod_name : String
  pub source : String
  pub event_pod_uid : String
  pub phase : String
  pub node_name : String
  pub pod_scheduled_status : String
  pub pod_scheduled_reason : String
  pub pod_scheduled_message : String
  pub scheduling_gates : List String
  pub event_reason : String
  pub event_message : String
  pub evidence_refs : List String
  pub collected_at : Time
  pub incident_start : Time
  pub incident_end : Time
  pub coverage : String
  pub coverage_reason : String
  pub state_collected : Bool
  pub truncated : Bool
  pub stale : Bool

pub record DiagnosticResult : Type 0 where
  pub diagnostic_id : String
  pub diagnostic_version : String
  pub status : String
  pub summary : String
  pub claims : List CandidateClaim
  pub missing_requirements : List Requirement
  pub warnings : List String

pub record EvidenceIdentity : Type 0 where
  pub id : String
  pub target_uid : String
  pub incident_start : Time
  pub incident_end : Time
  pub authorized : Bool
  pub valid : Bool
  pub incomplete : Bool

pub record CandidateRecord : Type 0 where
  pub diagnostic_id : String
  pub diagnostic_version : String
  pub incident_start : Time
  pub incident_end : Time
  pub candidate : CandidateClaim
  pub evidence : List EvidenceIdentity

pub record CandidateResolution : Type 0 where
  pub candidate_id : String
  pub candidate_fingerprint : String
  pub claim_fingerprint : String
  pub disposition : String
  pub canonical_claim_id : String
  pub duplicate_of : String
  pub reason : String

-- The coverage is 0 or 1.
pub record DispositionSummary : Type 0 where
  pub total : ℕ
  pub proposed_claim_count : ℕ
  pub retained_hypothesis_count : ℕ
  pub rejected_candidate_count : ℕ
  pub deduplicated_count : ℕ
  pub disposition_coverage : ℕ
  pub coverage_known : Bool

pub record AccountingResult : Type 0 where
  pub resolutions : List CandidateResolution
  pub summary : DispositionSummary
