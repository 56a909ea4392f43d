-- ===== src/Diagnostic/Evidence.antt =====
-- The evidence that the diagnostics read, and what they share (internal/diagnostic/types.go and
-- imagepull.go, internal/domain/types.go, internal/scope/resolver.go).
use fluxseer_rca.Base.{String, List, [], ◌∷◌, Option, none, some, Bool, if◌then◌else◌, trim_space}
use fluxseer_rca.Api.Meta.{Time}
use fluxseer_rca.Api.Evidence.{EvidenceRef}
use fluxseer_rca.Diagnostic.Types.{SchedulingObservation, Requirement, DiagnosticResult}

abbrev pub observation_type_event : String
observation_type_event = "event"

abbrev pub observation_type_service_configuration : String
observation_type_service_configuration = "serviceConfiguration"

pub record EventObservation : Type 0 where
  pub reason : String
  pub message : String

-- The field of a ServiceConfigurationObservation that the diagnostics read.
pub record ServiceConfigurationObservation : Type 0 where
  pub mismatch_confirmed : Bool

-- The fields of an Observation that the diagnostics read, its value's among them.
pub record Observation : Type 0 where
  pub id : String
  pub type : String
  pub event : Option EventObservation
  pub service_configuration : Option ServiceConfigurationObservation
  pub summary : String
  pub truncated : Bool

-- Of a scope: the UIDs of the Deployment and of the Pods.
pub record ScopeResult : Type 0 where
  pub deployment_uid : String
  pub pod_uids : List String
  pub complete : Bool

pub record EvidenceSet : Type 0 where
  pub observations : List Observation
  pub evidence_refs : List EvidenceRef
  pub scheduling : List SchedulingObservation
  pub scope : ScopeResult
  pub incident_start : Time
  pub incident_end : Time

pub record MatchResult : Type 0 where
  pub applicable : Bool
  pub reason : String

-- The interface `Diagnostic`.
pub record Diagnostic : Type 0 where
  pub id : String
  pub version : String
  pub match_evidence : EvidenceSet → MatchResult
  pub requirements : EvidenceSet → List Requirement
  pub evaluate : EvidenceSet → DiagnosticResult

abbrev only_uid : List String → String
only_uid [] = ""
only_uid (uid ∷ []) = trim_space uid
only_uid (uid ∷ other ∷ uids) = ""

-- `imagePullTargetUID` and `servicePortTargetUID`: the UID of the only Pod of a complete scope.
unfoldable pub target_uid : EvidenceSet → String
target_uid evidence = if evidence.scope.complete then only_uid evidence.scope.pod_uids else ""

-- `eventReason`.
abbrev pub event_reason : Observation → String
event_reason o = elim o.event [ none ↦ "" | some e ↦ e.reason ]

-- `eventMessage`.
abbrev pub event_message : Observation → String
event_message o = elim o.event [ none ↦ "" | some e ↦ e.message ]
