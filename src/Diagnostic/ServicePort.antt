-- ===== src/Diagnostic/ServicePort.antt =====
-- The diagnostic of a Service whose targetPort meets no container port
-- (internal/diagnostic/serviceport.go).
use fluxseer_rca.Base.{
  String, List, [], ◌∷◌, Option, none, some, Bool, true, false, ◌&&◌, ◌==◌, ◌!=◌, ◌++◌, trim_space,
  if◌then◌else◌, keep, map, sorted_set,
}
use fluxseer_rca.Api.Evidence.{EvidenceRef}
use fluxseer_rca.Controllers.Effectiveness.{equal_fold}
use fluxseer_rca.Diagnostic.Types.{
  Requirement, DiagnosticResult, claim_root_cause, status_supported, status_inconclusive,
  status_not_applicable,
}
use fluxseer_rca.Diagnostic.Evidence.{
  Observation, ServiceConfigurationObservation, EvidenceSet, MatchResult, Diagnostic,
  observation_type_service_configuration, target_uid,
}

abbrev is_confirmed : Option ServiceConfigurationObservation → Bool
is_confirmed none = false
is_confirmed (some c) = c.mismatch_confirmed

unfoldable pub is_mismatch_observation : Observation → Bool
is_mismatch_observation o =
    o.type == observation_type_service_configuration
    && (is_confirmed o.service_configuration && trim_space o.id != "")

unfoldable pub is_mismatch_ref : EvidenceRef → Bool
is_mismatch_ref r =
    equal_fold (trim_space r.kind) "serviceConfiguration"
    && (equal_fold (trim_space r.reason) "ServicePortMismatch" && trim_space r.id != "")

-- `servicePortEvidenceIDs`.
unfoldable pub service_port_evidence_ids : EvidenceSet → List String
unfolding is_mismatch_observation is_mismatch_ref
service_port_evidence_ids evidence = sorted_set (
    map (λ o. trim_space o.id) (keep is_mismatch_observation evidence.observations)
    ++ map (λ r. trim_space r.id) (keep is_mismatch_ref evidence.evidence_refs))

unfoldable pub match_ids : List String → String → MatchResult
match_ids [] target = record {
  applicable = false;
  reason = "no confirmed service-port mismatch evidence";
}
match_ids (id ∷ ids) target =
    if target == ""
    then record {
      applicable = false;
      reason = "service-port evidence has no single validated Pod scope";
    }
    else record { applicable = true; reason = "service-port mismatch evidence is present" }

abbrev pub mismatch_requirement : Requirement
mismatch_requirement = record {
  id = "service-port-mismatch-evidence";
  capability = "serviceConfiguration";
  description = "confirmed Service targetPort and resolved workload/container port evidence";
  required = true;
}

-- A result without claims.
abbrev without_claims : String → String → List Requirement → List String → DiagnosticResult
without_claims status summary missing warnings = record {
  diagnostic_id = "service-port";
  diagnostic_version = "v1";
  status = status;
  summary = summary;
  claims = [];
  missing_requirements = missing;
  warnings = warnings;
}

unfoldable pub evaluate_ids : List String → String → DiagnosticResult
evaluate_ids [] target =
    without_claims status_not_applicable
      "ServicePortDiagnostic did not find confirmed service-port mismatch evidence."
      (mismatch_requirement ∷ []) []
evaluate_ids (id ∷ ids) target =
    if target == ""
    then without_claims status_inconclusive
        "Service-port mismatch evidence is not scoped to one validated Pod." []
        ("a shared service configuration cannot be assigned to one Pod without a validated single-Pod scope"
          ∷ [])
    else record {
      diagnostic_id = "service-port";
      diagnostic_version = "v1";
      status = status_supported;
      summary =
          "Service-port configuration evidence matched a bounded targetPort/container-port mismatch; final verification remains separate.";
      claims =
          record {
            id = "service-port-mismatch";
            type = claim_root_cause;
            statement =
                "ServicePortMismatch is confirmed by Kubernetes Service targetPort and resolved workload/container port evidence.";
            target_uid = target;
            evidence_refs = id ∷ ids;
          }
          ∷ [];
      missing_requirements = [];
      warnings = [];
    }

-- `ServicePortDiagnostic`.
unfoldable pub service_port_diagnostic : Diagnostic
unfolding service_port_evidence_ids match_ids evaluate_ids
service_port_diagnostic = record {
  id = "service-port";
  version = "v1";
  match_evidence = λ e. match_ids (service_port_evidence_ids e) (target_uid e);
  requirements = λ e. mismatch_requirement ∷ [];
  evaluate = λ e. evaluate_ids (service_port_evidence_ids e) (target_uid e);
}
