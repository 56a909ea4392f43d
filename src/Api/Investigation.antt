-- ===== src/Api/Investigation.antt =====
-- The parts of an InvestigationRequest that the remediation controllers write and read
-- (api/v1alpha1/investigationrequest_types.go).
use fluxseer_rca.Base.{String, List, Option, Bool}
use fluxseer_rca.Api.Meta.{ObjectMeta, TargetRef, NamespacedObjectReference, Duration}

pub record InvestigationCorrelation : Type 0 where
  pub agent_action_ref : NamespacedObjectReference
  pub execution_id : String
  pub baseline_digest : String

pub record InvestigationQuery : Type 0 where
  pub name : String
  pub datasource_ref : String
  pub query_type : String
  pub query : String
  pub query_template : String
  pub reasons : List String

pub record InvestigationRequestSpec : Type 0 where
  pub target : TargetRef
  pub purpose : String
  pub correlation : Option InvestigationCorrelation
  pub lookback : Duration
  pub question : String
  pub queries : List InvestigationQuery
  pub mode : String
  pub create_risk_signal : Bool
  pub profile : String

pub record InvestigationRequest : Type 0 where
  pub meta : ObjectMeta
  pub spec : InvestigationRequestSpec
  pub phase : String
  pub outcome : String

abbrev pub investigation_no_issue_found : String
investigation_no_issue_found = "NoIssueFound"

abbrev pub investigation_confirmed : String
investigation_confirmed = "Confirmed"

abbrev pub investigation_inconclusive : String
investigation_inconclusive = "Inconclusive"

abbrev pub investigation_unknown : String
investigation_unknown = "Unknown"

pub record RcaEvidenceLink : Type 0 where
  pub evidence_ref : String
  pub role : String
  pub strength : String

pub record RcaClaim : Type 0 where
  pub id : String
  pub statement : String
  pub evidence_refs : List String
  pub evidence_links : List RcaEvidenceLink
  pub verification : String
