-- ===== src/Api/Evidence.antt =====
-- References to evidence (api/v1alpha1/types.go).
use fluxseer_rca.Base.{String, List, Option, Bool, ℤ}
use fluxseer_rca.Api.Meta.{Time, TargetRef}

pub record DataClassification : Type 0 where
  pub level : String
  pub sensitivity_tags : List String
  pub source : String
  pub policy_version : String

pub record PayloadRef : Type 0 where
  pub scheme : String
  pub digest : String
  pub encrypted : Bool
  pub expires_at : Option Time
  pub retention_class : String

pub record EvidenceRef : Type 0 where
  pub id : String
  pub kind : String
  pub source : String
  pub summary : String
  pub query : String
  pub query_digest : String
  pub content_digest : String
  pub digest_algorithm : String
  pub digest_canonicalization : String
  pub redaction_profile : String
  pub classification : Option DataClassification
  pub truncated : Bool
  pub truncation_reason : String
  pub limit_dimension : String
  pub limit : ℤ
  pub original_count : ℤ
  pub retained_count : ℤ
  pub original_bytes : ℤ
  pub retained_bytes : ℤ
  pub collected_at : Option Time
  pub payload_ref : Option PayloadRef
  pub reason : String
  pub link : String
  pub related_targets : List TargetRef
