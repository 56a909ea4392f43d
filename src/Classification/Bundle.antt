-- ===== src/Classification/Bundle.antt =====
-- The classification of one observation, of several, and of a bundle of evidence
-- (internal/dataclassification/classification.go).
pub mod Bounds
use fluxseer_rca.Base.{
  String, List, [], ◌∷◌, ◌++◌, Option, none, some, Bool, true, false, ◌&&◌, ◌||◌, ◌==◌, ◌!=◌, Char,
  trim_space, trim_suffix, to_lower, if◌then◌else◌, keep, map, sorted_set,
}
use fluxseer_rca.Api.Evidence.{DataClassification, EvidenceRef}
use fluxseer_rca.Classification.Levels.{
  level_internal, level_confidential, level_restricted, tag_credential_like,
  tag_infrastructure_metadata, normalize_level, exceeds, normalize_sensitivity_tag,
  looks_credential_like,
}

abbrev pub source_default : String
source_default = "Default"

abbrev pub source_inherited : String
source_inherited = "Inherited"

abbrev pub source_content_detection : String
source_content_detection = "ContentDetection"

abbrev pub policy_version : String
policy_version = "fluxseer-rca-data-classification-v1"

abbrev pub query_type_log : String
query_type_log = "log"

-- What `Merge` starts from; with it, the tags as they were met.
abbrev pub unclassified : DataClassification
unclassified = record {
  level = level_internal;
  sensitivity_tags = [];
  source = source_default;
  policy_version = policy_version;
}

abbrev pub not_empty : String → Bool
not_empty s = s != ""

default_level : String → String
default_level query_type =
    if query_type == query_type_log then level_confidential else level_internal

query_type_named : String → String
query_type_named kind =
    if kind == "metric"
    then "metric"
    else if kind == "log"
    then query_type_log
    else if kind == "event" || kind == "kubernetesevent"
    then "event"
    else if kind == "deploymentcondition"
    then "deploymentCondition"
    else if kind == "serviceconfiguration"
    then "serviceConfiguration"
    else if kind == "probeconfiguration"
    then "probeConfiguration"
    else "event"

module _ (beyond : Char → Char) where
  -- The tags that count: without the empty ones.
  unfoldable pub tags_of : List String → List String
  tags_of tags = keep not_empty (map (normalize_sensitivity_tag beyond) tags)

  unfoldable pub merge_level : String → String → String
  merge_level out level =
      if trim_space level != "" && exceeds beyond level out
      then normalize_level beyond level
      else out

  unfoldable pub merge_item : DataClassification → DataClassification → DataClassification
  unfolding merge_level tags_of
  merge_item out item = record {
    level = merge_level out.level item.level;
    sensitivity_tags = out.sensitivity_tags ++ tags_of item.sensitivity_tags;
    source =
        if trim_space item.source != "" && item.source != source_default
        then item.source
        else out.source;
    policy_version =
        if trim_space item.policy_version != "" then item.policy_version else out.policy_version;
  }

  unfoldable pub merge_items : DataClassification → List DataClassification → DataClassification
  unfolding merge_item
  merge_items out [] = out
  merge_items out (item ∷ items) = merge_items (merge_item out item) items

  -- `Merge`: the tags become a set, sorted.
  unfoldable pub merge : List DataClassification → DataClassification
  unfolding merge_items
  merge items =
      let out = merge_items unclassified items in
      record out { sensitivity_tags = sorted_set out.sensitivity_tags }

  -- `DefaultForObservation`.
  unfoldable pub default_for_observation : String → String → DataClassification
  unfolding default_level
  default_for_observation query_type text =
      let base : DataClassification = record {
        level = default_level query_type;
        sensitivity_tags = tag_infrastructure_metadata ∷ [];
        source = source_default;
        policy_version = policy_version;
      } in
      if looks_credential_like beyond text
      then record (merge (
          base
          ∷ record {
            level = level_restricted;
            sensitivity_tags = tag_credential_like ∷ [];
            source = source_content_detection;
            policy_version = policy_version;
          }
          ∷ [])) { source = source_content_detection }
      else base

  -- `queryTypeForKind`.
  unfoldable pub query_type_for_kind : String → String
  unfolding query_type_named
  query_type_for_kind kind =
      query_type_named (trim_suffix (to_lower beyond (trim_space kind)) "observation")

  -- `DefaultForEvidenceKind`.
  unfoldable pub default_for_evidence_kind : String → String → DataClassification
  default_for_evidence_kind kind text = default_for_observation (query_type_for_kind kind) text

  classified : EvidenceRef → Option DataClassification → DataClassification
  classified ref (some c) = c
  classified ref none = default_for_evidence_kind ref.kind ref.summary

  -- Its own classification, or the default of its kind.
  unfoldable pub classification_of : EvidenceRef → DataClassification
  unfolding classified
  classification_of ref = classified ref ref.classification

  -- `BundleClassification`.
  unfoldable pub bundle_classification : List EvidenceRef → DataClassification
  bundle_classification [] = unclassified
  bundle_classification (ref ∷ refs) = record (merge (map classification_of (ref ∷ refs))) {
    source = source_inherited;
  }
