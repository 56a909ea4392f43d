-- ===== src/Classification/Levels.antt =====
-- Levels and tags (internal/dataclassification/classification.go).
pub mod Fixed
use fluxseer_rca.Base.{
  ℕ, String, List, [], ◌∷◌, Bool, true, false, ◌||◌, ◌&&◌, ◌==◌, ◌!=◌, Char, trim_space, to_lower,
  has_any_part, ltb, if◌then◌else◌,
}

abbrev pub level_public : String
level_public = "Public"

abbrev pub level_internal : String
level_internal = "Internal"

abbrev pub level_confidential : String
level_confidential = "Confidential"

abbrev pub level_restricted : String
level_restricted = "Restricted"

abbrev pub tag_credential_like : String
tag_credential_like = "CredentialLike"

abbrev pub tag_infrastructure_metadata : String
tag_infrastructure_metadata = "InfrastructureMetadata"

level_named : String → String → String
level_named key level =
    if key == "public"
    then level_public
    else if key == "internal" || key == ""
    then level_internal
    else if key == "confidential"
    then level_confidential
    else if key == "restricted"
    then level_restricted
    else trim_space level

rank_of : String → ℕ
rank_of key =
    if key == "public"
    then 0
    else if key == "internal"
    then 1
    else if key == "confidential"
    then 2
    else 3

tag_named : String → String → String
tag_named key tag =
    if key == "credentiallike" || key == "secretlike"
    then tag_credential_like
    else if key == "personaldata"
    then "PersonalData"
    else if key == "customerdata"
    then "CustomerData"
    else if key == "sourcecode"
    then "SourceCode"
    else if key == "infrastructuremetadata"
    then tag_infrastructure_metadata
    else if key == "securitysensitive"
    then "SecuritySensitive"
    else trim_space tag

module _ (beyond : Char → Char) where
  -- `NormalizeLevel`.
  unfoldable pub normalize_level : String → String
  unfolding level_named
  normalize_level level = level_named (to_lower beyond (trim_space level)) level

  -- `levelValue`: a level that is not known ranks as restricted.
  unfoldable pub level_value : String → ℕ
  unfolding rank_of
  level_value level = rank_of (to_lower beyond (normalize_level level))

  -- `CompareLevels(a, b) > 0`.
  unfoldable pub exceeds : String → String → Bool
  exceeds a b = ltb (level_value b) (level_value a)

  -- `NormalizeSensitivityTag`.
  unfoldable pub normalize_sensitivity_tag : String → String
  unfolding tag_named
  normalize_sensitivity_tag tag = tag_named (to_lower beyond (trim_space tag)) tag

  -- `LooksCredentialLike`.
  unfoldable pub looks_credential_like : String → Bool
  looks_credential_like text =
      has_any_part (to_lower beyond text)
        ("token=" ∷ "password=" ∷ "api_key" ∷ "apikey" ∷ "secret=" ∷ "bearer " ∷ [])
