-- ===== src/Controllers/Effectiveness.antt =====
-- `evaluateEffectiveness`: did the action help (internal/controllers/effectiveness.go)?
pub mod Verdict
use fluxseer_rca.Base.{
  ℕ, String, List, [], ◌∷◌, Option, none, some, Bool, true, false, not, ◌&&◌, ◌||◌, ◌==◌, ◌!=◌, ◌+◌,
  ℤ, pos, ltb_ℤ, eqb_ℤ, ltb, leb, eqb, if◌then◌else◌, map, codes, lex_lt, any, ◌≡◌, ◌≢◌, ◌↔◌, refl,
  Bool-cases, inl, inr,
}
use fluxseer_rca.Api.Action.{
  EffectivenessBaseline, EffectivenessHealthSnapshot, EffectivenessHealthCondition,
}
use fluxseer_rca.Api.Investigation.{
  InvestigationRequest, investigation_no_issue_found, investigation_confirmed,
  investigation_inconclusive, investigation_unknown,
}
use fluxseer_rca.Executor.Contract.{HealthCondition, HealthSnapshot}

pub record EffectivenessEvaluation : Type 0 where
  pub outcome : String
  pub message : String

abbrev pub outcome_effective : String
outcome_effective = "Effective"

abbrev pub outcome_ineffective : String
outcome_ineffective = "Ineffective"

abbrev pub outcome_inconclusive : String
outcome_inconclusive = "Inconclusive"

abbrev pub outcome_regressed : String
outcome_regressed = "Regressed"

abbrev progress_deadline_exceeded : String
progress_deadline_exceeded = "ProgressDeadlineExceeded"

-- The least member of a character's case orbit, where the orbit meets ASCII.
fold_code : ℕ → ℕ
fold_code c =
    if leb 65 c && leb c 90
    then c + 32
    else if eqb c 0x17F
    then 115
    else if eqb c 0x212A
    then 107
    else c

same_codes : List ℕ → List ℕ → Bool
same_codes [] [] = true
same_codes [] (_ ∷ _) = false
same_codes (_ ∷ _) [] = false
same_codes (c ∷ cs) (d ∷ ds) = eqb (fold_code c) (fold_code d) && same_codes cs ds

-- `strings.EqualFold` against an ASCII text.
unfoldable pub equal_fold : String → String → Bool
unfolding same_codes fold_code
equal_fold s t = same_codes (codes s) (codes t)

-- `map[string]executor.HealthCondition`: the last condition of a type counts, and a missing one is
-- empty.
condition_of : List EffectivenessHealthCondition → String → HealthCondition → HealthCondition
condition_of [] type found = found
condition_of (c ∷ cs) type found = condition_of cs type (
    if c.type == type
    then record { type = c.type; status = c.status; reason = c.reason; message = c.message }
    else found)

abbrev no_condition : HealthCondition
no_condition = record { type = ""; status = ""; reason = ""; message = "" }

unfoldable pub baseline_condition : EffectivenessHealthSnapshot → String → HealthCondition
unfolding condition_of
baseline_condition baseline type = condition_of baseline.conditions type no_condition

unfoldable pub is_failing : HealthCondition → Bool
is_failing c =
    (c.type == "Available" && c.status == "False")
    || (c.type == "Progressing" && c.status == "False")

-- `healthIsHealthy`.
unfoldable pub health_is_healthy : HealthSnapshot → Bool
health_is_healthy s =
    if not (ltb_ℤ (pos 0) s.desired_replicas)
    then true
    else if ltb_ℤ s.available_replicas s.desired_replicas
        || (ltb_ℤ s.ready_replicas s.desired_replicas
            || ltb_ℤ s.updated_replicas s.desired_replicas)
    then false
    else if ltb_ℤ (pos 0) s.generation && ltb_ℤ s.observed_generation s.generation
    then false
    else not (any is_failing s.conditions)

abbrev pub condition_from_api : EffectivenessHealthCondition → HealthCondition
condition_from_api c = record {
  type = c.type;
  status = c.status;
  reason = c.reason;
  message = c.message;
}

abbrev pub snapshot_from_api : EffectivenessHealthSnapshot → HealthSnapshot
snapshot_from_api s = record {
  generation = s.generation;
  observed_generation = s.observed_generation;
  desired_replicas = s.desired_replicas;
  updated_replicas = s.updated_replicas;
  available_replicas = s.available_replicas;
  ready_replicas = s.ready_replicas;
  conditions = map condition_from_api s.conditions;
}

-- `healthSnapshotIsHealthy`.
unfoldable pub health_snapshot_is_healthy : EffectivenessHealthSnapshot → Bool
unfolding health_is_healthy
health_snapshot_is_healthy s = health_is_healthy (snapshot_from_api s)

-- `healthImproved`.
unfoldable pub health_improved : EffectivenessHealthSnapshot → HealthSnapshot → Bool
unfolding health_is_healthy health_snapshot_is_healthy
health_improved baseline post =
    if health_is_healthy post && not (health_snapshot_is_healthy baseline)
    then true
    else ltb_ℤ baseline.available_replicas post.available_replicas
      || (ltb_ℤ baseline.ready_replicas post.ready_replicas
          || ltb_ℤ baseline.updated_replicas post.updated_replicas)

-- The condition fails now, and did not fail so before the action.
unfoldable pub is_new_failure : EffectivenessHealthSnapshot → HealthCondition → Bool
unfolding baseline_condition equal_fold
is_new_failure baseline c =
    (c.type == "Available"
      && (c.status == "False" && (baseline_condition baseline c.type).status != "False"))
    || (c.type == "Progressing"
        && (c.status == "False"
            && (equal_fold c.reason progress_deadline_exceeded
                && not (
                    equal_fold (baseline_condition baseline c.type).reason
                      progress_deadline_exceeded))))

-- `materiallyRegressed`.
unfoldable pub materially_regressed : EffectivenessHealthSnapshot → HealthSnapshot → Bool
materially_regressed baseline post =
    if ltb_ℤ post.available_replicas baseline.available_replicas
      || (ltb_ℤ post.ready_replicas baseline.ready_replicas
          || ltb_ℤ post.updated_replicas baseline.updated_replicas)
    then true
    else any (is_new_failure baseline) post.conditions

abbrev verdict : String → String → EffectivenessEvaluation
verdict outcome message = record { outcome = outcome; message = message }

-- The switch on the verification's outcome.
unfoldable pub judge :
    EffectivenessHealthSnapshot → HealthSnapshot → String → EffectivenessEvaluation
judge baseline post outcome =
    if outcome == investigation_no_issue_found
    then if not (health_is_healthy post)
      then verdict outcome_ineffective
          "verification found no new event but the target health is still below the desired state"
      else if not (health_improved baseline post)
      then verdict outcome_inconclusive
          "verification found no issue but the post-action health did not improve over baseline"
      else verdict outcome_effective
          "target health improved and the original incident condition was not observed in the verification window"
    else if outcome == investigation_confirmed
    then verdict outcome_ineffective
        "the original incident condition remains observed after the action"
    else if outcome == investigation_inconclusive || outcome == investigation_unknown
    then verdict outcome_inconclusive
        "verification evidence was insufficient to establish remediation effectiveness"
    else verdict outcome_inconclusive "verification returned an unsupported outcome"

unfoldable pub evaluate_health :
    EffectivenessHealthSnapshot → HealthSnapshot → Bool → String → EffectivenessEvaluation
evaluate_health baseline post observed outcome =
    if not observed
    then verdict outcome_inconclusive "post-action health observation is unavailable"
    else if not (eqb_ℤ post.desired_replicas baseline.desired_replicas)
    then verdict outcome_inconclusive "target replica intent changed during the verification window"
    else if materially_regressed baseline post
    then verdict outcome_regressed
        "post-action workload health is objectively worse than the pre-action baseline"
    else judge baseline post outcome

-- `evaluateEffectiveness` on the health of the baseline, where there is one.
unfoldable pub evaluate_effectiveness :
    Option EffectivenessHealthSnapshot
    → HealthSnapshot
    → Bool
    → Option InvestigationRequest
    → EffectivenessEvaluation
evaluate_effectiveness none post observed verification =
    verdict outcome_inconclusive "pre-action health baseline is missing"
evaluate_effectiveness (some baseline) post observed none =
    verdict outcome_inconclusive "verification investigation is missing"
evaluate_effectiveness (some baseline) post observed (some verification) =
    evaluate_health baseline post observed verification.outcome
