-- ===== src/Controllers/AgentAction/Baseline.antt =====
-- The baseline of an action's effectiveness, as it is stored before the dispatch
-- (internal/controllers/agentaction_controller.go).
pub mod Quiet
use Prim.Native.String
use Prim.Native.Char.{Char, code}
use fluxseer_rca.Base.{
  String, List, [], Option, none, some, map, ◌==◌, if◌then◌else◌, ◌+++◌, trim_space, eqb,
}
use fluxseer_rca.Api.Meta.{
  StringMap, read, Result, ok, err, Error, is_not_found, wrap_error, NamespacedObjectReference,
}
use fluxseer_rca.Api.Evidence.{EvidenceRef}
use fluxseer_rca.Api.Action.{
  AgentAction, AgentActionStatus, EffectivenessBaseline, EffectivenessHealthSnapshot,
  EffectivenessHealthCondition, effectiveness_not_verified,
}
use fluxseer_rca.Executor.Contract.{HealthCondition, HealthSnapshot, Baseline}
use fluxseer_rca.Controllers.Flow.{Flow, pure, query, ◌>>=◌}
use fluxseer_rca.Controllers.AgentAction.Env.{Env, annotation_risk_signal_ref}

before_rest : Char → Option (String × String) → Option (String × String)
before_rest c none = none
before_rest c (some (front, back)) = some (String.◌∷◌ c front, back)

-- The parts of a text around its first '/'.
unfoldable pub split_at_slash : String → Option (String × String)
unfolding before_rest
split_at_slash String.[] = none
split_at_slash (String.◌∷◌ c s) =
    let rest = split_at_slash s in if eqb (code c) b'/' then some ("", s) else before_rest c rest

name_alone : String → Option (String × String) → String × String
name_alone value none = ("", value)
name_alone value (some parts) = parts

-- `splitNamespacedName`.
unfoldable pub split_namespaced_name : String → String × String
unfolding name_alone split_at_slash
split_namespaced_name value = name_alone (trim_space value) (split_at_slash (trim_space value))

reference_in : String → String × String → Option NamespacedObjectReference
reference_in own (namespace, name) =
    if name == ""
    then none
    else some (record { name = name; namespace = if namespace == "" then own else namespace })

-- `riskSignalRefFromAction`.
unfoldable pub risk_signal_ref_from_action : AgentAction → Option NamespacedObjectReference
unfolding reference_in split_namespaced_name
risk_signal_ref_from_action action =
    let value = trim_space (read action.meta.annotations annotation_risk_signal_ref) in
    if value == "" then none else reference_in action.meta.namespace (split_namespaced_name value)

abbrev condition_to_api : HealthCondition → EffectivenessHealthCondition
condition_to_api c = record {
  type = c.type;
  status = c.status;
  reason = c.reason;
  message = c.message;
}

-- `effectivenessHealthSnapshotFromExecutor`.
unfoldable pub snapshot_to_api : HealthSnapshot → EffectivenessHealthSnapshot
snapshot_to_api s = record {
  generation = s.generation;
  observed_generation = s.observed_generation;
  desired_replicas = s.desired_replicas;
  updated_replicas = s.updated_replicas;
  available_replicas = s.available_replicas;
  ready_replicas = s.ready_replicas;
  conditions = map condition_to_api s.conditions;
}

-- `effectivenessBaselineFromExecutor`, with the evidence still to be read.
unfoldable pub effectiveness_baseline_from_executor : Baseline → AgentAction → EffectivenessBaseline
unfolding snapshot_to_api
effectiveness_baseline_from_executor baseline action = record {
  captured_at = some baseline.captured_at;
  target = action.spec.target;
  target_uid = baseline.target_uid;
  risk_signal_ref = risk_signal_ref_from_action action;
  evidence_refs = [];
  health = some (snapshot_to_api baseline.health);
  digest = baseline.digest;
  unavailable_reason = "";
}

-- The status that holds the baseline.
unfoldable pub with_baseline : EffectivenessBaseline → AgentActionStatus → AgentActionStatus
with_baseline baseline status = record status {
  effectiveness = some (record {
    phase = effectiveness_not_verified;
    outcome = "";
    message = "immutable pre-action health baseline captured before dispatch";
    verification_ref = none;
    baseline = some baseline;
    post_action_health = none;
    started_at = none;
    finished_at = none;
    settling_until = none;
    observation_until = none;
  });
}

-- A signal that is gone leaves the baseline without evidence.
evidence_read :
    NamespacedObjectReference
    → EffectivenessBaseline
    → Result (List EvidenceRef)
    → Result EffectivenessBaseline
evidence_read reference baseline (ok evidence) = ok (record baseline { evidence_refs = evidence })
evidence_read reference baseline (err e) =
    if is_not_found e
    then ok baseline
    else err (
        wrap_error
          ("get baseline RiskSignal " +++ reference.namespace +++ "/" +++ reference.name +++ ": ")
          e)

module _ {W : Type 0} (env : Env W) where
  populated :
      EffectivenessBaseline
      → Option NamespacedObjectReference
      → Flow W (Result EffectivenessBaseline)
  unfolding evidence_read
  populated baseline none = pure (ok baseline)
  populated baseline (some reference) = do
    evidence ← query (
        env.get_risk_signal_evidence
          (record { namespace = reference.namespace; name = reference.name }))
    pure (evidence_read reference baseline evidence)

  -- `populateBaselineEvidence`.
  unfoldable pub populate_baseline_evidence :
      EffectivenessBaseline → Flow W (Result EffectivenessBaseline)
  unfolding populated
  populate_baseline_evidence baseline = populated baseline baseline.risk_signal_ref
