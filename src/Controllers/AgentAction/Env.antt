-- ===== src/Controllers/AgentAction/Env.antt =====
-- What the reconciler of AgentActions uses of the world: the API server, the clock, the executors,
-- the escalation router, the notifier and the canonical digests.
pub mod Quiet
use fluxseer_rca.Base.{
  String, List, [], ◌∷◌, Option, none, some, Bool, true, false, ℤ, pos, if◌then◌else◌, ◌+++◌, ◌==◌,
  ◌||◌,
}
use fluxseer_rca.Api.Meta.{
  StringMap, Time, Duration, Key, key_of, Result, ok, err, Error, TargetRef,
  NamespacedObjectReference,
}
use fluxseer_rca.Api.Evidence.{EvidenceRef}
use fluxseer_rca.Api.Action.{AgentAction, AgentActionSpec}
use fluxseer_rca.Api.Investigation.{InvestigationRequest}
use fluxseer_rca.Domain.{ResourceRef}
use fluxseer_rca.Executor.Contract.{IdentityInput}
use fluxseer_rca.Executor.Router.{Router}
use fluxseer_rca.Escalation.Router.{ResolveRequest, Route}
use fluxseer_rca.Controllers.Flow.{
  Flow, pure, leave, query, write, or_fail, or_ignore, ◌>>=◌, ◌>>◌, saved, deleted, notified, event,
}
use fluxseer_rca.Controllers.Events.{emit_transition}

pub record Message : Type 0 where
  pub title : String
  pub summary : String
  pub body : String
  pub fields : StringMap

pub record Env (W : Type 0) : Type 0 where
  pub clock : W → Time × W
  pub get_action : Key → W → Result AgentAction × W
  -- `Status().Update`: the object as the server stored it.
  pub update_status : AgentAction → W → Result AgentAction × W
  pub delete_action : AgentAction → W → Result (Unit {0}) × W
  pub get_risk_signal_evidence : Key → W → Result (List EvidenceRef) × W
  pub get_investigation : Key → W → Result InvestigationRequest × W
  -- `controllerutil.CreateOrUpdate` with its mutation.
  pub create_or_update :
      Key
      → (InvestigationRequest → Result InvestigationRequest)
      → W
      → Result InvestigationRequest × W
  pub set_controller_reference : AgentAction → InvestigationRequest → Result InvestigationRequest
  pub has_scheme : Bool
  pub executor : Option (Router W)
  pub escalation : Option (ResolveRequest → W → Result (Option Route) × W)
  pub notifier : Option (Message → W → Option Error × W)
  pub has_recorder : Bool
  -- `%q`, and the canonical digests of a spec, of an identity and of a verification's name.
  pub quote : String → String
  pub spec_digest : AgentActionSpec → String
  pub identity_digest : IdentityInput → String
  pub verification_digest : String → String → String

abbrev pub annotation_target_uid : String
annotation_target_uid = "fluxseer-rca.aiops.platform/target-uid"

abbrev pub annotation_risk_signal_ref : String
annotation_risk_signal_ref = "fluxseer-rca.aiops.platform/risk-signal-ref"

abbrev pub annotation_escalation_chain_ref : String
annotation_escalation_chain_ref = "fluxseer-rca.aiops.platform/escalation-chain-ref"

abbrev pub annotation_retain : String
annotation_retain = "fluxseer-rca.aiops.platform/retain"

-- `targetToResource`.
unfoldable pub target_to_resource : TargetRef → ResourceRef
target_to_resource t = record {
  cluster = t.cluster;
  namespace = t.namespace;
  kind = t.kind;
  name = t.name;
  api_version = t.api_version;
  service = t.service;
}

-- `targetRefString`.
unfoldable pub target_ref_string : TargetRef → String
target_ref_string t = t.namespace +++ "/" +++ t.name +++ " " +++ t.kind

module _ {W : Type 0} (env : Env W) where
  abbrev pub now : Flow W Time
  now = query env.clock

  -- `Status().Update`, which returns from the reconciler where it fails, conflicts included.
  unfoldable pub save : AgentAction → Flow W AgentAction
  save action = do
    r ← query (env.update_status action)
    stored ← or_fail r
    write (saved action)
    pure stored

  -- `recordPhaseTransition`.
  unfoldable pub record_phase_transition : String → String → Flow W (Unit {0})
  record_phase_transition from to = emit_transition env.has_recorder env.quote from to
