-- ===== src/Tests/Chains.antt =====
-- Escalation chains, and a restart that is cut off, on concrete inputs.
use fluxseer_rca.Base.{String, [], ◌∷◌, none, some, true, ◌≡◌, ◌↔◌, refl, ℤ, pos, sort_stable}
use fluxseer_rca.Api.Meta.{ok, err, Selects, not_found, deadline_exceeded, read}
use fluxseer_rca.Api.Policy.{EscalationChain}
use fluxseer_rca.Domain.{outcome_unknown}
use fluxseer_rca.Escalation.Router.{
  ResolveRequest, Reader, resolve, read_with, listed, collect_matches, is_active, selector_matches,
  route_for_chain, precedes,
}
use fluxseer_rca.Escalation.Selection.{IsRouted, resolve-IsRouted}
use fluxseer_rca.Executor.Kubernetes.{
  KubernetesClient, validate_restart_request, failure_result, is_recorded, is_cut_off,
}
use fluxseer_rca.Executor.Restart.{execute, execute_valid, restart, patched}
use fluxseer_rca.Executor.Uncertain.{IsCutOff, reading, execute-unknown}
use fluxseer_rca.Tests.Worlds.{World, plain, cluster, named_object}
use fluxseer_rca.Tests.Restarts.{order, start}

abbrev chain_of : String → ℤ → EscalationChain
chain_of name priority = record {
  meta = named_object "shop" name "uid-chain" [];
  spec = record { resource_selector = none; priority = priority; stages = []; enabled = true };
  status = record { phase = "Active" };
}

abbrev chains : Reader
chains = record {
  get = λ k. err (not_found "no such chain");
  list = λ namespace. ok (chain_of "night" (pos 1) ∷ chain_of "day" (pos 5) ∷ []);
}

abbrev all_labels : Selects
all_labels = λ selector labels. ok true

abbrev any_chain : ResolveRequest
any_chain = record { namespace = "shop"; escalation_chain_ref = ""; resource_labels = [] }

day_resolved :
    resolve all_labels plain (some chains) any_chain
    ≡ ok (some (route_for_chain (chain_of "day" (pos 5))))
unfolding resolve read_with listed collect_matches is_active selector_matches sort_stable precedes
day_resolved = refl

resolve-IsRouted_example :
    IsRouted plain all_labels chains any_chain (route_for_chain (chain_of "day" (pos 5)))
resolve-IsRouted_example =
    resolve-IsRouted plain all_labels chains any_chain (route_for_chain (chain_of "day" (pos 5)))
      day_resolved

abbrev slow_cluster : KubernetesClient World
slow_cluster = record cluster {
  patch_deployment = λ d w. (err (deadline_exceeded "context deadline exceeded"), w);
}

cut_off : (execute plain slow_cluster order start).0.result.outcome ≡ outcome_unknown
unfolding execute execute_valid restart patched validate_restart_request is_recorded read is_cut_off
    failure_result
cut_off = refl

execute-unknown_example :
    ((execute plain slow_cluster order start).0.result.outcome ≡ outcome_unknown)
    ↔ IsCutOff slow_cluster order
        (validate_restart_request plain order)
        (reading plain slow_cluster order start)
execute-unknown_example = execute-unknown plain slow_cluster order start
