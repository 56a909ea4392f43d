-- ===== src/Diagnostic/Planner.antt =====
-- The registry of diagnostics (internal/diagnostic/planner.go).
pub mod Registry
use fluxseer_rca.Base.{
  String, List, [], ◌∷◌, Option, none, some, Bool, true, false, ◌==◌, ◌!=◌, Char, ◌+++◌, has_text,
  if◌then◌else◌, keep, map, str_lt, sort_stable,
}
use fluxseer_rca.Diagnostic.Types.{DiagnosticResult, SchedulingObservation}
use fluxseer_rca.Diagnostic.Evidence.{EvidenceSet, MatchResult, Diagnostic}
use fluxseer_rca.Diagnostic.Scheduling.Evaluate
use fluxseer_rca.Diagnostic.Scheduling.Evaluate.{state_requirement, failure_requirement}
use fluxseer_rca.Diagnostic.ImagePull.{image_pull_diagnostic}
use fluxseer_rca.Diagnostic.ServicePort.{service_port_diagnostic}

abbrev pub key_of : Diagnostic → String
key_of d = d.id +++ "@" +++ d.version

-- The first diagnostic of each key that is not seen yet; a nil one is passed over.
unfoldable pub register : List String → List (Option Diagnostic) → List Diagnostic
register seen [] = []
register seen (none ∷ ds) = register seen ds
register seen (some d ∷ ds) = elim (has_text (key_of d) seen) [
  | true ↦ register seen ds
  | false ↦ d ∷ register (key_of d ∷ seen) ds
]

unfoldable pub diagnostic_before : Diagnostic → Diagnostic → Bool
diagnostic_before a b = if a.id != b.id then str_lt a.id b.id else str_lt a.version b.version

-- `NewPlanner`.
unfoldable pub new_planner : List (Option Diagnostic) → List Diagnostic
unfolding register
new_planner ds = sort_stable diagnostic_before (register [] ds)

-- `Planner.Candidates`.
unfoldable pub candidates : List Diagnostic → EvidenceSet → List Diagnostic
candidates planner evidence = keep (λ d. (d.match_evidence evidence).applicable) planner

-- `Planner.Evaluate`.
unfoldable pub evaluate_all : List Diagnostic → EvidenceSet → List DiagnosticResult
unfolding candidates
evaluate_all planner evidence = map (λ d. d.evaluate evidence) (candidates planner evidence)

match_scheduling : List SchedulingObservation → MatchResult
match_scheduling [] = record { applicable = false; reason = "no normalized scheduling evidence" }
match_scheduling (o ∷ os) = record {
  applicable = true;
  reason = "normalized scheduling evidence is present";
}

-- `SchedulingDiagnostic`.
unfoldable pub scheduling_diagnostic : (String → String) → (Char → Char) → Diagnostic
unfolding match_scheduling
scheduling_diagnostic quote beyond = record {
  id = "scheduling";
  version = "v1";
  match_evidence = λ e. match_scheduling e.scheduling;
  requirements = λ e. state_requirement ∷ failure_requirement ∷ [];
  evaluate = λ e. fluxseer_rca.Diagnostic.Scheduling.Evaluate.evaluate quote beyond e.scheduling;
}

-- `DefaultPlanner`.
unfoldable pub default_planner : (String → String) → (Char → Char) → List Diagnostic
unfolding new_planner scheduling_diagnostic
default_planner quote beyond = new_planner (
    some (image_pull_diagnostic beyond)
    ∷ some (scheduling_diagnostic quote beyond)
    ∷ some service_port_diagnostic
    ∷ [])
