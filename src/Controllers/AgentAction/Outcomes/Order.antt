-- ===== src/Controllers/AgentAction/Outcomes/Order.antt =====
-- The instants of an execution lie in order: capture of the baseline, start, end.
use fluxseer_rca.Base.{ℕ, Option, none, some, pos, ◌<ℤ◌, ◌+ℤ◌, ◌≡◌, refl, arith, suc}
use fluxseer_rca.Api.Meta.{Time, add_time}
use fluxseer_rca.Api.Action.{
  AgentAction, AgentActionExecutionStatus, AgentActionEffectivenessStatus, AgentActionStatus,
}
use fluxseer_rca.Domain.{ExecutionResult}
use fluxseer_rca.Executor.Contract.{ExecutorRequest}
use fluxseer_rca.Controllers.AgentAction.Execution.{not_before}
use fluxseer_rca.Controllers.AgentAction.Statuses.{
  start_after_capture, start_of, succeeded_status, succeeded_execution, verifying_status,
}

later : (t : Time) (n : ℕ) → t <ℤ add_time t (pos (suc n))
unfolding add_time ◌+ℤ◌
later t n = ground arith

start_after_capture_lt :
    (captured : Time) (started : Option Time) → captured <ℤ start_after_capture captured started
unfolding start_after_capture
start_after_capture_lt captured none = later captured _
start_after_capture_lt captured (some started) = ground (arith, later captured 999_999_999)

not_before_lt : (started now : Time) → started <ℤ not_before (some started) now
not_before_lt started now = ground (arith, later started 0)

-- The stored instants: the execution started after the capture, finished after its start, and its
-- effectiveness is watched from its end on.
unfoldable pub IsOrdered : Time → AgentActionStatus → Type 0
IsOrdered captured status =
    (e : AgentActionExecutionStatus) × ((started : Time) × ((finished : Time) × ((status.execution
            ≡ some e)
          × ((e.started_at ≡ some started)
              × ((e.finished_at ≡ some finished)
                  × ((status.finished_at ≡ some finished)
                      × ((captured <ℤ started) × (started <ℤ finished))))))))

-- The status of a success with a baseline is ordered, whatever instants the executor reports and
-- whatever the clock says: capture of the baseline, start, end.
pub verifying_status-IsOrdered :
    (action : AgentAction) (request : ExecutorRequest) (result : ExecutionResult)
    (effectiveness : AgentActionEffectivenessStatus) (captured now : Time)
    → IsOrdered captured (verifying_status action request result effectiveness captured now)
unfolding IsOrdered verifying_status succeeded_status succeeded_execution
verifying_status-IsOrdered action request result effectiveness captured now =
    let start = start_after_capture captured (start_of action.status.execution result) in
    (
      _,
      (
        start,
        (
          not_before (some start) now,
          (
            refl,
            (
              refl,
              (
                refl,
                (
                  refl,
                  (
                    start_after_capture_lt captured (start_of action.status.execution result),
                    not_before_lt start now,
                  ),
                ),
              ),
            ),
          ),
        ),
      ),
    )
