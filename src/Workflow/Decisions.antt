-- ===== src/Workflow/Decisions.antt =====
-- What people decide for a waiting run: `WorkflowCheckpointDecisionView.post` of
-- services/app/core/v2_views.py and `decide_approval_request` of services/app/core/interface.py.
use deep_foundry.Base.{
  ℕ, ◌+◌, String, Bool, true, false, Option, none, some, List, map, ◌==◌, find, get_elem?, set,
  if◌then◌else◌,
}
use deep_foundry.Workflow.State.{
  StepType, human_checkpoint, StepStatus, RunStatus, StepResult, ApprovalStatus, Step, Approval,
  Run,
}

-- The step that the request names must be a checkpoint that waits (`get_object_or_404`).
abbrev pub is_waiting : StepType → StepStatus → Bool
is_waiting human_checkpoint StepStatus.needs_approval = true
is_waiting _ _ = false

abbrev pub decided_step : Step → Bool → String → ℕ → Step
decided_step step approve comment now = record step {
  status = if approve then StepStatus.completed else StepStatus.failed;
  result = StepResult.checkpoint_result approve comment;
  completed_at = some now;
}

-- An approved checkpoint lets the run go on, a rejected one fails it.
abbrev pub decide_run : Run → Bool → ℕ → Run
decide_run run true now = record run {
  status = RunStatus.running;
  current_step_index = run.current_step_index + 1;
}
decide_run run false now = record run { status = RunStatus.failed; completed_at = some now }

abbrev pub decide_step : Run → ℕ → Bool → String → ℕ → Option Step → Option Run
decide_step run i approve comment now none = none
decide_step run i approve comment now (some step) =
    if is_waiting step.step_type step.status
    then some (
        decide_run (record run { steps = set run.steps i (decided_step step approve comment now) })
          approve now)
    else none

-- `none` where the view answers 404. The view has checked that the user may write.
unfoldable pub decide_checkpoint : Run → ℕ → Bool → String → ℕ → Option Run
decide_checkpoint run i approve comment now =
    decide_step run i approve comment now (get_elem? run.steps i)

-- How a decision on an approval request ends.
pub data Decided : Type 0 where
  decided : List Approval → Decided
  already_decided : ApprovalStatus → Decided
  not_found : Decided

abbrev pub verdict : Bool → ApprovalStatus
verdict approve = if approve then ApprovalStatus.approved else ApprovalStatus.denied

abbrev pub write_status : ℕ → ApprovalStatus → Approval → Approval
write_status i status row = if row.id == i then record row { status = status } else row

abbrev pub approval_by_id : List Approval → ℕ → Option Approval
approval_by_id rows i = find (λ (a : Approval). a.id == i) rows

abbrev pub decide_row : List Approval → ℕ → Bool → ApprovalStatus → Decided
decide_row rows i approve ApprovalStatus.pending =
    decided (map (write_status i (verdict approve)) rows)
decide_row rows i approve status = already_decided status

abbrev pub decide_found : List Approval → ℕ → Bool → Option Approval → Decided
decide_found rows i approve none = not_found
decide_found rows i approve (some row) = decide_row rows i approve row.status

unfoldable pub decide_approval_request : List Approval → ℕ → Bool → Decided
decide_approval_request rows i approve = decide_found rows i approve (approval_by_id rows i)
