-- ===== src/Workflow/Verdicts.antt =====
-- What the members' decision on an approval request does to the workflow run that waits for it:
-- `_decide_approval_request` of services/app/core/chat_views.py, for the requests of a workflow's
-- steps. The requests of a run have no task, so the branch that starts a task again is not taken;
-- the audit entry and the shape of the answer are left out.
use deep_foundry.Base.{ℕ, Bool, true, false, Option, none, some, List, get_elem?, set}
use deep_foundry.Json.{Json}
use deep_foundry.Permissions.{
  Membership, Coworker, AccessError, Access, allowed, refused, get_coworker_for_member,
}
use deep_foundry.Workflow.State.{StepStatus, RunStatus, ApprovalStatus, Step, Approval, Run}
use deep_foundry.Workflow.Decisions.{
  Decided, decided, already_decided, not_found, approval_by_id, decide_approval_request,
}

-- The tables that the view reads, the user who asks, and the coworker's id in a request.
pub record Reader : Type 0 where
  pub members : List Membership
  pub coworkers : List Coworker
  pub user : ℕ
  pub id_of : Json → ℕ

-- How the view ends: with the run and whether `execute_workflow_run` is called for it, with one of
-- its errors, or by an exception after the request is decided.
pub data RequestAnswer : Type 0 where
  answered : Run → Bool → RequestAnswer
  no_request : RequestAnswer
  no_access : AccessError → RequestAnswer
  decided_before : ApprovalStatus → RequestAnswer
  no_step : Run → RequestAnswer

abbrev pub resume_step : Step → Bool → ℕ → Step
resume_step step true now = record step { status = StepStatus.in_progress }
resume_step step false now = record step { status = StepStatus.failed; completed_at = some now }

abbrev pub resume_run : Run → Bool → ℕ → Run
resume_run run true now = record run { status = RunStatus.running }
resume_run run false now = record run { status = RunStatus.failed; completed_at = some now }

abbrev pub answer_step : Run → ℕ → Bool → ℕ → Option Step → RequestAnswer
answer_step run place approve now none = no_step run
answer_step run place approve now (some step) =
    answered
      (resume_run (record run { steps = set run.steps place (resume_step step approve now) })
        approve now)
      approve

abbrev pub answer_decision : Run → ℕ → Bool → ℕ → Decided → RequestAnswer
answer_decision run place approve now (decided rows) =
    answer_step (record run { approvals = rows }) place approve now (get_elem? run.steps place)
answer_decision run place approve now (already_decided status) = decided_before status
answer_decision run place approve now not_found = no_request

abbrev pub answer_access : Run → Approval → Bool → ℕ → Access Coworker → RequestAnswer
answer_access run row approve now (refused e) = no_access e
answer_access run row approve now (allowed coworker) =
    answer_decision run row.step approve now (decide_approval_request run.approvals row.id approve)

abbrev pub answer_request : Reader → Run → Bool → ℕ → Option Approval → RequestAnswer
answer_request reader run approve now none = no_request
answer_request reader run approve now (some row) = answer_access run row approve now (
    get_coworker_for_member reader.members reader.coworkers reader.user
      (reader.id_of row.coworker_id) false)

unfoldable pub answer_approval_request : Reader → Run → ℕ → Bool → ℕ → RequestAnswer
answer_approval_request reader run id approve now =
    answer_request reader run approve now (approval_by_id run.approvals id)
