-- ===== src/Workflow/State.antt =====
-- The rows behind one workflow run: `WorkflowRun`, `WorkflowRunStep`, the tasks and the approval
-- requests that its steps create (services/app/core/models.py), and the effects on the outside.
-- A step's place in the list is its `step_index` and stands for its id; `next_id` is the source of
-- new ids, and approval requests are listed newest first.
use deep_foundry.Base.{ℕ, String, Bool, true, false, Option, none, some, List, set, find, ◌==◌}
use deep_foundry.Json.{Json}

-- `WorkflowRunStep.StepType`
pub data StepType : Type 0 where
  coworker_action tool_call human_checkpoint condition : StepType

-- `WorkflowRunStep.Status`
pub data StepStatus : Type 0 where
  pending in_progress needs_approval completed failed skipped : StepStatus

-- `WorkflowRun.Status`
pub data RunStatus : Type 0 where
  running needs_approval completed failed cancelled : RunStatus

-- `Task.Status`
pub data TaskStatus : Type 0 where
  pending in_progress needs_approval needs_input blocked completed failed : TaskStatus

-- `ApprovalRequest.Status`
pub data ApprovalStatus : Type 0 where
  pending approved denied expired : ApprovalStatus

-- What the code writes into `WorkflowRunStep.result`.
pub data StepResult : Type 0 where
  empty : StepResult
  condition_result : Bool → Json → StepResult
  task_started : ℕ → StepResult
  task_output : ℕ → String → StepResult
  task_error : ℕ → String → StepResult
  policy_denied : StepResult
  tool_result : Json → Option String → StepResult
  checkpoint_result : Bool → String → StepResult

-- `(step.result or {}).get("task_id")` on the results that a coworker action writes
abbrev pub task_id_of : StepResult → Option ℕ
task_id_of (task_started i) = some i
task_id_of (task_output i _) = some i
task_id_of (task_error i _) = some i
task_id_of _ = none

pub record Step : Type 0 where
  pub step_type : StepType
  pub status : StepStatus
  pub definition : Json
  pub result : StepResult
  pub started_at : Option ℕ
  pub completed_at : Option ℕ

-- The title of a task: the definition's, or "Workflow step n".
pub data Title : Type 0 where
  given : Json → Title
  step_number : ℕ → Title

pub record Task : Type 0 where
  pub id : ℕ
  pub coworker_id : Json
  pub title : Title
  pub description : Json
  pub step : ℕ
  pub status : TaskStatus
  pub result : String
  pub error_message : String

pub record Approval : Type 0 where
  pub id : ℕ
  pub step : ℕ
  pub coworker_id : Json
  pub tool_id : ℕ
  pub name : String
  pub arguments : Json
  pub status : ApprovalStatus

-- A call of `notify_workspace`.
pub data Notice : Type 0 where
  workflow_failed : Notice
  checkpoint_requested : ℕ → Json → Notice
  approval_requested : ℕ → Json → Notice

-- A call of `execute_workflow_tool`.
pub record Call : Type 0 where
  pub step : ℕ
  pub name : String
  pub arguments : Json

pub record Run : Type 0 where
  pub status : RunStatus
  pub current_step_index : ℕ
  pub context : Json
  pub completed_at : Option ℕ
  pub steps : List Step
  pub tasks : List Task
  pub approvals : List Approval
  pub notices : List Notice
  pub calls : List Call
  pub queued : List ℕ
  pub next_id : ℕ

-- `step.save(...)`: the row of the current step is written.
abbrev pub save_step : Run → Step → Run
save_step run step = record run { steps = set run.steps run.current_step_index step }

-- `status__in=(RUNNING, NEEDS_APPROVAL)`
abbrev pub is_active : RunStatus → Bool
is_active RunStatus.running = true
is_active RunStatus.needs_approval = true
is_active _ = false

-- `get_approval_request_for_workflow_step`
abbrev pub approval_for_step : List Approval → ℕ → Option Approval
approval_for_step approvals step = find (λ (a : Approval). a.step == step) approvals

-- `Task.objects.get(id=task_id)`, which raises if there is none.
abbrev pub task_by_id : List Task → ℕ → Option Task
task_by_id tasks i = find (λ (t : Task). t.id == i) tasks
