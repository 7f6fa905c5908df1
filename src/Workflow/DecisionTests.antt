-- ===== src/Workflow/DecisionTests.antt =====
-- A definition with a checkpoint and a condition, a run that waits at its checkpoint, and the
-- theorems on them.
use deep_foundry.Base.{ℕ, get_elem?, Bool, true, false, none, some, List, [], ◌∷◌, ◌≡◌, ◌≢◌, refl}
use deep_foundry.Base.Int.{pos}
use deep_foundry.Json.{Json, text, array, nil, cons, object, field, end}
use deep_foundry.Workflow.State.{
  Run, RunStatus, Step, StepType, StepStatus, StepResult, Approval, ApprovalStatus,
}
use deep_foundry.Workflow.Engine.{Env}
use deep_foundry.Workflow.Advance.{turn, current_turn, returned, advance_workflow_run}
use deep_foundry.Workflow.Records.{IsDone}
use deep_foundry.Workflow.Definition.{validate_workflow_definition, start_workflow_run}
use deep_foundry.Workflow.Started.{IsReady, start_workflow_run-IsReady}
use deep_foundry.Workflow.Decisions.{
  decide_checkpoint, decided_step, decided, already_decided, decide_approval_request,
  approval_by_id, verdict,
}
use deep_foundry.Workflow.Decided.{decide_approval_request-once, decide_checkpoint_lem, IsClosed}

abbrev checkpoint : Json
checkpoint = object (field "type" (text "human_checkpoint") end)

abbrev branch : Json
branch = object (
    field "type" (text "condition") (
      field "condition" (object (field "path" (text "x") (field "operator" (text "exists") end)))
        (field "if_true" (Json.number (pos 2) 0) (field "if_false" (Json.number (pos 0) 0) end))))

abbrev definition : Json
definition = object (field "steps" (array (cons checkpoint (cons branch nil))) end)

abbrev anything : Json → Bool
anything v = true

valid : validate_workflow_definition anything anything definition ≡ none
unfolding validate_workflow_definition
valid = refl

start_workflow_run-IsReady_example :
    (run : Run) × (start_workflow_run definition Json.null ≡ some run)
    × IsReady anything anything run
start_workflow_run-IsReady_example =
    start_workflow_run-IsReady anything anything definition Json.null valid

abbrev env : Env
env = record {
  now = 100;
  workspace_id = 1;
  attachment = λ coworker tool. none;
  config = λ coworker. none;
  rules = [];
  execute_workflow_tool = λ name arguments. none;
  show = λ value. "";
  cast_index = λ value. none;
  refuses_task = λ task. false;
}

abbrev waiting : Step
waiting = record {
  step_type = StepType.human_checkpoint;
  status = StepStatus.needs_approval;
  definition = checkpoint;
  result = StepResult.empty;
  started_at = some 5;
  completed_at = none;
}

abbrev run : Run
run = record {
  status = RunStatus.needs_approval;
  current_step_index = 0;
  context = object end;
  completed_at = none;
  steps = waiting ∷ [];
  tasks = [];
  approvals = [];
  notices = [];
  calls = [];
  queued = [];
  next_id = 9;
}

decide_checkpoint_lem_example :
    (advance_workflow_run env run ≡ (run, returned false))
    × ((next : Run) × (decide_checkpoint run 0 true "Fine." 60 ≡ some next)
        × IsDone 0 (decided_step waiting true "Fine." 60) next
        × (turn env next ≡ current_turn env next (get_elem? run.steps 1))
        × IsClosed 0 next)
    × ((next : Run) × (decide_checkpoint run 0 false "Fine." 60 ≡ some next)
        × (next.status ≡ RunStatus.failed)
        × (advance_workflow_run env next ≡ (next, returned false))
        × IsClosed 0 next)
decide_checkpoint_lem_example = decide_checkpoint_lem env run waiting "Fine." 60 refl refl refl refl

abbrev request : ℕ → ApprovalStatus → Approval
request id status = record {
  id = id;
  step = 0;
  coworker_id = text "c";
  tool_id = 5;
  name = "send_mail";
  arguments = object end;
  status = status;
}

abbrev before : List Approval
before = request 1 ApprovalStatus.pending ∷ request 2 ApprovalStatus.pending ∷ []

abbrev after : List Approval
after = request 1 ApprovalStatus.pending ∷ request 2 ApprovalStatus.denied ∷ []

denies : decide_approval_request before 2 false ≡ decided after
unfolding decide_approval_request
denies = refl

decide_approval_request-once_example :
    ((row : Approval) × (approval_by_id before 2 ≡ some row)
      × (row.status ≡ ApprovalStatus.pending))
    × (decide_approval_request after 2 true ≡ already_decided (verdict false))
    × ((j : ℕ) → j ≢ 2 → approval_by_id after j ≡ approval_by_id before j)
decide_approval_request-once_example = decide_approval_request-once before after 2 false true denies
