-- ===== src/Workflow/Tests.antt =====
-- A run of two tool calls and a condition that jumps back, and the theorems on it.
use deep_foundry.Base.{false, true, none, some, [], ◌∷◌, ◌≢◌, refl, All}
use deep_foundry.Base.Int.{pos}
use deep_foundry.Json.{Json, text, object, field, end}
use deep_foundry.Workflow.State.{
  Run, RunStatus, Step, StepType, StepStatus, StepResult, Approval, ApprovalStatus,
}
use deep_foundry.Workflow.Engine.{Env, Tool, ToolResult}
use deep_foundry.Workflow.Advance.{out_of_fuel, advance_workflow_run}
use deep_foundry.Workflow.Measure.{advance_workflow_run-ne-out_of_fuel}
use deep_foundry.Workflow.Records.{
  IsDone, advance_workflow_run-IsDone, Reports, failure_notices, advance_workflow_run-Reports,
}
use deep_foundry.Workflow.Consent.{Justified, advance_workflow_run-Justified}

abbrev send_mail : Tool
send_mail = record { id = 5; name = "send_mail"; risk_classification = "dangerous" }

abbrev answer : ToolResult
answer = record { output = text "sent"; error = none }

abbrev env : Env
env = record {
  now = 100;
  workspace_id = 1;
  attachment = λ coworker tool. some send_mail;
  config = λ coworker. some (record { permission_profile = []; org_policy_floor = [] });
  rules = [];
  execute_workflow_tool = λ name arguments. some answer;
  show = λ value. "";
  cast_index = λ value. none;
  refuses_task = λ task. false;
}

abbrev mail_step : Step
mail_step = record {
  step_type = StepType.tool_call;
  status = StepStatus.pending;
  definition = object (field "coworker_id" (text "c") (field "tool_name" (text "send_mail") end));
  result = StepResult.empty;
  started_at = none;
  completed_at = none;
}

abbrev back : Step
back = record {
  step_type = StepType.condition;
  status = StepStatus.pending;
  definition = object (
      field "condition" (object (field "path" (text "x") (field "operator" (text "exists") end)))
        (field "if_true" (Json.number (pos 9) 0) (field "if_false" (Json.number (pos 0) 0) end)));
  result = StepResult.empty;
  started_at = none;
  completed_at = none;
}

abbrev done : Step
done = record {
  step_type = StepType.human_checkpoint;
  status = StepStatus.completed;
  definition = Json.null;
  result = StepResult.checkpoint_result true "";
  started_at = some 1;
  completed_at = some 2;
}

abbrev approved : Approval
approved = record {
  id = 2;
  step = 1;
  coworker_id = text "c";
  tool_id = 5;
  name = "send_mail";
  arguments = object end;
  status = ApprovalStatus.approved;
}

abbrev run : Run
run = record {
  status = RunStatus.running;
  current_step_index = 0;
  context = object end;
  completed_at = none;
  steps = done ∷ mail_step ∷ back ∷ [];
  tasks = [];
  approvals = approved ∷ [];
  notices = [];
  calls = [];
  queued = [];
  next_id = 9;
}

advance_workflow_run-ne-out_of_fuel_example : (advance_workflow_run env run).1 ≢ out_of_fuel
advance_workflow_run-ne-out_of_fuel_example = advance_workflow_run-ne-out_of_fuel env run

advance_workflow_run-Justified_example :
    All (Justified env run.approvals run.calls) (advance_workflow_run env run).0.calls
advance_workflow_run-Justified_example = advance_workflow_run-Justified env run

advance_workflow_run-IsDone_example : IsDone 0 done (advance_workflow_run env run).0
advance_workflow_run-IsDone_example = advance_workflow_run-IsDone env run 0 done (refl, refl)

advance_workflow_run-Reports_example :
    let (next, outcome) = advance_workflow_run env run in Reports (failure_notices run) next outcome
advance_workflow_run-Reports_example = advance_workflow_run-Reports env run refl
