-- ===== src/TaskEngine/Tests.antt =====
-- A task that resumes after an approval, and the theorems on its delivery.
use deep_foundry.Base.{none, some, List, [], ◌∷◌, ◌≡◌, refl, All}
use deep_foundry.Json.{object, end, text}
use deep_foundry.Workflow.State.{TaskStatus, ApprovalStatus}
use deep_foundry.Workflow.Engine.{Tool, CoworkerConfig}
use deep_foundry.TaskEngine.{
  Role, ToolCall, Message, Generation, Execution, CallApproval, TaskRow, Work, Worker, TaskNotice,
  claim_task_execution, unresolved, is_answered, approval_for_call, report_task_status,
}
use deep_foundry.Policy.{resolve_org_action_policy}
use deep_foundry.TaskEngine.Calls.{process_call, rule_for}
use deep_foundry.TaskEngine.Loop.{
  execute_background_task, starting_messages, iterate, iteration, process_calls,
}
use deep_foundry.TaskEngine.Effects.{Vouched}
use deep_foundry.TaskEngine.Consent.{execute_background_task-Vouched}
use deep_foundry.TaskEngine.Once.{IsOnce, execute_background_task-IsOnce}
use deep_foundry.TaskEngine.Endings.{Delivered, execute_background_task-Delivered}

abbrev send_mail : Tool
send_mail = record { id = 5; name = "send_mail"; risk_classification = "dangerous" }

abbrev call : ToolCall
call = record { id = "call_1"; name = "send_mail"; arguments = object end }

abbrev config : CoworkerConfig
config = record { permission_profile = []; org_policy_floor = [] }

abbrev worker : Worker
worker = record {
  now = 100;
  workspace_id = 1;
  coworker_id = 2;
  config = some config;
  config_error = "";
  tools = ("send_mail", send_mail) ∷ [];
  rules = [];
  policies = [];
  initial_messages = [];
  generate = λ messages. Generation.answer (record { content = "Done."; tool_calls = [] });
  execute_tool = λ name arguments. Execution.output (text "sent") none;
  write_memory = λ content. none;
  strip = λ s. s;
  show = λ v. "";
  dumps = λ v e. "sent";
  dumps_failure = λ e. e;
  dumps_missing = λ n. n;
  decimal = λ s. none;
  clip = λ s. s;
}

abbrev asked : Message
asked = record {
  role = Role.assistant;
  content = "I send the mail.";
  tool_call_id = none;
  tool_calls = call ∷ [];
}

abbrev row : TaskRow
row = record {
  status = TaskStatus.needs_approval;
  messages = asked ∷ [];
  pending_question = none;
  result = "";
  error_message = "";
  completed_at = none;
}

abbrev approvals : List CallApproval
approvals =
    record {
      tool_call_id = "call_1";
      tool_id = 5;
      name = "send_mail";
      arguments = object end;
      status = ApprovalStatus.approved;
    }
    ∷ []

abbrev reply : Message
reply = record { role = Role.tool; content = "sent"; tool_call_id = some "call_1"; tool_calls = [] }

abbrev said : Message
said = record { role = Role.assistant; content = "Done."; tool_call_id = none; tool_calls = [] }

abbrev after : Work
after = record {
  row = record {
    status = TaskStatus.completed;
    messages = asked ∷ reply ∷ said ∷ [];
    pending_question = none;
    result = "Done.";
    error_message = "";
    completed_at = some 100;
  };
  messages = asked ∷ reply ∷ said ∷ [];
  approvals = approvals;
  executed = call ∷ [];
  notices = TaskNotice.task_completed TaskStatus.completed ∷ [];
  audited = "task.completed" ∷ "task.tool_executed" ∷ [];
  memories = "Done." ∷ [];
}

completes : execute_background_task 12 worker approvals row ≡ some after
unfolding execute_background_task claim_task_execution iterate iteration unresolved is_answered
    process_calls process_call approval_for_call rule_for resolve_org_action_policy
    report_task_status
completes = refl

execute_background_task-Vouched_example : All (Vouched worker config approvals) after.executed
execute_background_task-Vouched_example =
    execute_background_task-Vouched 12 worker config approvals row after refl completes

execute_background_task-IsOnce_example : IsOnce (starting_messages worker row) after.executed
execute_background_task-IsOnce_example =
    execute_background_task-IsOnce 12 worker approvals row after completes

execute_background_task-Delivered_example :
    Delivered worker row.status (execute_background_task 12 worker approvals row)
execute_background_task-Delivered_example =
    execute_background_task-Delivered 12 worker approvals row
