-- ===== src/TaskEngine/Calls.antt =====
-- One tool call of a background task (services/app/ai/task_engine.py).
use deep_foundry.Base.{
  zero, suc, String, str_eq, Bool, not, Option, none, some, List, ◌∷◌, if◌then◌else◌,
}
use deep_foundry.Base.Dict.{lookup, get_or_default}
use deep_foundry.Json.{Json, null, boolean, number, text, array, object, get}
use deep_foundry.Permissions.{Decision, auto, approval, resolve_tool_permission, is_auto}
use deep_foundry.Policy.{
  Effect, allow, deny, require_approval, Answer, matched, no_match, resolve_org_action_policy,
  resolve_approval_policy,
}
use deep_foundry.Workflow.State.{TaskStatus, ApprovalStatus}
use deep_foundry.Workflow.Engine.{Tool, CoworkerConfig}
use deep_foundry.Workflow.ToolStep.{action_context}
use deep_foundry.TaskEngine.{
  ToolCall, Message, Execution, output, tool_failure, crash, CallApproval, input_requested,
  approval_requested, task_completed, Work, Worker, is_answered, reply_to, append_message,
  report_task_status, approval_for_call,
}

-- How a part of the delivery ends: it goes on, the function returns, or an exception is raised.
pub data Progress : Type 0 where
  again : Work → Progress
  return : Work → Progress
  raised : Work → String → Progress

-- `execution_state={**task.execution_state, "messages": [...]}`
abbrev pub report : Worker → Work → TaskStatus → Work
report worker work status = record work {
  row = report_task_status worker.now work.row status (some work.messages) none none;
}

abbrev pub question_text : Worker → ToolCall → String
question_text worker call =
    let question = worker.strip (elim (get "question" call.arguments) [
      | none ↦ ""
      | some (text s) ↦ s
      | some v ↦ worker.show v
    ]) in
    if str_eq question "" then "Could you clarify how you'd like me to proceed?" else question

-- The task pauses for an answer of the person who assigned it.
abbrev pub ask_user : Worker → Work → ToolCall → Work
ask_user worker work call =
    let question = question_text worker call in
    let waiting = report worker work TaskStatus.needs_input in
    record waiting {
      row = record waiting.row { pending_question = some (call.id, question) };
      audited = "task.input_requested" ∷ work.audited;
      notices = input_requested question ∷ work.notices;
    }

-- What `call.arguments.get` raises on arguments that are no object.
abbrev pub no_get : Json → Option String
no_get (object fs) = none
no_get (text s) = some "'str' object has no attribute 'get'"
no_get (array items) = some "'list' object has no attribute 'get'"
no_get (boolean b) = some "'bool' object has no attribute 'get'"
no_get (number m zero) = some "'int' object has no attribute 'get'"
no_get (number m (suc p)) = some "'float' object has no attribute 'get'"
no_get null = some "'NoneType' object has no attribute 'get'"

abbrev pub ask_or_raise : Worker → Work → ToolCall → Option String → Progress
ask_or_raise worker work call none = return (ask_user worker work call)
ask_or_raise worker work call (some message) = raised work message

abbrev pub block : Worker → Work → Option (List Message) → String → Work
block worker work messages message = record work {
  row = report_task_status worker.now work.row TaskStatus.blocked messages none (some message);
  notices = task_completed TaskStatus.blocked ∷ work.notices;
}

unfoldable pub rule_for : Worker → Tool → Effect
rule_for worker tool =
    resolve_org_action_policy worker.rules worker.workspace_id "tool" "execute"
      (action_context tool)

unfoldable pub permission_for : CoworkerConfig → Tool → Decision
permission_for config tool =
    resolve_tool_permission tool.risk_classification config.permission_profile
      (some config.org_policy_floor)

-- `(config.org_policy_floor or {}).get(risk, "auto") != "auto"`
unfoldable pub floor_forces : CoworkerConfig → Tool → Bool
floor_forces config tool =
    not (is_auto (get_or_default "auto" (lookup tool.risk_classification config.org_policy_floor)))

unfoldable pub standing_approval : Worker → Tool → ToolCall → Answer
standing_approval worker tool call =
    resolve_approval_policy worker.decimal worker.policies worker.workspace_id worker.coworker_id
      tool.id call.arguments

abbrev pub ask_approval : Worker → Work → Tool → ToolCall → Work
ask_approval worker work tool call =
    let waiting = report worker work TaskStatus.needs_approval in
    record waiting {
      approvals =
          record {
            tool_call_id = call.id;
            tool_id = tool.id;
            name = call.name;
            arguments = call.arguments;
            status = ApprovalStatus.pending;
          }
          ∷ work.approvals;
      audited = "task.approval_requested" ∷ work.audited;
      notices = approval_requested call.name ∷ work.notices;
    }

abbrev pub take_reply : Work → ToolCall → String → Progress
take_reply work call content = again (record (append_message work (reply_to call content)) {
  audited = "task.tool_executed" ∷ work.audited;
})

abbrev pub take_execution : Worker → Work → ToolCall → Execution → Progress
take_execution worker work call (output value error) =
    take_reply work call (worker.dumps value error)
take_execution worker work call (tool_failure message) =
    take_reply work call (worker.dumps_failure message)
take_execution worker work call (crash message) = raised work message

-- The tool is called, however that ends.
abbrev pub execute_call : Worker → Work → ToolCall → Progress
execute_call worker work call =
    take_execution worker (record work { executed = call ∷ work.executed }) call
      (worker.execute_tool call.name call.arguments)

-- A standing approval turns the decision to `auto`, and its use is audited.
abbrev pub settle_standing : Worker → Work → Tool → ToolCall → Answer → Progress
settle_standing worker work tool call (matched policy) =
    execute_call worker (record work { audited = "tool.policy_auto_approved" ∷ work.audited }) call
settle_standing worker work tool call no_match = return (ask_approval worker work tool call)
settle_standing worker work tool call Answer.raised =
    raised work "[<class 'decimal.InvalidOperation'>]"

abbrev pub settle_permission :
    Worker → Work → CoworkerConfig → Tool → ToolCall → Decision → Progress
settle_permission worker work config tool call auto = execute_call worker work call
settle_permission worker work config tool call approval =
    if floor_forces config tool
    then return (ask_approval worker work tool call)
    else settle_standing worker work tool call (standing_approval worker tool call)

abbrev pub call_unrequested : Worker → Work → CoworkerConfig → Tool → ToolCall → Effect → Progress
call_unrequested worker work config tool call deny =
    return (block worker work none "Organization policy denied a required tool action.")
call_unrequested worker work config tool call require_approval =
    return (ask_approval worker work tool call)
call_unrequested worker work config tool call allow =
    settle_permission worker work config tool call (permission_for config tool)

-- With an approved request a call runs unless a rule of the organization denies it.
abbrev pub call_approved : Worker → Work → ToolCall → Effect → Progress
call_approved worker work call deny =
    return (block worker work none "Organization policy denied a required tool action.")
call_approved worker work call _ = execute_call worker work call

abbrev pub call_requested : Worker → Work → Tool → ToolCall → ApprovalStatus → Progress
call_requested worker work tool call ApprovalStatus.pending =
    return (report worker work TaskStatus.needs_approval)
call_requested worker work tool call ApprovalStatus.approved =
    call_approved worker work call (rule_for worker tool)
call_requested worker work tool call _ =
    return (block worker work (some work.messages) "A required action was denied.")

abbrev pub call_with_request :
    Worker → Work → CoworkerConfig → Tool → ToolCall → Option CallApproval → Progress
call_with_request worker work config tool call none =
    call_unrequested worker work config tool call (rule_for worker tool)
call_with_request worker work config tool call (some request) =
    call_requested worker work tool call request.status

abbrev pub call_with_tool : Worker → Work → CoworkerConfig → ToolCall → Option Tool → Progress
call_with_tool worker work config call none =
    again (append_message work (reply_to call (worker.dumps_missing call.name)))
call_with_tool worker work config call (some tool) =
    call_with_request worker work config tool call (approval_for_call work.approvals call.id)

unfoldable pub process_call : Worker → CoworkerConfig → ToolCall → Work → Progress
process_call worker config call work =
    if is_answered call.id work.messages
    then again work
    else if str_eq call.name "ask_user"
    then ask_or_raise worker work call (no_get call.arguments)
    else call_with_tool worker work config call (lookup call.name worker.tools)
