-- ===== src/TaskEngine.antt =====
-- The background work of a coworker: `execute_background_task` of services/app/ai/task_engine.py,
-- with the reads and writes of a task of services/app/core/interface.py. This file holds the rows
-- and the messages.
pub mod Calls
pub mod Loop
pub mod Effects
pub mod Induction
pub mod Consent
pub mod Once
pub mod Endings
mod Tests
use deep_foundry.Base.{
  ℕ, String, str_eq, Bool, true, false, ◌&&◌, ◌||◌, not, Option, none, some, List, [], ◌∷◌, ◌++◌,
  any, all, find, if◌then◌else◌,
}
use deep_foundry.Base.Dict.{Dict}
use deep_foundry.Json.{Json}
use deep_foundry.Policy.{Rule, ApprovalPolicy, Amount}
use deep_foundry.Workflow.State.{TaskStatus, ApprovalStatus}
use deep_foundry.Workflow.Engine.{Tool, CoworkerConfig}

pub data Role : Type 0 where
  system user assistant tool : Role

-- `ToolCall` of ai/model_router/types.py
pub record ToolCall : Type 0 where
  pub id : String
  pub name : String
  pub arguments : Json

-- `ChatMessage`; no tool calls and an empty list of them are the same to this code.
pub record Message : Type 0 where
  pub role : Role
  pub content : String
  pub tool_call_id : Option String
  pub tool_calls : List ToolCall

-- What the router answers.
pub record ModelResponse : Type 0 where
  pub content : String
  pub tool_calls : List ToolCall

-- How a tool's execution ends: with an output and perhaps an error, with a `ToolExecutionError`, or
-- with another exception.
pub data Execution : Type 0 where
  output : Json → Option String → Execution
  tool_failure : String → Execution
  crash : String → Execution

-- What the router's `generate` does: it answers, or it raises with a text.
pub data Generation : Type 0 where
  answer : ModelResponse → Generation
  router_error : String → Generation

-- An approval request of this task; newest first.
pub record CallApproval : Type 0 where
  pub tool_call_id : String
  pub tool_id : ℕ
  pub name : String
  pub arguments : Json
  pub status : ApprovalStatus

-- The task's row: `messages` and `pending_question` stand in its `execution_state`.
pub record TaskRow : Type 0 where
  pub status : TaskStatus
  pub messages : List Message
  pub pending_question : Option (String × String)
  pub result : String
  pub error_message : String
  pub completed_at : Option ℕ

-- A call of `_notify`.
pub data TaskNotice : Type 0 where
  input_requested : String → TaskNotice
  approval_requested : String → TaskNotice
  task_completed : TaskStatus → TaskNotice

-- The state of one delivery: the rows that it writes, the messages in memory, and its effects.
pub record Work : Type 0 where
  pub row : TaskRow
  pub messages : List Message
  pub approvals : List CallApproval
  pub executed : List ToolCall
  pub notices : List TaskNotice
  pub audited : List String
  pub memories : List String

-- What a delivery reads: the time, the task's ids, the coworker's configuration (`none`: it raises
-- `config_error`), its tools by name, the rules and standing approvals of the workspace, the
-- first messages of a task, the model router, the tools' execution, the message of the exception with
-- which the writing of a memory ends (`none`: it does not raise), and what the code takes from Python: `str.strip`, `str` of a value that is no text, `json.dumps` of an output,
-- of a tool's failure and of a missing tool, `Decimal` of a text, and the first 2000 characters.
pub record Worker : Type 0 where
  pub now : ℕ
  pub workspace_id : ℕ
  pub coworker_id : ℕ
  pub config : Option CoworkerConfig
  pub config_error : String
  pub tools : Dict Tool
  pub rules : List Rule
  pub policies : List ApprovalPolicy
  pub initial_messages : List Message
  pub generate : List Message → Generation
  pub execute_tool : String → Json → Execution
  pub write_memory : String → Option String
  pub strip : String → String
  pub show : Json → String
  pub dumps : Json → Option String → String
  pub dumps_failure : String → String
  pub dumps_missing : String → String
  pub decimal : String → Option Amount
  pub clip : String → String

abbrev pub is_tool_reply : Message → Bool
is_tool_reply message = elim message.role [ tool ↦ true | _ ↦ false ]

abbrev pub is_assistant : Message → Bool
is_assistant message = elim message.role [ assistant ↦ true | _ ↦ false ]

abbrev pub has_id : String → Option String → Bool
has_id id none = false
has_id id (some i) = str_eq i id

-- `any(reply.role == "tool" and reply.tool_call_id == call.id for reply in messages)`
unfoldable pub is_answered : String → List Message → Bool
is_answered id messages =
    any (λ (m : Message). is_tool_reply m && has_id id m.tool_call_id) messages

-- `reversed(messages)`
abbrev pub reversed : List Message → List Message
reversed [] = []
reversed (m ∷ ms) = reversed ms ++ (m ∷ [])

-- The last message of the assistant with a tool call that has no reply yet.
unfoldable pub unresolved : List Message → Option Message
unresolved messages =
    find
      (λ (m : Message).
        is_assistant m && any (λ (c : ToolCall). not (is_answered c.id messages)) m.tool_calls)
      (reversed messages)

abbrev pub reply_to : ToolCall → String → Message
reply_to call content = record {
  role = tool;
  content = content;
  tool_call_id = some call.id;
  tool_calls = [];
}

abbrev pub append_message : Work → Message → Work
append_message work message = record work { messages = work.messages ++ (message ∷ []) }

-- `Task.Status.COMPLETED, Task.Status.FAILED, Task.Status.BLOCKED`
abbrev pub is_final : TaskStatus → Bool
is_final TaskStatus.completed = true
is_final TaskStatus.failed = true
is_final TaskStatus.blocked = true
is_final _ = false

-- `report_task_status`: each `None` leaves its column alone.
abbrev pub or_keep {ℓ} : {A : Type ℓ} → Option A → A → A
or_keep none old = old
or_keep (some new) old = new

unfoldable pub report_task_status :
    ℕ → TaskRow → TaskStatus → Option (List Message) → Option String → Option String → TaskRow
report_task_status now row status messages result error = record row {
  status = status;
  messages = or_keep messages row.messages;
  result = or_keep result row.result;
  error_message = or_keep error row.error_message;
  completed_at = if is_final status then some now else row.completed_at;
}

-- `claim_task_execution`: a delivery for a task that is not waiting to run is dropped.
unfoldable pub claim_task_execution : TaskRow → Option TaskRow
claim_task_execution row = elim row.status [
  | TaskStatus.pending ↦ some (record row { status = TaskStatus.in_progress; error_message = "" })
  | TaskStatus.needs_approval ↦
      some (record row { status = TaskStatus.in_progress; error_message = "" })
  | _ ↦ none
]

-- `get_approval_request_for_task_call`
unfoldable pub approval_for_call : List CallApproval → String → Option CallApproval
approval_for_call approvals id = find (λ (a : CallApproval). str_eq a.tool_call_id id) approvals
