-- ===== src/TaskEngine/Loop.antt =====
-- The turns of `execute_background_task` (services/app/ai/task_engine.py).
use deep_foundry.Base.{ℕ, zero, suc, String, Option, none, some, List, [], ◌∷◌}
use deep_foundry.Workflow.State.{TaskStatus}
use deep_foundry.Workflow.Engine.{CoworkerConfig}
use deep_foundry.TaskEngine.{
  Role, ToolCall, Message, ModelResponse, Generation, answer, router_error, TaskRow, task_completed,
  CallApproval, Work, Worker, unresolved, append_message, report_task_status, claim_task_execution,
}
use deep_foundry.TaskEngine.Calls.{Progress, again, return, raised, report, process_call}

abbrev pub next_call : Progress → (Work → Progress) → Progress
next_call (again work) rest = rest work
next_call (return work) rest = return work
next_call (raised work message) rest = raised work message

-- The loop over the calls of one message.
unfoldable pub process_calls : Worker → CoworkerConfig → List ToolCall → Work → Progress
process_calls worker config [] work = again (report worker work TaskStatus.in_progress)
process_calls worker config (call ∷ calls) work =
    next_call (process_call worker config call work) (process_calls worker config calls)

abbrev pub report_completed : Worker → Work → String → Work
report_completed worker work content = record work {
  row =
      report_task_status worker.now work.row TaskStatus.completed (some work.messages)
        (some content) none;
}

-- The task is reported completed before its memory is written, which may raise.
abbrev pub complete : Worker → Work → String → Option String → Progress
complete worker work content (some message) = raised (report_completed worker work content) message
complete worker work content none = return (record (report_completed worker work content) {
  memories = content ∷ work.memories;
  audited = "task.completed" ∷ work.audited;
  notices = task_completed TaskStatus.completed ∷ work.notices;
})

abbrev pub take_answer : Worker → Work → ModelResponse → Progress
take_answer worker work response =
    let said = append_message work (record {
      role = Role.assistant;
      content = response.content;
      tool_call_id = none;
      tool_calls = response.tool_calls;
    }) in
    elim response.tool_calls [
      | [] ↦ complete worker said response.content (worker.write_memory response.content)
      | ◌∷◌ _ _ ↦ again (report worker said TaskStatus.in_progress)
    ]

abbrev pub model_turn : Worker → Work → Generation → Progress
model_turn worker work (router_error message) = raised work message
model_turn worker work (answer response) = take_answer worker work response

abbrev pub message_turn : Worker → CoworkerConfig → Work → Option Message → Progress
message_turn worker config work none = model_turn worker work (worker.generate work.messages)
message_turn worker config work (some message) = process_calls worker config message.tool_calls work

unfoldable pub iteration : Worker → CoworkerConfig → Work → Progress
iteration worker config work = message_turn worker config work (unresolved work.messages)

-- `for _ in range(MAX_TASK_ITERATIONS)`, after which the code raises.
unfoldable pub iterate : ℕ → Worker → CoworkerConfig → Work → Progress
iterate zero worker config work = raised work "Task exceeded the maximum model/tool iterations."
iterate (suc n) worker config work =
    next_call (iteration worker config work) (iterate n worker config)

-- `except Exception`
abbrev pub fail_task : Worker → Work → String → Work
fail_task worker work message = record work {
  row =
      report_task_status worker.now work.row TaskStatus.failed none none
        (some (worker.clip message));
  audited = "task.failed" ∷ work.audited;
  notices = task_completed TaskStatus.failed ∷ work.notices;
}

abbrev pub finish : Worker → Progress → Work
finish worker (again work) = work
finish worker (return work) = work
finish worker (raised work message) = fail_task worker work message

abbrev pub starting_messages : Worker → TaskRow → List Message
starting_messages worker row = elim row.messages [
  | [] ↦ worker.initial_messages
  | ◌∷◌ m ms ↦ m ∷ ms
]

abbrev pub start_work : Worker → TaskRow → List CallApproval → Work
start_work worker row approvals = record {
  row = row;
  messages = starting_messages worker row;
  approvals = approvals;
  executed = [];
  notices = [];
  audited = [];
  memories = [];
}

abbrev pub run_claimed : ℕ → Worker → Work → Option CoworkerConfig → Work
run_claimed limit worker work none = fail_task worker work worker.config_error
run_claimed limit worker work (some config) = finish worker (iterate limit worker config work)

abbrev pub deliver : ℕ → Worker → List CallApproval → Option TaskRow → Option Work
deliver limit worker approvals none = none
deliver limit worker approvals (some row) =
    some (run_claimed limit worker (start_work worker row approvals) worker.config)

-- `limit` is `MAX_TASK_ITERATIONS`; the result is `none` if the task could not be claimed.
unfoldable pub execute_background_task : ℕ → Worker → List CallApproval → TaskRow → Option Work
execute_background_task limit worker approvals row =
    deliver limit worker approvals (claim_task_execution row)
