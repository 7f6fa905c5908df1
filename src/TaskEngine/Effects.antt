-- ===== src/TaskEngine/Effects.antt =====
-- What one tool call of a background task can do.
use deep_foundry.Base.{
  ℕ, String, str_eq, Bool, true, false, ◌||◌, Option, none, some, List, ◌∷◌, ◌≡◌, ◌≢◌, inl, inr,
  refl, Bool-cases,
}
use deep_foundry.Base.Dict.{lookup}
use deep_foundry.Permissions.{Decision, auto, approval}
use deep_foundry.Policy.{Effect, allow, deny, require_approval, Answer, matched, no_match}
use deep_foundry.Workflow.State.{TaskStatus, ApprovalStatus}
use deep_foundry.Workflow.Engine.{Tool, CoworkerConfig}
use deep_foundry.TaskEngine.{
  ToolCall, Execution, output, tool_failure, crash, CallApproval, Work, Worker, is_answered,
  reply_to, append_message, approval_for_call, is_final, report_task_status,
}
use deep_foundry.TaskEngine.Calls.{
  Progress, again, return, raised, rule_for, permission_for, floor_forces, standing_approval,
  take_execution, settle_standing, settle_permission, call_unrequested, call_approved,
  call_requested, call_with_request, call_with_tool, process_call, no_get, ask_or_raise,
}

-- The task waits for a person.
abbrev pub is_stop : TaskStatus → Bool
is_stop TaskStatus.needs_input = true
is_stop TaskStatus.needs_approval = true
is_stop _ = false

-- A task that a delivery leaves: it waits, or it has ended at this delivery's time.
abbrev pub IsSettled : Worker → Work → Type 0
IsSettled worker work =
    ((is_stop work.row.status || is_final work.row.status) ≡ true)
    × (is_final work.row.status ≡ true → work.row.completed_at ≡ some worker.now)

-- Why a call may run.
pub data Consent (worker : Worker) (config : CoworkerConfig) (approvals : List CallApproval)
    (tool : Tool) (call : ToolCall) : Type 0 where
  by_profile :
      permission_for config tool ≡ auto
      → rule_for worker tool ≡ allow
      → Consent worker config approvals tool call
  by_policy :
      (policy : ℕ)
      → standing_approval worker tool call ≡ matched policy
      → floor_forces config tool ≡ false
      → rule_for worker tool ≡ allow
      → Consent worker config approvals tool call
  by_request :
      (request : CallApproval)
      → approval_for_call approvals call.id ≡ some request
      → request.status ≡ ApprovalStatus.approved
      → Consent worker config approvals tool call

-- A call that may run: its tool is attached, no rule denies it, and somebody consents.
pub record Vouched (worker : Worker) (config : CoworkerConfig) (approvals : List CallApproval)
    (call : ToolCall) : Type 0 where
  pub tool : Tool
  pub attached : lookup call.name worker.tools ≡ some tool
  pub not_denied : rule_for worker tool ≢ deny
  pub consent : Consent worker config approvals tool call

pub data CallDoes (worker : Worker) (config : CoworkerConfig) (work : Work) (call : ToolCall)
    : Progress → Type 0 where
  skips : CallDoes worker config work call (again work)
  misses :
      (content : String)
      → is_answered call.id work.messages ≡ false
      → CallDoes worker config work call (again (append_message work (reply_to call content)))
  stops :
      (next : Work)
      → next.executed ≡ work.executed
      → IsSettled worker next
      → CallDoes worker config work call (return next)
  breaks : (message : String) → CallDoes worker config work call (raised work message)
  runs :
      (content : String) (audited : List String)
      → is_answered call.id work.messages ≡ false
      → Vouched worker config work.approvals call
      → CallDoes worker config work call (
          again (record (append_message work (reply_to call content)) {
            executed = call ∷ work.executed;
            audited = audited;
          }))
  crashes :
      (message : String) (audited : List String)
      → is_answered call.id work.messages ≡ false
      → Vouched worker config work.approvals call
      → CallDoes worker config work call
          (raised (record work { executed = call ∷ work.executed; audited = audited }) message)

module _ (worker : Worker) (config : CoworkerConfig) (work : Work) (call : ToolCall)
    (unanswered : is_answered call.id work.messages ≡ false) where
  execute_call-Does :
      (audited : List String)
      → Vouched worker config work.approvals call
      → (execution : Execution)
      → CallDoes worker config work call (
          take_execution worker
            (record work { executed = call ∷ work.executed; audited = audited })
            call
            execution)
  execute_call-Does audited vouched (output value error) = runs _ _ unanswered vouched
  execute_call-Does audited vouched (tool_failure message) = runs _ _ unanswered vouched
  execute_call-Does audited vouched (crash message) = crashes message audited unanswered vouched

  module _ (tool : Tool) (attached : lookup call.name worker.tools ≡ some tool) where
    settle_standing-Does :
        rule_for worker tool ≡ allow
        → floor_forces config tool ≡ false
        → (standing : Answer) → standing_approval worker tool call ≡ standing
        → CallDoes worker config work call (settle_standing worker work tool call standing)
    unfolding report_task_status
    settle_standing-Does rule floor (matched policy) e =
        execute_call-Does ("tool.policy_auto_approved" ∷ work.audited)
          (record {
            tool = tool;
            attached = attached;
            not_denied = λ d. cc;
            consent = by_policy policy e floor rule;
          })
          (worker.execute_tool call.name call.arguments)
    settle_standing-Does rule floor no_match e = stops _ refl (refl, λ f. cc)
    settle_standing-Does rule floor Answer.raised e = breaks _

    settle_permission-Does :
        rule_for worker tool ≡ allow
        → (decision : Decision) → permission_for config tool ≡ decision
        → CallDoes worker config work call (settle_permission worker work config tool call decision)
    unfolding report_task_status
    settle_permission-Does rule auto e =
        execute_call-Does work.audited
          (record {
            tool = tool;
            attached = attached;
            not_denied = λ d. cc;
            consent = by_profile e rule;
          })
          (worker.execute_tool call.name call.arguments)
    settle_permission-Does rule approval e = elim (Bool-cases (floor_forces config tool)) [
      | inl forces ↦ rw forces (stops _ refl (refl, λ f. cc))
      | inr free ↦ rw free (settle_standing-Does rule free _ refl)
    ]

    call_unrequested-Does :
        (rule : Effect)
        → rule_for worker tool ≡ rule
        → CallDoes worker config work call (call_unrequested worker work config tool call rule)
    unfolding report_task_status
    call_unrequested-Does deny e = stops _ refl (refl, λ f. refl)
    call_unrequested-Does require_approval e = stops _ refl (refl, λ f. cc)
    call_unrequested-Does allow e = settle_permission-Does e _ refl

    call_approved-Does :
        (request : CallApproval)
        → approval_for_call work.approvals call.id ≡ some request
        → request.status ≡ ApprovalStatus.approved
        → (rule : Effect) → rule_for worker tool ≡ rule
        → CallDoes worker config work call (call_approved worker work call rule)
    unfolding report_task_status
    call_approved-Does request it agreed deny e = stops _ refl (refl, λ f. refl)
    call_approved-Does request it agreed require_approval e =
        execute_call-Does work.audited
          (record {
            tool = tool;
            attached = attached;
            not_denied = λ d. cc;
            consent = by_request request it agreed;
          })
          (worker.execute_tool call.name call.arguments)
    call_approved-Does request it agreed allow e =
        execute_call-Does work.audited
          (record {
            tool = tool;
            attached = attached;
            not_denied = λ d. cc;
            consent = by_request request it agreed;
          })
          (worker.execute_tool call.name call.arguments)

    call_requested-Does :
        (request : CallApproval)
        → approval_for_call work.approvals call.id ≡ some request
        → (status : ApprovalStatus) → request.status ≡ status
        → CallDoes worker config work call (call_requested worker work tool call status)
    unfolding report_task_status
    call_requested-Does request it ApprovalStatus.pending e = stops _ refl (refl, λ f. cc)
    call_requested-Does request it ApprovalStatus.approved e =
        call_approved-Does request it e _ refl
    call_requested-Does request it ApprovalStatus.denied e = stops _ refl (refl, λ f. refl)
    call_requested-Does request it ApprovalStatus.expired e = stops _ refl (refl, λ f. refl)

    call_with_request-Does :
        (request : Option CallApproval)
        → approval_for_call work.approvals call.id ≡ request
        → CallDoes worker config work call (call_with_request worker work config tool call request)
    call_with_request-Does none e = call_unrequested-Does _ refl
    call_with_request-Does (some request) e = call_requested-Does request e _ refl

  call_with_tool-Does :
      (tool : Option Tool)
      → lookup call.name worker.tools ≡ tool
      → CallDoes worker config work call (call_with_tool worker work config call tool)
  call_with_tool-Does none e = misses _ unanswered
  call_with_tool-Does (some tool) e = call_with_request-Does tool e _ refl

ask_or_raise-Does :
    (worker : Worker) (config : CoworkerConfig) (call : ToolCall) (work : Work)
    (message : Option String)
    → CallDoes worker config work call (ask_or_raise worker work call message)
unfolding report_task_status
ask_or_raise-Does worker config call work none = stops _ refl (refl, λ f. cc)
ask_or_raise-Does worker config call work (some message) = breaks message

-- Every call does one of the things that the relation lists.
pub process_call-Does :
    (worker : Worker) (config : CoworkerConfig) (call : ToolCall) (work : Work)
    → CallDoes worker config work call (process_call worker config call work)
unfolding process_call report_task_status
process_call-Does worker config call work = elim (Bool-cases (is_answered call.id work.messages)) [
  | inl e ↦ rw e skips
  | inr e ↦ rw e (elim (Bool-cases (str_eq call.name "ask_user")) [
    | inl asks ↦ rw asks (ask_or_raise-Does worker config call work (no_get call.arguments))
    | inr other ↦ rw other (call_with_tool-Does worker config work call e _ refl)
  ])
]
