-- ===== src/Workflow/ToolStep.antt =====
-- The tool step of `advance_workflow_run` (services/app/core/v2_engine.py).
use deep_foundry.Base.{
  ◌+◌, String, str_eq, Bool, false, not, Option, none, some, [], ◌∷◌, if◌then◌else◌,
}
use deep_foundry.Base.Dict.{Dict, get_or_default}
use deep_foundry.Json.{Json, text, object, end, get}
use deep_foundry.Permissions.{Decision, auto, approval, resolve_tool_permission}
use deep_foundry.Policy.{Effect, deny, require_approval, resolve_org_action_policy}
use deep_foundry.Workflow.State.{
  StepStatus, RunStatus, ApprovalStatus, StepResult, Step, Approval, Notice, Call, Run, save_step,
  approval_for_step,
}
use deep_foundry.Workflow.Engine.{
  Tool, CoworkerConfig, ToolResult, Env, return, again, raised, Turn, failed_turn, step_forward,
}

-- `definition.get("arguments", {})`
abbrev pub arguments_of : Step → Json
arguments_of step = get_or_default (object end) (get "arguments" step.definition)

-- `if output.error`: a missing error and an empty text are both false.
abbrev pub has_error : Option String → Bool
has_error none = false
has_error (some e) = not (str_eq e "")

abbrev pub record_output : Env → Run → Step → ToolResult → Turn
record_output env run step result =
    if has_error result.error
    then failed_turn env (
        save_step run (record step {
          status = StepStatus.failed;
          result = StepResult.tool_result result.output result.error;
          completed_at = some env.now;
        }))
    else (
      step_forward (
          save_step run (record step {
            status = StepStatus.completed;
            result = StepResult.tool_result result.output none;
            completed_at = some env.now;
          })),
      again,
    )

abbrev pub take_output : Env → Run → Step → Option ToolResult → Turn
take_output env run step none = (run, raised)
take_output env run step (some result) = record_output env run step result

-- The call of the tool, which happened whatever it returns or raises.
abbrev pub execute : Env → Run → Step → Tool → Turn
execute env run step tool =
    let call : Call = record {
      step = run.current_step_index;
      name = tool.name;
      arguments = arguments_of step;
    } in
    take_output env (record run { calls = call ∷ run.calls }) step
      (env.execute_workflow_tool tool.name (arguments_of step))

abbrev pub request_approval : Env → Run → Step → Tool → Json → Run
request_approval env run step tool coworker =
    let waiting =
      save_step run
        (record step { status = StepStatus.needs_approval; started_at = some env.now }) in
    record waiting {
      approvals =
          record {
            id = run.next_id;
            step = run.current_step_index;
            coworker_id = coworker;
            tool_id = tool.id;
            name = tool.name;
            arguments = arguments_of step;
            status = ApprovalStatus.pending;
          }
          ∷ run.approvals;
      next_id = run.next_id + 1;
      status = RunStatus.needs_approval;
      notices =
          Notice.approval_requested run.next_id
            (get_or_default (text "Workflow tool approval") (get "title" step.definition))
          ∷ run.notices;
    }

-- What an approval request on the step lets happen.
abbrev pub with_approval : Env → Run → Step → Tool → ApprovalStatus → Turn
with_approval env run step tool ApprovalStatus.pending = (run, return false)
with_approval env run step tool ApprovalStatus.approved = execute env run step tool
with_approval env run step tool _ = failed_turn env run

-- A decision on the call and the approval request that the step may have by now.
abbrev pub settle : Env → Run → Step → Tool → Json → Decision → Option Approval → Turn
settle env run step tool coworker approval none =
    (request_approval env run step tool coworker, return false)
settle env run step tool coworker auto none = execute env run step tool
settle env run step tool coworker _ (some request) = with_approval env run step tool request.status

-- An organization rule can only make the decision stricter.
abbrev pub raise_decision : Effect → Decision → Decision
raise_decision require_approval decision = approval
raise_decision _ decision = decision

abbrev pub deny_step : Env → Run → Step → Turn
deny_step env run step = failed_turn env (
    save_step run (record step {
      status = StepStatus.failed;
      result = StepResult.policy_denied;
      completed_at = some env.now;
    }))

unfoldable pub action_context : Tool → Dict Json
action_context tool = ("tool_name", text tool.name) ∷ ("risk", text tool.risk_classification) ∷ []

unfoldable pub org_decision : Env → Tool → Effect
org_decision env tool =
    resolve_org_action_policy env.rules env.workspace_id "tool" "execute" (action_context tool)

unfoldable pub decision : Env → Tool → CoworkerConfig → Decision
decision env tool config = raise_decision (org_decision env tool) (
    resolve_tool_permission tool.risk_classification config.permission_profile
      (some config.org_policy_floor))

abbrev pub under_policy : Env → Run → Step → Tool → Json → CoworkerConfig → Effect → Turn
under_policy env run step tool coworker config deny = deny_step env run step
under_policy env run step tool coworker config _ =
    settle env run step tool coworker (decision env tool config)
      (approval_for_step run.approvals run.current_step_index)

abbrev pub with_tool : Env → Run → Step → Json → Option Tool → Option CoworkerConfig → Turn
with_tool env run step coworker (some tool) (some config) =
    under_policy env run step tool coworker config (org_decision env tool)
with_tool env run step coworker _ _ = (run, raised)

abbrev pub with_names : Env → Run → Step → Option Json → Option Json → Turn
with_names env run step (some coworker) (some tool_name) =
    with_tool env run step coworker (env.attachment coworker tool_name) (env.config coworker)
with_names env run step _ _ = (run, raised)

unfoldable pub tool_turn : Env → Run → Step → Turn
tool_turn env run step =
    with_names env run step (get "coworker_id" step.definition) (get "tool_name" step.definition)
