-- ===== src/Workflow/Turns.antt =====
-- Every turn of `advance_workflow_run` does one of the things that the relation `Does` lists.
use deep_foundry.Base.{
  Bool, true, false, Option, none, some, ◌≡◌, ◌≢◌, inl, inr, refl, arith, get_elem?, Option-cases,
  Bool-cases,
}
use deep_foundry.Json.{Json, get}
use deep_foundry.Permissions.{Decision, auto, approval}
use deep_foundry.Policy.{Effect, allow, deny, require_approval}
use deep_foundry.Workflow.State.{
  StepStatus, ApprovalStatus, TaskStatus, StepType, Step, Run, Task, Approval, save_step, is_active,
  approval_for_step, task_by_id, task_id_of,
}
use deep_foundry.Workflow.Engine.{
  Tool, CoworkerConfig, ToolResult, Env, condition_turn, action_turn, jump, place_of, task_of,
  read_condition, decide_condition, start_task, follow_task, failed_turn,
}
use deep_foundry.Workflow.ToolStep.{
  tool_turn, has_error, take_output, arguments_of, with_approval, settle, under_policy, with_tool,
  with_names, decision, org_decision,
}
use deep_foundry.Workflow.Advance.{turn, type_turn, step_turn}
use deep_foundry.Workflow.Effects.{
  is_open, with_call, Permitted, failed_turn_lem, Does, stays, raises, completes, passes, jumps,
  jumps_nowhere, asks, starts, finishes, fails, gives_up, requests, executes, executes_failing,
  executes_raising,
}

module _ (env : Env) (run : Run) (step : Step)
    (found : get_elem? run.steps run.current_step_index ≡ some step) (opened : is_open step ≡ true)
    (active : is_active run.status ≡ true) where
  jump-Does :
      (done : Step)
      → is_open done ≡ false
      → (target : Option Json) → Does env run (jump env (save_step run done) target)
  jump-Does done closed none = jumps_nowhere step done found opened closed
  jump-Does done closed (some v) = elim (Option-cases (place_of env v)) [
    | inl e ↦ rw (e, jump) (jumps_nowhere step done found opened closed)
    | inr (i, e) ↦ rw (e, jump) (jumps step done i found opened closed)
  ]

  decide_condition-Does :
      (value : Json) (matched : Option Bool)
      → Does env run (decide_condition env run step value matched)
  decide_condition-Does value none = raises
  decide_condition-Does value (some matched) = jump-Does _ refl _

  read_condition-Does :
      (condition : Json) (path operator : Option Json)
      → Does env run (read_condition env run step condition path operator)
  read_condition-Does condition (some path) (some operator) = decide_condition-Does _ _
  read_condition-Does condition _ _ = raises

  condition_turn-Does : Does env run (condition_turn env run step)
  unfolding condition_turn
  condition_turn-Does = elim (Option-cases (get "condition" step.definition)) [
    | inl e ↦ rw (e, condition_turn) raises
    | inr (c, e) ↦ rw (e, condition_turn) (read_condition-Does c _ _)
  ]

  failed_step-Does :
      (failed : Step)
      → is_open failed ≡ true
      → Does env run (failed_turn env (save_step run failed))
  failed_step-Does failed still =
      rw (failed_turn_lem env (save_step run failed) active)
        (fails step failed found opened still active)

  failed_call-Does :
      (tool : Tool)
      → Permitted env run step tool
      → (failed : Step) → is_open failed ≡ true
      → Does env run (failed_turn env (save_step (with_call run step tool) failed))
  failed_call-Does tool permitted failed still =
      rw (failed_turn_lem env (save_step (with_call run step tool) failed) active)
        (executes_failing step failed tool found opened still active permitted)

  follow_task-Does :
      (task : Task) (status : TaskStatus) → Does env run (follow_task env run step task status)
  follow_task-Does task TaskStatus.completed = finishes step task found opened
  follow_task-Does task TaskStatus.failed = failed_step-Does _ refl
  follow_task-Does task TaskStatus.blocked = failed_step-Does _ refl
  follow_task-Does task _ = stays true

  start_task-Does : (coworker : Option Json) → Does env run (start_task env run step coworker)
  start_task-Does none = raises
  start_task-Does (some coworker) =
      elim (Bool-cases (env.refuses_task (task_of run step coworker))) [
        | inl e ↦ rw e raises
        | inr e ↦ rw e (starts step coworker found opened)
      ]

  action_turn-Does : Does env run (action_turn env run step)
  unfolding action_turn
  action_turn-Does = elim (Option-cases (task_id_of step.result)) [
    | inl e ↦ rw (e, action_turn) (start_task-Does _)
    | inr (i, e) ↦
        rw (e, action_turn)
          (elim (Option-cases (task_by_id run.tasks i)) [
            | inl none_such ↦ rw none_such raises
            | inr (task, it) ↦ rw it (follow_task-Does task task.status)
          ])
  ]

  -- The premises under which a tool step comes to its decision.
  module _ (coworker tool_name : Json) (tool : Tool) (config : CoworkerConfig)
      (of_coworker : get "coworker_id" step.definition ≡ some coworker)
      (of_tool : get "tool_name" step.definition ≡ some tool_name)
      (attached : env.attachment coworker tool_name ≡ some tool)
      (configured : env.config coworker ≡ some config)
      (not_denied : org_decision env tool ≢ deny) where
    take_output-Does :
        Permitted env run step tool
        → (output : Option ToolResult)
        → Does env run (take_output env (with_call run step tool) step output)
    take_output-Does permitted none = executes_raising step tool found opened permitted
    take_output-Does permitted (some result) = elim (Bool-cases (has_error result.error)) [
      | inl e ↦ rw e (failed_call-Does tool permitted _ refl)
      | inr e ↦ rw e (executes step tool result found opened permitted)
    ]

    with_approval-Does :
        (request : Approval)
        → approval_for_step run.approvals run.current_step_index ≡ some request
        → (status : ApprovalStatus) → request.status ≡ status
        → Does env run (with_approval env run step tool status)
    with_approval-Does request it ApprovalStatus.pending e = stays false
    with_approval-Does request it ApprovalStatus.approved e =
        take_output-Does
          (record {
            coworker = coworker;
            tool_name = tool_name;
            config = config;
            of_coworker = of_coworker;
            of_tool = of_tool;
            attached = attached;
            configured = configured;
            not_denied = not_denied;
            consent = inr (request, it, e);
          })
          (env.execute_workflow_tool tool.name (arguments_of step))
    with_approval-Does request it _ e =
        rw (failed_turn_lem env run active) (gives_up step found opened active)

    settle-Does :
        (d : Decision)
        → decision env tool config ≡ d
        → (request : Option Approval)
        → approval_for_step run.approvals run.current_step_index ≡ request
        → Does env run (settle env run step tool coworker d request)
    settle-Does approval e none it = requests step tool coworker found opened
    settle-Does auto e none it =
        take_output-Does
          (record {
            coworker = coworker;
            tool_name = tool_name;
            config = config;
            of_coworker = of_coworker;
            of_tool = of_tool;
            attached = attached;
            configured = configured;
            not_denied = not_denied;
            consent = inl (it, e);
          })
          (env.execute_workflow_tool tool.name (arguments_of step))
    settle-Does approval e (some request) it = with_approval-Does request it request.status refl
    settle-Does auto e (some request) it = with_approval-Does request it request.status refl

  under_policy-Does :
      (coworker tool_name : Json) (tool : Tool) (config : CoworkerConfig)
      → get "coworker_id" step.definition ≡ some coworker
      → get "tool_name" step.definition ≡ some tool_name
      → env.attachment coworker tool_name ≡ some tool
      → env.config coworker ≡ some config
      → (effect : Effect) → org_decision env tool ≡ effect
      → Does env run (under_policy env run step tool coworker config effect)
  under_policy-Does coworker tool_name tool config oc ot at cf deny e = failed_step-Does _ refl
  under_policy-Does coworker tool_name tool config oc ot at cf allow e =
      settle-Does coworker tool_name tool config oc ot at cf (λ d. cc) _ refl _ refl
  under_policy-Does coworker tool_name tool config oc ot at cf require_approval e =
      settle-Does coworker tool_name tool config oc ot at cf (λ d. cc) _ refl _ refl

  with_tool-Does :
      (coworker tool_name : Json)
      → get "coworker_id" step.definition ≡ some coworker
      → get "tool_name" step.definition ≡ some tool_name
      → (tool : Option Tool) → env.attachment coworker tool_name ≡ tool
      → (config : Option CoworkerConfig) → env.config coworker ≡ config
      → Does env run (with_tool env run step coworker tool config)
  with_tool-Does coworker tool_name oc ot (some tool) at (some config) cf =
      under_policy-Does coworker tool_name tool config oc ot at cf _ refl
  with_tool-Does coworker tool_name oc ot _ at _ cf = raises

  with_names-Does :
      (coworker : Option Json)
      → get "coworker_id" step.definition ≡ coworker
      → (tool_name : Option Json) → get "tool_name" step.definition ≡ tool_name
      → Does env run (with_names env run step coworker tool_name)
  with_names-Does (some coworker) oc (some tool_name) ot =
      with_tool-Does coworker tool_name oc ot _ refl _ refl
  with_names-Does _ oc _ ot = raises

  tool_turn-Does : Does env run (tool_turn env run step)
  unfolding tool_turn
  tool_turn-Does = with_names-Does _ refl _ refl

  type_turn-Does : (type : StepType) → Does env run (type_turn env run step type)
  type_turn-Does StepType.condition = condition_turn-Does
  type_turn-Does StepType.human_checkpoint = asks step found opened
  type_turn-Does StepType.coworker_action = action_turn-Does
  type_turn-Does StepType.tool_call = tool_turn-Does

step_turn-Does :
    (env : Env) (run : Run) (step : Step)
    → get_elem? run.steps run.current_step_index ≡ some step
    → is_active run.status ≡ true
    → (status : StepStatus) → step.status ≡ status
    → Does env run (step_turn env run step status)
step_turn-Does env run step found active StepStatus.needs_approval e = stays false
step_turn-Does env run step found active StepStatus.completed e = passes step found (ground arith)
step_turn-Does env run step found active _ e =
    type_turn-Does env run step found (ground arith) active step.step_type

-- Every turn does one of the things that the relation lists.
pub turn-Does : (env : Env) (run : Run) → Does env run (turn env run)
unfolding turn
turn-Does env run = elim (Bool-cases (is_active run.status)) [
  | inl active ↦ rw active (elim (Option-cases (get_elem? run.steps run.current_step_index)) [
    | inl e ↦ rw e (completes e)
    | inr (step, e) ↦ rw e (step_turn-Does env run step e active step.status refl)
  ])
  | inr inactive ↦ rw inactive (stays false)
]
