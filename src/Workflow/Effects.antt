-- ===== src/Workflow/Effects.antt =====
-- What one turn of `advance_workflow_run` can do, as a relation between a run and the turn's result.
use deep_foundry.Base.{ℕ, Bool, true, false, none, some, ◌∷◌, ◌≡◌, ◌≢◌, ◌⊎◌, get_elem?}
use deep_foundry.Json.{Json, get}
use deep_foundry.Permissions.{auto}
use deep_foundry.Policy.{deny}
use deep_foundry.Workflow.State.{
  StepStatus, ApprovalStatus, TaskStatus, Step, Run, Task, Approval, save_step, RunStatus, Notice,
  StepResult, is_active, approval_for_step,
}
use deep_foundry.Workflow.Engine.{
  Tool, CoworkerConfig, ToolResult, Env, return, again, raised, Turn, checkpoint_turn, create_task,
  follow_task, failed_turn, step_forward, fail_workflow_run,
}
use deep_foundry.Workflow.ToolStep.{arguments_of, request_approval, decision, org_decision}
use deep_foundry.Workflow.Advance.{complete_run}

abbrev pub is_open : Step → Bool
is_open step = elim step.status [ StepStatus.completed ↦ false | _ ↦ true ]

-- The run that holds a tool's call.
abbrev pub with_call : Run → Step → Tool → Run
with_call run step tool = record run {
  calls =
      record { step = run.current_step_index; name = tool.name; arguments = arguments_of step }
      ∷ run.calls;
}

-- Why a tool may be called: it is attached to the step's coworker and enabled, no rule of the
-- organization denies it, and either the call needs no approval and none was asked for, or the
-- newest approval request of the step is approved.
pub record Permitted (env : Env) (run : Run) (step : Step) (tool : Tool) : Type 0 where
  pub coworker : Json
  pub tool_name : Json
  pub config : CoworkerConfig
  pub of_coworker : get "coworker_id" step.definition ≡ some coworker
  pub of_tool : get "tool_name" step.definition ≡ some tool_name
  pub attached : env.attachment coworker tool_name ≡ some tool
  pub configured : env.config coworker ≡ some config
  pub not_denied : org_decision env tool ≢ deny
  pub consent :
      ((approval_for_step run.approvals run.current_step_index ≡ none)
        × (decision env tool config ≡ auto))
      ⊎ ((request : Approval) × (approval_for_step run.approvals run.current_step_index
            ≡ some request)
          × (request.status ≡ ApprovalStatus.approved))

-- An active run after `_fail_workflow_run`.
abbrev pub failed_run : Env → Run → Run
failed_run env run = record run {
  status = RunStatus.failed;
  completed_at = some env.now;
  notices = Notice.workflow_failed ∷ run.notices;
}

pub failed_turn_lem :
    (env : Env) (run : Run)
    → is_active run.status ≡ true
    → failed_turn env run ≡ (failed_run env run, return false)
unfolding fail_workflow_run
failed_turn_lem env run active = rw active

pub data Does (env : Env) (run : Run) : Turn → Type 0 where
  stays : (poll : Bool) → Does env run (run, return poll)
  raises : Does env run (run, raised)
  completes :
      get_elem? run.steps run.current_step_index ≡ none
      → Does env run (complete_run env run, return false)
  passes :
      (step : Step)
      → get_elem? run.steps run.current_step_index ≡ some step
      → is_open step ≡ false
      → Does env run (step_forward run, again)
  jumps :
      (step done : Step) (i : ℕ)
      → get_elem? run.steps run.current_step_index ≡ some step
      → is_open step ≡ true
      → is_open done ≡ false
      → Does env run
          (record run { steps = (save_step run done).steps; current_step_index = i }, again)
  jumps_nowhere :
      (step done : Step)
      → get_elem? run.steps run.current_step_index ≡ some step
      → is_open step ≡ true
      → is_open done ≡ false
      → Does env run (save_step run done, raised)
  asks :
      (step : Step)
      → get_elem? run.steps run.current_step_index ≡ some step
      → is_open step ≡ true
      → Does env run (checkpoint_turn env run step)
  starts :
      (step : Step) (coworker : Json)
      → get_elem? run.steps run.current_step_index ≡ some step
      → is_open step ≡ true
      → Does env run (create_task env run step coworker)
  finishes :
      (step : Step) (task : Task)
      → get_elem? run.steps run.current_step_index ≡ some step
      → is_open step ≡ true
      → Does env run (follow_task env run step task TaskStatus.completed)
  fails :
      (step failed : Step)
      → get_elem? run.steps run.current_step_index ≡ some step
      → is_open step ≡ true
      → is_open failed ≡ true
      → is_active run.status ≡ true
      → Does env run (failed_run env (save_step run failed), return false)
  gives_up :
      (step : Step)
      → get_elem? run.steps run.current_step_index ≡ some step
      → is_open step ≡ true
      → is_active run.status ≡ true
      → Does env run (failed_run env run, return false)
  requests :
      (step : Step) (tool : Tool) (coworker : Json)
      → get_elem? run.steps run.current_step_index ≡ some step
      → is_open step ≡ true
      → Does env run (request_approval env run step tool coworker, return false)
  executes :
      (step : Step) (tool : Tool) (result : ToolResult)
      → get_elem? run.steps run.current_step_index ≡ some step
      → is_open step ≡ true
      → Permitted env run step tool
      → Does env run (
        step_forward (
            save_step (with_call run step tool) (record step {
              status = StepStatus.completed;
              result = StepResult.tool_result result.output none;
              completed_at = some env.now;
            })),
        again,
      )
  executes_failing :
      (step failed : Step) (tool : Tool)
      → get_elem? run.steps run.current_step_index ≡ some step
      → is_open step ≡ true
      → is_open failed ≡ true
      → is_active run.status ≡ true
      → Permitted env run step tool
      → Does env run (failed_run env (save_step (with_call run step tool) failed), return false)
  executes_raising :
      (step : Step) (tool : Tool)
      → get_elem? run.steps run.current_step_index ≡ some step
      → is_open step ≡ true
      → Permitted env run step tool
      → Does env run (with_call run step tool, raised)
