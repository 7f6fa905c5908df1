-- ===== src/Workflow/Advance.antt =====
-- The turns of `advance_workflow_run` and its loop (services/app/core/v2_engine.py).
use deep_foundry.Base.{
  ℕ, zero, suc, ◌+◌, ◌*◌, Bool, false, Option, none, some, length, get_elem?, if◌then◌else◌,
}
use deep_foundry.Workflow.State.{
  StepType, coworker_action, tool_call, human_checkpoint, condition, StepStatus, RunStatus, Step,
  Run, is_active,
}
use deep_foundry.Workflow.Engine.{
  Env, return, again, raised, Turn, condition_turn, checkpoint_turn, action_turn, step_forward,
}
use deep_foundry.Workflow.ToolStep.{tool_turn}

abbrev pub complete_run : Env → Run → Run
complete_run env run = record run { status = RunStatus.completed; completed_at = some env.now }

abbrev pub type_turn : Env → Run → Step → StepType → Turn
type_turn env run step condition = condition_turn env run step
type_turn env run step human_checkpoint = checkpoint_turn env run step
type_turn env run step coworker_action = action_turn env run step
type_turn env run step tool_call = tool_turn env run step

abbrev pub step_turn : Env → Run → Step → StepStatus → Turn
step_turn env run step StepStatus.needs_approval = (run, return false)
step_turn env run step StepStatus.completed = (step_forward run, again)
step_turn env run step _ = type_turn env run step step.step_type

abbrev pub current_turn : Env → Run → Option Step → Turn
current_turn env run none = (complete_run env run, return false)
current_turn env run (some step) = step_turn env run step step.status

unfoldable pub turn : Env → Run → Turn
turn env run =
    if is_active run.status
    then current_turn env run (get_elem? run.steps run.current_step_index)
    else (run, return false)

-- How a call ends: with the function's result, by an exception, or short of fuel.
pub data Outcome : Type 0 where
  returned : Bool → Outcome
  exception : Outcome
  out_of_fuel : Outcome

abbrev pub proceed : Turn → (Run → Run × Outcome) → Run × Outcome
proceed (run, return poll) rest = (run, returned poll)
proceed (run, raised) rest = (run, exception)
proceed (run, again) rest = rest run

unfoldable pub advance : ℕ → Env → Run → Run × Outcome
advance zero env run = (run, out_of_fuel)
advance (suc fuel) env run = proceed (turn env run) (advance fuel env)

-- Every turn that goes on completes a step or moves past a completed one.
unfoldable pub advance_workflow_run : Env → Run → Run × Outcome
advance_workflow_run env run = advance ((length run.steps + 1) * (length run.steps + 2)) env run
