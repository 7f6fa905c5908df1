-- ===== src/Workflow/Engine.antt =====
-- `advance_workflow_run` of services/app/core/v2_engine.py. The function calls itself in tail
-- position; here one turn says whether to go on, and the loop makes the turns.
use deep_foundry.Base.{
  ℕ, zero, ◌+◌, String, Bool, true, false, not, Option, none, some, List, [], ◌∷◌, any,
  if◌then◌else◌,
}
use deep_foundry.Base.Int.{as_ℕ}
use deep_foundry.Base.Dict.{Dict, lookup, get_or_default}
use deep_foundry.Base.Text.{split_on, contains_text}
use deep_foundry.Json.{
  Json, boolean, number, text, array, object, elements, entries, get, json_eq, or_null, is_null,
  is_text, truthy,
}
use deep_foundry.Policy.{Rule}
use deep_foundry.Workflow.State.{
  StepStatus, RunStatus, TaskStatus, StepResult, task_id_of, Step, Title, Task, Notice, Run,
  save_step, is_active, task_by_id,
}

-- A row of `Tool`, and what `get_coworker_config` resolves of a coworker.
pub record Tool : Type 0 where
  pub id : ℕ
  pub name : String
  pub risk_classification : String

pub record CoworkerConfig : Type 0 where
  pub permission_profile : Dict String
  pub org_policy_floor : Dict String

-- `ToolResult`
pub record ToolResult : Type 0 where
  pub output : Json
  pub error : Option String

-- What a run reads and does not write: the time, the tool that is attached to a coworker and enabled
-- (`none`: the query raises `DoesNotExist`), the coworker's configuration (`none`: it raises), the
-- organization's rules, the tools themselves (`none`: `execute_tool` raises), Python's `str` of a
-- value that is no text, the cast of a text or a fraction to the column of an index (`none`: it
-- raises), and whether the database refuses the row of a task.
pub record Env : Type 0 where
  pub now : ℕ
  pub workspace_id : ℕ
  pub attachment : Json → Json → Option Tool
  pub config : Json → Option CoworkerConfig
  pub rules : List Rule
  pub execute_workflow_tool : String → Json → Option ToolResult
  pub show : Json → String
  pub cast_index : Json → Option ℕ
  pub refuses_task : Task → Bool

-- How one turn ends: the function returns, it calls itself, or an exception leaves it.
pub data Next : Type 0 where
  return : Bool → Next
  again : Next
  raised : Next

abbrev pub Turn : Type 0
Turn = Run × Next

-- `_fail_workflow_run`: the row is updated, and the members told, only if the run is still active.
unfoldable pub fail_workflow_run : Env → Run → Run × Bool
fail_workflow_run env run =
    if is_active run.status
    then (
      record run {
        status = RunStatus.failed;
        completed_at = some env.now;
        notices = Notice.workflow_failed ∷ run.notices;
      },
      true,
    )
    else (run, false)

abbrev pub failed_turn : Env → Run → Turn
failed_turn env run = ((fail_workflow_run env run).0, return false)

-- The loop `for key in str(condition["path"]).split(".")`.
unfoldable pub follow : Json → List String → Json
follow value [] = value
follow value (key ∷ keys) = follow (or_null (get key value)) keys

abbrev pub str_of : Env → Json → String
str_of env (text s) = s
str_of env v = env.show v

-- `expected in value`; a text contains texts only, and a dict is asked for hashable keys only.
abbrev pub member_of : Json → Json → Option Bool
member_of (text part) (text s) = some (contains_text part s)
member_of _ (text s) = none
member_of expected (array vs) = some (any (λ v. json_eq v expected) (elements vs))
member_of (text key) (object fs) =
    some (elim (lookup key (entries fs)) [ none ↦ false | some _ ↦ true ])
member_of (array _) (object fs) = none
member_of (object _) (object fs) = none
member_of _ (object fs) = some false
member_of _ _ = some false

-- The operators of a condition; `none` where Python raises a `TypeError`.
unfoldable pub evaluate : Json → Json → Json → Option Bool
evaluate operator value expected =
    if is_text "equals" operator
    then some (json_eq value expected)
    else if is_text "not_equals" operator
    then some (not (json_eq value expected))
    else if is_text "exists" operator
    then some (not (is_null value))
    else member_of expected value

-- A step index among the JSON values: Python's `True` and `False` are the ints 1 and 0, and a
-- negative int or another value is refused by the column.
abbrev pub as_index : Json → Option ℕ
as_index (boolean true) = some 1
as_index (boolean false) = some 0
as_index (number m zero) = as_ℕ m
as_index _ = none

-- What the column makes of a value, where it can.
abbrev pub place_of : Env → Json → Option ℕ
place_of env (boolean b) = as_index (boolean b)
place_of env (number m zero) = as_index (number m zero)
place_of env target = env.cast_index target

-- `run.current_step_index = definition[...]`
abbrev pub jump : Env → Run → Option Json → Turn
jump env run none = (run, raised)
jump env run (some target) = elim (place_of env target) [
  | none ↦ (run, raised)
  | some i ↦ (record run { current_step_index = i }, again)
]

abbrev pub start_time : Option ℕ → ℕ → Option ℕ
start_time none now = some now
start_time (some t) now = some t

abbrev pub finish_condition : Env → Run → Step → Json → Bool → Turn
finish_condition env run step value matched =
    jump env
      (save_step run (record step {
        status = StepStatus.completed;
        result = StepResult.condition_result matched value;
        started_at = start_time step.started_at env.now;
        completed_at = some env.now;
      }))
      (get (if matched then "if_true" else "if_false") step.definition)

abbrev pub decide_condition : Env → Run → Step → Json → Option Bool → Turn
decide_condition env run step value none = (run, raised)
decide_condition env run step value (some matched) = finish_condition env run step value matched

abbrev pub read_condition : Env → Run → Step → Json → Option Json → Option Json → Turn
read_condition env run step condition (some path) (some operator) =
    let value = follow run.context (split_on b'.' (str_of env path)) in
    decide_condition env run step value (evaluate operator value (or_null (get "value" condition)))
read_condition env run step condition _ _ = (run, raised)

unfoldable pub condition_turn : Env → Run → Step → Turn
condition_turn env run step = elim (get "condition" step.definition) [
  | none ↦ (run, raised)
  | some condition ↦
      read_condition env run step condition (get "path" condition) (get "operator" condition)
]

unfoldable pub checkpoint_turn : Env → Run → Step → Turn
checkpoint_turn env run step =
    let waiting =
      save_step run
        (record step { status = StepStatus.needs_approval; started_at = some env.now }) in
    (
      record waiting {
        status = RunStatus.needs_approval;
        notices =
            Notice.checkpoint_requested run.current_step_index
              (get_or_default (text "Workflow checkpoint") (get "title" step.definition))
            ∷ run.notices;
      },
      return false,
    )

-- `definition.get("instructions") or definition.get("objective", ...)`
abbrev pub description_of : Json → Json
description_of definition =
    let instructions = or_null (get "instructions" definition) in
    if truthy instructions
    then instructions
    else get_or_default (text "Complete this workflow step.") (get "objective" definition)

abbrev pub title_of : Json → ℕ → Title
title_of definition i = elim (get "title" definition) [
  | none ↦ Title.step_number (i + 1)
  | some t ↦ Title.given t
]

abbrev pub task_of : Run → Step → Json → Task
task_of run step coworker = record {
  id = run.next_id;
  coworker_id = coworker;
  title = title_of step.definition run.current_step_index;
  description = description_of step.definition;
  step = run.current_step_index;
  status = TaskStatus.pending;
  result = "";
  error_message = "";
}

abbrev pub create_task : Env → Run → Step → Json → Turn
create_task env run step coworker =
    let started = save_step run (record step {
      status = StepStatus.in_progress;
      started_at = some env.now;
      result = StepResult.task_started run.next_id;
    }) in
    (
      record started {
        tasks = task_of run step coworker ∷ run.tasks;
        queued = run.next_id ∷ run.queued;
        next_id = run.next_id + 1;
      },
      return true,
    )

-- No task yet: one is created and queued, unless the definition names no coworker or the row is
-- refused.
abbrev pub start_task : Env → Run → Step → Option Json → Turn
start_task env run step none = (run, raised)
start_task env run step (some coworker) =
    let created = create_task env run step coworker in
    if env.refuses_task (task_of run step coworker) then (run, raised) else created

abbrev pub step_forward : Run → Run
step_forward run = record run { current_step_index = run.current_step_index + 1 }

-- A task exists: what its status asks for.
abbrev pub follow_task : Env → Run → Step → Task → TaskStatus → Turn
follow_task env run step task TaskStatus.completed = (
  step_forward (
      save_step run (record step {
        status = StepStatus.completed;
        result = StepResult.task_output task.id task.result;
        completed_at = some env.now;
      })),
  again,
)
follow_task env run step task TaskStatus.failed = failed_turn env (
    save_step run (record step {
      status = StepStatus.failed;
      result = StepResult.task_error task.id task.error_message;
    }))
follow_task env run step task TaskStatus.blocked = failed_turn env (
    save_step run (record step {
      status = StepStatus.failed;
      result = StepResult.task_error task.id task.error_message;
    }))
follow_task env run step task _ = (run, return true)

unfoldable pub action_turn : Env → Run → Step → Turn
action_turn env run step = elim (task_id_of step.result) [
  | none ↦ start_task env run step (get "coworker_id" step.definition)
  | some i ↦ elim (task_by_id run.tasks i) [
    | none ↦ (run, raised)
    | some task ↦ follow_task env run step task task.status
  ]
]
