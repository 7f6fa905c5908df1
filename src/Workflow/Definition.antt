-- ===== src/Workflow/Definition.antt =====
-- `validate_workflow_definition` and `start_workflow_run` of services/app/core/v2_services.py.
use deep_foundry.Base.{
  ℕ, ◌+◌, String, str_eq, Bool, false, ◌&&◌, ◌||◌, not, Option, none, some, List, [], ◌∷◌, length,
  leb, if◌then◌else◌,
}
use deep_foundry.Json.{Json, text, array, object, end, elements, get, or_null, truthy, is_text}
use deep_foundry.Workflow.State.{
  StepType, coworker_action, tool_call, human_checkpoint, condition, StepStatus, RunStatus,
  StepResult, Step, Run,
}
use deep_foundry.Workflow.Engine.{as_index}

-- Why a definition is refused; the number is the step's. The last is a `TypeError`: a list or a dict
-- is no member that a set can be asked for.
pub data DefinitionError : Type 0 where
  no_steps : DefinitionError
  unsupported_type invalid_coworker invalid_tool invalid_condition : ℕ → DefinitionError
  invalid_target : ℕ → String → DefinitionError
  unhashable_type : ℕ → DefinitionError

-- `WorkflowRunStep.StepType.values`
abbrev pub type_of_text : String → Option StepType
type_of_text s =
    if str_eq s "coworker_action"
    then some coworker_action
    else if str_eq s "tool_call"
    then some tool_call
    else if str_eq s "human_checkpoint"
    then some human_checkpoint
    else if str_eq s "condition"
    then some condition
    else none

-- `isinstance(target, int)`, and not below 0 nor above the number of steps
abbrev pub in_range : ℕ → Option ℕ → Bool
in_range n none = false
in_range n (some i) = leb i n

abbrev pub is_target : ℕ → Option Json → Bool
is_target n none = false
is_target n (some v) = in_range n (as_index v)

abbrev pub is_operator : Json → Bool
is_operator v =
    is_text "equals" v || (is_text "not_equals" v || (is_text "exists" v || is_text "contains" v))

-- A condition is a dict with a path and one of the operators.
abbrev pub is_condition : Option Json → Bool
is_condition (some (object fields)) =
    truthy (or_null (get "path" (object fields)))
    && is_operator (or_null (get "operator" (object fields)))
is_condition _ = false

-- The rows that the checks ask for: the active coworkers of the workspace, and the tools.
module _ (active_coworker tool_exists : Json → Bool) where
  abbrev pub check_targets : ℕ → ℕ → Json → Option DefinitionError
  check_targets n i step =
      if not (is_target n (get "if_true" step))
      then some (invalid_target i "if_true")
      else if not (is_target n (get "if_false" step))
      then some (invalid_target i "if_false")
      else none

  abbrev pub check_type : ℕ → ℕ → Json → StepType → Option DefinitionError
  check_type n i step coworker_action =
      if active_coworker (or_null (get "coworker_id" step)) then none else some (invalid_coworker i)
  check_type n i step tool_call =
      if not (truthy (or_null (get "coworker_id" step)))
        || not (tool_exists (or_null (get "tool_name" step)))
      then some (invalid_tool i)
      else none
  check_type n i step human_checkpoint = none
  check_type n i step condition =
      if is_condition (get "condition" step)
      then check_targets n i step
      else some (invalid_condition i)

  abbrev pub check_named : ℕ → ℕ → Json → Option StepType → Option DefinitionError
  check_named n i step none = some (unsupported_type i)
  check_named n i step (some type) = check_type n i step type

  abbrev pub check_typed : ℕ → ℕ → Json → Option Json → Option DefinitionError
  check_typed n i step (some (text s)) = check_named n i step (type_of_text s)
  check_typed n i step (some (array vs)) = some (unhashable_type i)
  check_typed n i step (some (object fs)) = some (unhashable_type i)
  check_typed n i step _ = some (unsupported_type i)

  abbrev pub check_step : ℕ → ℕ → Json → Option DefinitionError
  check_step n i (object fields) = check_typed n i (object fields) (get "type" (object fields))
  check_step n i _ = some (unsupported_type i)

  abbrev pub first_error : Option DefinitionError → Option DefinitionError → Option DefinitionError
  first_error none rest = rest
  first_error (some e) rest = some e

  -- The loop over the steps.
  abbrev pub check_steps : ℕ → ℕ → List Json → Option DefinitionError
  check_steps n i [] = none
  check_steps n i (step ∷ steps) = first_error (check_step n i step) (check_steps n (i + 1) steps)

  abbrev pub check_list : List Json → Option DefinitionError
  check_list [] = some no_steps
  check_list (step ∷ steps) = check_steps (length (step ∷ steps)) 0 (step ∷ steps)

  abbrev pub check_definition : Option Json → Option DefinitionError
  check_definition (some (array items)) = check_list (elements items)
  check_definition _ = some no_steps

  -- `none`: the definition is returned as it is.
  unfoldable pub validate_workflow_definition : Json → Option DefinitionError
  validate_workflow_definition definition = check_definition (get "steps" definition)

-- The type of a step's row. The engine takes every other type for a tool call.
abbrev pub row_type : Option StepType → StepType
row_type none = tool_call
row_type (some type) = type

abbrev pub row_of : Json → Option Json → Option Step
row_of definition (some (text s)) = some (record {
  step_type = row_type (type_of_text s);
  status = StepStatus.pending;
  definition = definition;
  result = StepResult.empty;
  started_at = none;
  completed_at = none;
})
row_of definition _ = none

abbrev pub and_rows : Option Step → Option (List Step) → Option (List Step)
and_rows (some step) (some steps) = some (step ∷ steps)
and_rows _ _ = none

-- A step without a type raises, and the transaction is rolled back.
unfoldable pub step_rows : List Json → Option (List Step)
step_rows [] = some []
step_rows (d ∷ ds) = and_rows (row_of d (get "type" d)) (step_rows ds)

abbrev pub run_of : Json → Option (List Step) → Option Run
run_of context none = none
run_of context (some steps) = some (record {
  status = RunStatus.running;
  current_step_index = 0;
  context = context;
  completed_at = none;
  steps = steps;
  tasks = [];
  approvals = [];
  notices = [];
  calls = [];
  queued = [];
  next_id = 1;
})

-- What `enumerate(definition["steps"])` goes through, where each element can be a step: `none` where
-- it raises a KeyError or a TypeError, also on the keys of an object and the letters of a text.
abbrev pub steps_of : Option Json → Option (List Json)
steps_of (some (array items)) = some (elements items)
steps_of (some (object end)) = some []
steps_of (some (text s)) = if str_eq s "" then some [] else none
steps_of _ = none

abbrev pub rows_of : Option (List Json) → Option (List Step)
rows_of none = none
rows_of (some steps) = step_rows steps

-- `start_workflow_run`; `context or {}` is the run's context.
unfoldable pub start_workflow_run : Json → Json → Option Run
start_workflow_run definition context =
    run_of (if truthy context then context else object end)
      (rows_of (steps_of (get "steps" definition)))
