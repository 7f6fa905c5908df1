-- ===== src/Workflow/Started.antt =====
-- A run that starts from a validated definition.
use deep_foundry.Base.{
  ℕ, ◌+◌, ◌≤◌, String, Bool, true, Option, none, some, List, [], ◌∷◌, ◌≡◌, refl, sym, ap, suc,
  if◌then◌else◌, arith, length, All,
}
use mathlib.Core.Path.{subst}
use deep_foundry.Json.{Fields, Json, text, array, object, elements, get, or_null, truthy}
use deep_foundry.Workflow.State.{
  StepType, coworker_action, tool_call, human_checkpoint, condition, Step, Run, RunStatus,
}
use deep_foundry.Workflow.Engine.{as_index}
use deep_foundry.Workflow.Definition.{
  DefinitionError, type_of_text, in_range, is_target, is_condition, check_type, check_named,
  check_typed, check_step, check_steps, first_error, check_list, check_definition,
  validate_workflow_definition, row_type, row_of, step_rows, rows_of, run_of, steps_of,
  start_workflow_run,
}

-- Where a branch of a condition leads: to a step, or just behind the last.
abbrev pub LeadsTo : ℕ → Json → String → Type 0
LeadsTo n definition branch =
    (v : Json) × (i : ℕ) × (get branch definition ≡ some v) × (as_index v ≡ some i) × (i ≤ n)

module _ (active_coworker tool_exists : Json → Bool) where
  -- What a step of a validated definition with `n` steps has, by its type.
  abbrev pub IsSound : ℕ → Json → StepType → Type 0
  IsSound n definition coworker_action =
      active_coworker (or_null (get "coworker_id" definition)) ≡ true
  IsSound n definition tool_call =
      (truthy (or_null (get "coworker_id" definition)) ≡ true)
      × (tool_exists (or_null (get "tool_name" definition)) ≡ true)
  IsSound n definition human_checkpoint = Unit
  IsSound n definition condition =
      (is_condition (get "condition" definition) ≡ true)
      × LeadsTo n definition "if_true"
      × LeadsTo n definition "if_false"

  is_target-LeadsTo :
      (n : ℕ) (definition : Json) (branch : String)
      → is_target n (get branch definition) ≡ true
      → LeadsTo n definition branch
  is_target-LeadsTo n definition branch h = by_value (get branch definition) refl h
    where
      by_index :
          (v : Json) (index : Option ℕ)
          → get branch definition ≡ some v
          → as_index v ≡ index
          → in_range n index ≡ true
          → LeadsTo n definition branch
      by_index v none e f k = cc
      by_index v (some i) e f k = (v, i, e, f, ground (arith, k))

      by_value :
          (value : Option Json)
          → get branch definition ≡ value
          → is_target n value ≡ true
          → LeadsTo n definition branch
      by_value none e k = cc
      by_value (some v) e k = by_index v (as_index v) e refl k

  check_type-IsSound :
      (n i : ℕ) (definition : Json) (type : StepType)
      → check_type active_coworker tool_exists n i definition type ≡ none
      → IsSound n definition type
  check_type-IsSound n i definition coworker_action h = ground (arith, h)
  check_type-IsSound n i definition tool_call h = (ground (arith, h), ground (arith, h))
  check_type-IsSound n i definition human_checkpoint h = tt
  check_type-IsSound n i definition condition h = (
    ground (arith, h),
    is_target-LeadsTo n definition "if_true" (ground (arith, h)),
    is_target-LeadsTo n definition "if_false" (ground (arith, h)),
  )

  -- A row made from a definition that passed.
  abbrev pub IsSoundRow : ℕ → Step → Type 0
  IsSoundRow n step = IsSound n step.definition step.step_type

  row-IsSound :
      (n i : ℕ) (definition : Json) (type : Option Json)
      → check_typed active_coworker tool_exists n i definition type ≡ none
      → (step : Step) × (row_of definition type ≡ some step) × IsSoundRow n step
  row-IsSound n i definition (some (text s)) h = named (type_of_text s) refl h
    where
      named :
          (type : Option StepType)
          → type_of_text s ≡ type
          → check_named active_coworker tool_exists n i definition type ≡ none
          → (step : Step) × (row_of definition (some (text s)) ≡ some step) × IsSoundRow n step
      named none e k = cc
      named (some type) e k = (
        _,
        refl,
        subst (λ t. IsSound n definition (row_type t)) (sym e)
            (check_type-IsSound n i definition type k),
      )
  row-IsSound n i definition none h = cc
  row-IsSound n i definition (some Json.null) h = cc
  row-IsSound n i definition (some (Json.boolean b)) h = cc
  row-IsSound n i definition (some (Json.number m p)) h = cc
  row-IsSound n i definition (some (array vs)) h = cc
  row-IsSound n i definition (some (object fs)) h = cc

  rows-AreSound :
      (n i : ℕ) (definitions : List Json)
      → check_steps active_coworker tool_exists n i definitions ≡ none
      → (steps : List Step) × (step_rows definitions ≡ some steps)
        × (length steps ≡ length definitions)
        × All (IsSoundRow n) steps
  unfolding step_rows
  rows-AreSound n i [] h = ([], refl, refl, tt)
  rows-AreSound n i (d ∷ ds) h =
      let (first, others) = no_error (check_step active_coworker tool_exists n i d) _ h in
      let (step, made, good) = sound_row d first in
      let (steps, rest, as_many, all_good) = rows-AreSound n (i + 1) ds others in
      (step ∷ steps, rw (made, rest) refl, ap suc as_many, (good, all_good))
    where
      no_error :
          (first rest : Option DefinitionError)
          → first_error active_coworker tool_exists first rest ≡ none
          → (first ≡ none) × (rest ≡ none)
      no_error none rest k = (refl, k)
      no_error (some e) rest k = cc

      sound_row :
          (definition : Json)
          → check_step active_coworker tool_exists n i definition ≡ none
          → (step : Step) × (row_of definition (get "type" definition) ≡ some step)
            × IsSoundRow n step
      sound_row (object fields) k = row-IsSound n i (object fields) (get "type" (object fields)) k
      sound_row Json.null k = cc
      sound_row (Json.boolean b) k = cc
      sound_row (Json.number m p) k = cc
      sound_row (text s) k = cc
      sound_row (array vs) k = cc

  -- A run that is ready: running at its first step, with one step at least, each of them sound.
  pub record IsReady (run : Run) : Type 0 where
    pub active : run.status ≡ RunStatus.running
    pub at_start : run.current_step_index ≡ 0
    pub nonempty : 1 ≤ length run.steps
    pub sound : All (IsSoundRow (length run.steps)) run.steps

  -- A run of a validated definition always starts, and is well formed: its coworker actions name
  -- active coworkers, its tool calls name a coworker and a tool that exists, and its conditions lead
  -- to one of its steps or just behind the last.
  pub start_workflow_run-IsReady :
      (definition context : Json)
      → validate_workflow_definition active_coworker tool_exists definition ≡ none
      → (run : Run) × (start_workflow_run definition context ≡ some run) × IsReady run
  unfolding validate_workflow_definition start_workflow_run
  start_workflow_run-IsReady definition context h = listed (get "steps" definition) h
    where
      rows :
          (definitions : List Json)
          → check_list active_coworker tool_exists definitions ≡ none
          → (run : Run) × (run_of
                (if truthy context then context else object Fields.end)
                (step_rows definitions)
              ≡ some run)
            × IsReady run
      rows [] k = cc
      rows (d ∷ ds) k =
          let (steps, made, as_many, good) = rows-AreSound (length (d ∷ ds)) 0 (d ∷ ds) k in
          let run : Run = record {
            status = RunStatus.running;
            current_step_index = 0;
            context = if truthy context then context else object Fields.end;
            completed_at = none;
            steps = steps;
            tasks = [];
            approvals = [];
            notices = [];
            calls = [];
            queued = [];
            next_id = 1;
          } in
          (
            run,
            rw made refl,
            record {
              active = refl;
              at_start = refl;
              nonempty = omega (arith, as_many);
              sound = subst (λ n. All (IsSoundRow n) steps) (sym as_many) good;
            },
          )

      listed :
          (steps : Option Json)
          → check_definition active_coworker tool_exists steps ≡ none
          → (run : Run) × (run_of
                (if truthy context then context else object Fields.end)
                (rows_of (steps_of steps))
              ≡ some run)
            × IsReady run
      listed none k = cc
      listed (some (array items)) k = rows (elements items) k
      listed (some Json.null) k = cc
      listed (some (Json.boolean b)) k = cc
      listed (some (Json.number m p)) k = cc
      listed (some (text s)) k = cc
      listed (some (object fs)) k = cc
