-- ===== src/Workflow/Records.antt =====
-- What a run's record shows for good: a completed step is never touched again, an ending run is
-- reported as it ended, and its members are told of a failure exactly once.
use deep_foundry.Base.{
  ℕ, ◌+◌, true, false, some, ◌≡◌, ◌∙◌, refl, arith, get_elem?, set, get_elem?-set_ne, count_if,
}
use native.Mathlib.Decide.{ℕ_discrete}
use deep_foundry.Workflow.State.{Step, Run, RunStatus, Notice, is_active}
use deep_foundry.Workflow.Engine.{Env, Turn, checkpoint_turn}
use deep_foundry.Workflow.Effects.{
  is_open, Does, stays, passes, jumps, jumps_nowhere, asks, starts, finishes, fails, requests,
  executes, executes_failing,
}
use deep_foundry.Workflow.Induction.{Leaves, advance_rule, advance_inv}
use deep_foundry.Workflow.Advance.{Outcome, exception, advance_workflow_run}

-- Step `i` of the run is this one, and it is completed.
abbrev pub IsDone : ℕ → Step → Run → Type 0
IsDone i step run = (get_elem? run.steps i ≡ some step) × (is_open step ≡ false)

-- Writing over an open step leaves the completed ones alone.
IsDone-set :
    (i : ℕ) (step : Step) (run : Run) (current new : Step)
    → get_elem? run.steps run.current_step_index ≡ some current
    → is_open current ≡ true
    → IsDone i step run
    → (get_elem? (set run.steps run.current_step_index new) i ≡ some step) × (is_open step ≡ false)
IsDone-set i step run current new found opened (at, closed) =
    elim (ℕ_discrete run.current_step_index i) [
      | yes same ↦ absurd (clash (rw same at found))
      | no other ↦ (get_elem?-set_ne run.steps run.current_step_index i new other ∙ at, closed)
    ]
  where
    clash : get_elem? run.steps i ≡ some current → ⊥
    clash f = cc (at, f, closed, opened)

Does-IsDone :
    (i : ℕ) (step : Step) (env : Env) (run : Run) (t : Turn)
    → Does env run t
    → IsDone i step run
    → IsDone i step t.0
unfolding checkpoint_turn
Does-IsDone i step env run t (jumps s done j found opened closed) h =
    IsDone-set i step run s done found opened h
Does-IsDone i step env run t (jumps_nowhere s done found opened closed) h =
    IsDone-set i step run s done found opened h
Does-IsDone i step env run t (asks s found opened) h = IsDone-set i step run s _ found opened h
Does-IsDone i step env run t (starts s coworker found opened) h =
    IsDone-set i step run s _ found opened h
Does-IsDone i step env run t (finishes s task found opened) h =
    IsDone-set i step run s _ found opened h
Does-IsDone i step env run t (fails s failed found opened still active) h =
    IsDone-set i step run s failed found opened h
Does-IsDone i step env run t (requests s tool coworker found opened) h =
    IsDone-set i step run s _ found opened h
Does-IsDone i step env run t (executes s tool result found opened permitted) h =
    IsDone-set i step run s _ found opened h
Does-IsDone i step env run t (executes_failing s failed tool found opened still active p) h =
    IsDone-set i step run s failed found opened h
Does-IsDone i step env run t _ h = h

-- A completed step is final: `advance_workflow_run` neither opens it again nor changes its result,
-- also when a condition jumps back over it.
pub advance_workflow_run-IsDone :
    (env : Env) (run : Run) (i : ℕ) (step : Step)
    → IsDone i step run
    → IsDone i step (advance_workflow_run env run).0
unfolding advance_workflow_run
advance_workflow_run-IsDone env run i step h =
    advance_inv env (IsDone i step) (λ r t does. Does-IsDone i step env r t does) _ run h

-- How often the members were told that the run failed.
abbrev pub failure_notices : Run → ℕ
failure_notices run =
    count_if (λ n. elim n [ Notice.workflow_failed ↦ true | _ ↦ false ]) run.notices

abbrev pub has_failed : Run → ℕ
has_failed run = elim run.status [ RunStatus.failed ↦ 1 | _ ↦ 0 ]

-- The call leaves the run as it should be reported: failed with one more notice, or not failed and
-- with none; and after an exception it is still active.
pub record Reports (before : ℕ) (run : Run) (outcome : Outcome) : Type 0 where
  pub told : failure_notices run ≡ before + has_failed run
  pub left_active : outcome ≡ exception → is_active run.status ≡ true

abbrev IsRunning : ℕ → Run → Type 0
IsRunning before run = (is_active run.status ≡ true) × (failure_notices run ≡ before)

Does-Reports :
    (before : ℕ) (env : Env) (run : Run) (t : Turn)
    → Does env run t
    → IsRunning before run
    → Leaves (IsRunning before) (Reports before) t
unfolding checkpoint_turn
Does-Reports before env run t (passes s found closed) h = h
Does-Reports before env run t (jumps s done j found opened closed) h = h
Does-Reports before env run t (finishes s task found opened) h = h
Does-Reports before env run t (executes s tool result found opened permitted) h = h
Does-Reports before env run t (stays poll) h = ground arith
Does-Reports before env run t _ h = ground arith

-- From an active run: if it has failed when the call ends, the members were told once more, and
-- otherwise not; and an exception leaves it active, with nobody told.
pub advance_workflow_run-Reports :
    (env : Env) (run : Run)
    → is_active run.status ≡ true
    → let (next, outcome) = advance_workflow_run env run in
      Reports (failure_notices run) next outcome
unfolding advance_workflow_run
advance_workflow_run-Reports env run active =
    advance_rule env (IsRunning (failure_notices run)) (Reports (failure_notices run))
      (λ r t does. Does-Reports (failure_notices run) env r t does) (λ r h. ground arith) _ run
      (active, refl)
