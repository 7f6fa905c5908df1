-- ===== src/Workflow/Measure.antt =====
-- `advance_workflow_run` always ends: each turn that goes on either completes a step or moves past
-- one that is completed, so conditions that jump back cannot make it run for ever.
use native.Mathlib.Nat.{mul-le-mul_right}
use deep_foundry.Base.{
  ℕ, zero, suc, ◌+◌, ◌*◌, ◌-◌, ◌<◌, true, false, some, List, [], ◌∷◌, ◌≡◌, ◌≢◌, ◌⊎◌, inl, inr, refl,
  arith, length, get_elem?, set, count_if, length-set, get_elem?-lt, count_if-le-length,
}
use deep_foundry.Workflow.State.{Step, Run}
use deep_foundry.Workflow.Engine.{Env, return, again, raised, Turn, checkpoint_turn}
use deep_foundry.Workflow.Effects.{is_open, Does, stays, passes, jumps, finishes, executes}
use deep_foundry.Workflow.Turns.{turn-Does}
use deep_foundry.Workflow.Advance.{
  turn, Outcome, out_of_fuel, proceed, advance, advance_workflow_run,
}

abbrev pub open_steps : Run → ℕ
open_steps run = count_if is_open run.steps

count_if-set :
    (steps : List Step) (i : ℕ) (old new : Step)
    → get_elem? steps i ≡ some old
    → is_open old ≡ true
    → is_open new ≡ false
    → suc (count_if is_open (set steps i new)) ≡ count_if is_open steps
count_if-set [] i old new e p q = cc
count_if-set (s ∷ steps) zero old new e p q = ground arith
count_if-set (s ∷ steps) (suc i) old new e p q = ground (arith, count_if-set steps i old new)

-- What a turn that goes on has done.
pub record Progress (run next : Run) : Type 0 where
  pub same_steps : length next.steps ≡ length run.steps
  pub fewer_or_further :
      (open_steps next < open_steps run)
      ⊎ ((open_steps next ≡ open_steps run)
          × (next.current_step_index ≡ run.current_step_index + 1)
          × (run.current_step_index < length run.steps))

-- Saving a completed step over an open one is progress.
Progress-closing :
    (run next : Run) (step done : Step)
    → get_elem? run.steps run.current_step_index ≡ some step
    → is_open step ≡ true
    → is_open done ≡ false
    → next.steps ≡ set run.steps run.current_step_index done
    → Progress run next
Progress-closing run next step done found opened closed e = record {
  same_steps = rw e (length-set run.steps run.current_step_index done);
  fewer_or_further = inl (
      rw e (
        omega
          (arith, count_if-set run.steps run.current_step_index step done found opened closed)));
}

Does-Progress : {env : Env} {run : Run} {t : Turn} → Does env run t → t.1 ≡ again → Progress run t.0
unfolding checkpoint_turn
Does-Progress {run} (passes step found closed) h = record {
  same_steps = refl;
  fewer_or_further = inr (refl, refl, get_elem?-lt run.steps run.current_step_index step found);
}
Does-Progress {run} (jumps step done i found opened closed) h =
    Progress-closing run _ step done found opened closed refl
Does-Progress {run} (finishes step task found opened) h =
    Progress-closing run _ step _ found opened refl refl
Does-Progress {run} (executes step tool result found opened permitted) h =
    Progress-closing run _ step _ found opened refl refl
Does-Progress (stays poll) h = cc
Does-Progress _ h = cc

-- An upper bound on the turns that are left.
abbrev measure : Run → ℕ
measure run =
    open_steps run * (length run.steps + 2) + (length run.steps + 1 - run.current_step_index)

measure-lt : (run next : Run) → Progress run next → measure next < measure run
measure-lt run next p = grind (
  arith,
  p.fewer_or_further,
  p.same_steps,
  mul-le-mul_right {m = suc (open_steps next)} {n = open_steps run} (length run.steps + 2),
)

proceed-ne-out_of_fuel :
    (fuel : ℕ) (env : Env) (run : Run) (t : Turn) (rest : Run → Run × Outcome)
    → Does env run t
    → measure run < suc fuel
    → ((next : Run) → measure next < fuel → (rest next).1 ≢ out_of_fuel)
    → (proceed t rest).1 ≢ out_of_fuel
proceed-ne-out_of_fuel fuel env run (next, return poll) rest does h ih e = cc
proceed-ne-out_of_fuel fuel env run (next, raised) rest does h ih e = cc
proceed-ne-out_of_fuel fuel env run (next, again) rest does h ih e =
    ih next (omega (arith, measure-lt run next (Does-Progress does refl))) e

advance-ne-out_of_fuel :
    (fuel : ℕ) (env : Env) (run : Run) → measure run < fuel → (advance fuel env run).1 ≢ out_of_fuel
unfolding advance
advance-ne-out_of_fuel zero env run h = absurd (omega arith)
advance-ne-out_of_fuel (suc fuel) env run h =
    proceed-ne-out_of_fuel fuel env run (turn env run) (advance fuel env) (turn-Does env run) h
      (advance-ne-out_of_fuel fuel env)

-- From every run, whatever its steps and wherever its conditions jump, `advance_workflow_run` comes
-- to an end: it returns or an exception leaves it.
pub advance_workflow_run-ne-out_of_fuel :
    (env : Env) (run : Run) → (advance_workflow_run env run).1 ≢ out_of_fuel
unfolding advance_workflow_run
advance_workflow_run-ne-out_of_fuel env run =
    advance-ne-out_of_fuel ((length run.steps + 1) * (length run.steps + 2)) env run (
      grind (
        arith,
        count_if-le-length is_open run.steps,
        mul-le-mul_right {m = open_steps run} {n = length run.steps} (length run.steps + 2),
      ))
