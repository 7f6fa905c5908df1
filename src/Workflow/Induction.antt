-- ===== src/Workflow/Induction.antt =====
-- Induction on the turns of `advance_workflow_run`.
use deep_foundry.Base.{ℕ, zero, suc}
use deep_foundry.Workflow.State.{Run}
use deep_foundry.Workflow.Engine.{Env, return, again, raised, Turn}
use deep_foundry.Workflow.Effects.{Does}
use deep_foundry.Workflow.Turns.{turn-Does}
use deep_foundry.Workflow.Advance.{
  turn, Outcome, returned, exception, out_of_fuel, proceed, advance,
}

-- What a turn must leave: the invariant if it goes on, and the postcondition if it ends the call.
abbrev pub Leaves : (Run → Type 0) → (Run → Outcome → Type 0) → Turn → Type 0
Leaves I Q (next, again) = I next
Leaves I Q (next, return poll) = Q next (returned poll)
Leaves I Q (next, raised) = Q next exception

module _ (env : Env) (I : Run → Type 0) (Q : Run → Outcome → Type 0)
    (step : (run : Run) (t : Turn) → Does env run t → I run → Leaves I Q t)
    (stops : (run : Run) → I run → Q run out_of_fuel) where
  proceed_rule :
      (t : Turn) (rest : Run → Run × Outcome)
      → ((next : Run) → I next → Q (rest next).0 (rest next).1)
      → Leaves I Q t
      → Q (proceed t rest).0 (proceed t rest).1
  proceed_rule (next, return poll) rest ih h = h
  proceed_rule (next, raised) rest ih h = h
  proceed_rule (next, again) rest ih h = ih next h

  pub advance_rule :
      (fuel : ℕ) (run : Run) → I run → Q (advance fuel env run).0 (advance fuel env run).1
  unfolding advance
  advance_rule zero run h = stops run h
  advance_rule (suc fuel) run h =
      proceed_rule (turn env run) (advance fuel env) (advance_rule fuel)
        (step run (turn env run) (turn-Does env run) h)

-- The special case of an invariant that every turn keeps, however it ends.
Leaves-keep : (I : Run → Type 0) (t : Turn) → I t.0 → Leaves I (λ run _. I run) t
Leaves-keep I (next, return poll) h = h
Leaves-keep I (next, raised) h = h
Leaves-keep I (next, again) h = h

pub advance_inv :
    (env : Env) (I : Run → Type 0)
    → ((run : Run) (t : Turn) → Does env run t → I run → I t.0)
    → (fuel : ℕ) (run : Run) → I run
    → I (advance fuel env run).0
advance_inv env I keep =
    advance_rule env I (λ run _. I run) (λ run t does h. Leaves-keep I t (keep run t does h))
      (λ run h. h)
