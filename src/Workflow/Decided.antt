-- ===== src/Workflow/Decided.antt =====
-- What a decision on a checkpoint or on an approval request does to a run.
use deep_foundry.Base.{
  ℕ, ◌+◌, ◌*◌, zero, suc, ◌≤◌, String, Bool, true, false, Option, none, some, List, [], ◌∷◌, ◌≡◌,
  ◌≢◌, refl, arith, map, ◌==◌, length, get_elem?, set, get_elem?-set_self, get_elem?-set_ne,
  if◌then◌else◌, get_elem?-lt, Bool-cases, inl, inr,
}
use mathlib.Core.Path.{subst}
use deep_foundry.Workflow.State.{
  StepType, human_checkpoint, StepStatus, RunStatus, ApprovalStatus, Step, Approval, Run, is_active,
}
use deep_foundry.Workflow.Engine.{Env, return}
use deep_foundry.Workflow.Records.{IsDone}
use deep_foundry.Workflow.Advance.{
  turn, current_turn, returned, advance, advance_workflow_run, step_turn,
}
use deep_foundry.Workflow.Decisions.{
  is_waiting, decided_step, decide_run, decide_checkpoint, verdict, write_status, approval_by_id,
  decide_row, decide_found, decide_approval_request, decided, already_decided,
}

approval_by_id-map :
    (rows : List Approval) (i : ℕ) (status : ApprovalStatus) (row : Approval)
    → approval_by_id rows i ≡ some row
    → approval_by_id (map (write_status i status) rows) i ≡ some (record row { status = status })
approval_by_id-map [] i status row h = cc
approval_by_id-map (r ∷ rows) i status row h = elim (Bool-cases (r.id == i)) [
  | inl e ↦ let same : r ≡ row = cc (rw e at h) in rw (e, e) (cc same)
  | inr e ↦ rw (e, e) (approval_by_id-map rows i status row (rw e at h))
]

approval_by_id-other :
    (rows : List Approval) (i j : ℕ) (status : ApprovalStatus)
    → j ≢ i
    → approval_by_id (map (write_status i status) rows) j ≡ approval_by_id rows j
approval_by_id-other [] i j status ne = refl
approval_by_id-other (r ∷ rows) i j status ne = elim (Bool-cases (r.id == i)) [
  | inl e ↦
      let other : (r.id == j) ≡ false = ground (arith, e) in
      rw (e, other) (approval_by_id-other rows i j status ne)
  | inr e ↦ rw e (ground (arith, approval_by_id-other rows i j status ne))
]

-- An approval request is decided once: a decision succeeds only on a pending request, it leaves
-- every other request as it is, and every later decision on the same request is refused with the
-- status that the first one gave it.
pub decide_approval_request-once :
    (rows after : List Approval) (i : ℕ) (approve again : Bool)
    → decide_approval_request rows i approve ≡ decided after
    → ((row : Approval) × (approval_by_id rows i ≡ some row)
        × (row.status ≡ ApprovalStatus.pending))
      × (decide_approval_request after i again ≡ already_decided (verdict approve))
      × ((j : ℕ) → j ≢ i → approval_by_id after j ≡ approval_by_id rows j)
unfolding decide_approval_request
decide_approval_request-once rows after i approve again h = found (approval_by_id rows i) refl h
  where
    twice : (b : Bool) → decide_row after i again (verdict b) ≡ already_decided (verdict b)
    twice true = refl
    twice false = refl

    by_status :
        (row : Approval) (status : ApprovalStatus)
        → approval_by_id rows i ≡ some row
        → row.status ≡ status
        → decide_row rows i approve status ≡ decided after
        → ((found_row : Approval) × (approval_by_id rows i ≡ some found_row)
            × (found_row.status ≡ ApprovalStatus.pending))
          × (decide_found after i again (approval_by_id after i)
              ≡ already_decided (verdict approve))
          × ((j : ℕ) → j ≢ i → approval_by_id after j ≡ approval_by_id rows j)
    by_status row ApprovalStatus.pending e f k =
        let same : map (write_status i (verdict approve)) rows ≡ after = cc k in
        let there : approval_by_id after i ≡ some (record row { status = verdict approve }) =
          subst (λ rs. approval_by_id rs i ≡ some (record row { status = verdict approve })) same
            (approval_by_id-map rows i (verdict approve) row e) in
        (
          (row, e, f),
          rw there (twice approve),
          λ j ne.
              subst (λ rs. approval_by_id rs j ≡ approval_by_id rows j) same
                (approval_by_id-other rows i j (verdict approve) ne),
        )
    by_status row ApprovalStatus.approved e f k = cc
    by_status row ApprovalStatus.denied e f k = cc
    by_status row ApprovalStatus.expired e f k = cc

    found :
        (o : Option Approval)
        → approval_by_id rows i ≡ o
        → decide_found rows i approve o ≡ decided after
        → ((found_row : Approval) × (approval_by_id rows i ≡ some found_row)
            × (found_row.status ≡ ApprovalStatus.pending))
          × (decide_found after i again (approval_by_id after i)
              ≡ already_decided (verdict approve))
          × ((j : ℕ) → j ≢ i → approval_by_id after j ≡ approval_by_id rows j)
    found none e k = cc
    found (some row) e k = by_status row row.status e refl k

-- A call that ends with its first turn.
advance-first :
    (fuel : ℕ) (env : Env) (run : Run) (poll : Bool)
    → 1 ≤ fuel
    → turn env run ≡ (run, return poll)
    → advance fuel env run ≡ (run, returned poll)
unfolding advance
advance-first zero env run poll some_fuel h = absurd (omega (arith, some_fuel))
advance-first (suc fuel) env run poll some_fuel h = rw h refl

enough_fuel : (n : ℕ) → 1 ≤ (n + 1) * (n + 2)
enough_fuel n = omega arith

waiting_turn :
    (env : Env) (run : Run) (step : Step)
    → is_active run.status ≡ true
    → get_elem? run.steps run.current_step_index ≡ some step
    → step.status ≡ StepStatus.needs_approval
    → turn env run ≡ (run, return false)
unfolding turn
waiting_turn env run step active found waits = rw (active, found) (at_status step.status waits)
  where
    at_status :
        (status : StepStatus)
        → status ≡ StepStatus.needs_approval
        → step_turn env run step status ≡ (run, return false)
    at_status StepStatus.needs_approval e = refl
    at_status StepStatus.pending e = cc
    at_status StepStatus.in_progress e = cc
    at_status StepStatus.completed e = cc
    at_status StepStatus.failed e = cc
    at_status StepStatus.skipped e = cc

failed_turn_stays :
    (env : Env) (run : Run) → is_active run.status ≡ false → turn env run ≡ (run, return false)
unfolding turn
failed_turn_stays env run h = rw h refl

-- A run that is not active is left alone.
pub advance-stopped :
    (env : Env) (run : Run)
    → is_active run.status ≡ false
    → advance_workflow_run env run ≡ (run, returned false)
unfolding advance_workflow_run
advance-stopped env run h =
    advance-first ((length run.steps + 1) * (length run.steps + 2)) env run false
      (enough_fuel (length run.steps)) (failed_turn_stays env run h)

waiting_lem :
    (type : StepType) (status : StepStatus)
    → type ≡ human_checkpoint
    → status ≡ StepStatus.needs_approval
    → is_waiting type status ≡ true
waiting_lem type status e f = rw (e, f) refl

-- The run after a decision on the checkpoint that is its current step.
abbrev after_decision : Run → Step → Bool → String → ℕ → Run
after_decision run step approve comment now =
    decide_run
      (record run {
        steps = set run.steps run.current_step_index (decided_step step approve comment now);
      })
      approve now

abbrev closed_status : Bool → StepStatus
closed_status approve = if approve then StepStatus.completed else StepStatus.failed

-- A step that has been decided does not wait any more.
closed : (type : StepType) (approve : Bool) → is_waiting type (closed_status approve) ≡ false
closed human_checkpoint true = refl
closed human_checkpoint false = refl
closed StepType.coworker_action true = refl
closed StepType.coworker_action false = refl
closed StepType.tool_call true = refl
closed StepType.tool_call false = refl
closed StepType.condition true = refl
closed StepType.condition false = refl

-- No further decision on the step of that place is taken: each is answered with 404.
abbrev pub IsClosed : ℕ → Run → Type 0
IsClosed i run =
    (approve : Bool) (comment : String) (now : ℕ)
    → decide_checkpoint run i approve comment now ≡ none

module _ (run : Run) (step : Step) (comment : String) (now : ℕ) where
  abbrev Found : Type 0
  Found = get_elem? run.steps run.current_step_index ≡ some step

  step_after :
      (approve : Bool)
      → Found
      → get_elem? (after_decision run step approve comment now).steps run.current_step_index
        ≡ some (decided_step step approve comment now)
  step_after true found =
      get_elem?-set_self run.steps run.current_step_index (decided_step step true comment now)
        (get_elem?-lt run.steps run.current_step_index step found)
  step_after false found =
      get_elem?-set_self run.steps run.current_step_index (decided_step step false comment now)
        (get_elem?-lt run.steps run.current_step_index step found)

  after_decision-IsClosed :
      (approve : Bool)
      → Found
      → IsClosed run.current_step_index (after_decision run step approve comment now)
  unfolding decide_checkpoint
  after_decision-IsClosed approve found again text time =
      rw (step_after approve found, closed step.step_type approve) refl

  decide_checkpoint-decided :
      (approve : Bool)
      → Found
      → step.step_type ≡ human_checkpoint
      → step.status ≡ StepStatus.needs_approval
      → decide_checkpoint run run.current_step_index approve comment now
        ≡ some (after_decision run step approve comment now)
  unfolding decide_checkpoint
  decide_checkpoint-decided approve found checkpoint waits =
      rw (found, waiting_lem step.step_type step.status checkpoint waits) refl

  -- The step after an approved checkpoint is the next that the engine looks at.
  approved_turn :
      (env : Env)
      → turn env (after_decision run step true comment now)
        ≡ current_turn env
            (after_decision run step true comment now)
            (get_elem? run.steps (run.current_step_index + 1))
  unfolding turn
  approved_turn env =
      rw
        (get_elem?-set_ne run.steps run.current_step_index (run.current_step_index + 1)
          (decided_step step true comment now) (λ e. omega (arith, e)))
        refl

-- While its current step is a checkpoint that waits, a run that is active is left alone by
-- `advance_workflow_run`. An approval of the checkpoint is carried out: it completes that step, and the
-- engine's next turn is about the step after it, as that was before the decision. A rejection is
-- carried out too: it fails the run, and then `advance_workflow_run` does nothing. Whichever it was,
-- every later decision on the checkpoint is answered with 404.
pub decide_checkpoint_lem :
    (env : Env) (run : Run) (step : Step) (comment : String) (now : ℕ)
    → is_active run.status ≡ true
    → get_elem? run.steps run.current_step_index ≡ some step
    → step.step_type ≡ human_checkpoint
    → step.status ≡ StepStatus.needs_approval
    → (advance_workflow_run env run ≡ (run, returned false))
      × ((next : Run) × (decide_checkpoint run run.current_step_index true comment now ≡ some next)
          × IsDone run.current_step_index (decided_step step true comment now) next
          × (turn env next
              ≡ current_turn env next (get_elem? run.steps (run.current_step_index + 1)))
          × IsClosed run.current_step_index next)
      × ((next : Run) × (decide_checkpoint run run.current_step_index false comment now ≡ some next)
          × (next.status ≡ RunStatus.failed)
          × (advance_workflow_run env next ≡ (next, returned false))
          × IsClosed run.current_step_index next)
unfolding advance_workflow_run
decide_checkpoint_lem env run step comment now active found checkpoint waits = (
  advance-first ((length run.steps + 1) * (length run.steps + 2)) env run false
      (enough_fuel (length run.steps)) (waiting_turn env run step active found waits),
  (
    after_decision run step true comment now,
    decide_checkpoint-decided run step comment now true found checkpoint waits,
    (step_after run step comment now true found, refl),
    approved_turn run step comment now env,
    after_decision-IsClosed run step comment now true found,
  ),
  (
    after_decision run step false comment now,
    decide_checkpoint-decided run step comment now false found checkpoint waits,
    refl,
    advance-stopped env (after_decision run step false comment now) refl,
    after_decision-IsClosed run step comment now false found,
  ),
)
