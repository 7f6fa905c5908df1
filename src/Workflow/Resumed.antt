-- ===== src/Workflow/Resumed.antt =====
-- What an answered approval request lets the workflow engine do next.
use deep_foundry.Base.{
  ℕ, Bool, true, false, some, List, [], ◌∷◌, ◌≡◌, ◌≢◌, refl, arith, map, ◌==◌, find, get_elem?, set,
  get_elem?-set_self, get_elem?-lt, Bool-cases, inl, inr, ◌∙◌,
}
use deep_foundry.Json.{Json, get}
use deep_foundry.Permissions.{Coworker, Decision, auto, approval, allowed, get_coworker_for_member}
use deep_foundry.Policy.{Effect, deny}
use deep_foundry.Workflow.State.{
  StepType, tool_call, RunStatus, ApprovalStatus, Step, Approval, Run, approval_for_step,
}
use deep_foundry.Workflow.Engine.{Env, Tool, CoworkerConfig}
use deep_foundry.Workflow.ToolStep.{
  execute, settle, decision, org_decision, tool_turn, under_policy,
}
use deep_foundry.Workflow.Advance.{type_turn, turn, returned, advance_workflow_run}
use deep_foundry.Workflow.Decisions.{
  approval_by_id, decide_approval_request, decided, verdict, write_status,
}
use deep_foundry.Workflow.Decided.{advance-stopped}
use deep_foundry.Workflow.Verdicts.{
  Reader, answered, answer_approval_request, resume_step, resume_run,
}

-- A pending request of the run's current step, which is the newest of that step, that the reader may
-- decide on.
pub record Waits (reader : Reader) (run : Run) (id : ℕ) (step : Step) (row : Approval)
    : Type 0 where
  pub request : approval_by_id run.approvals id ≡ some row
  pub newest : approval_for_step run.approvals run.current_step_index ≡ some row
  pub pending : row.status ≡ ApprovalStatus.pending
  pub current : get_elem? run.steps run.current_step_index ≡ some step
  pub coworker : Coworker
  pub access :
      get_coworker_for_member reader.members reader.coworkers reader.user
        (reader.id_of row.coworker_id)
        false
      ≡ allowed coworker

found_passes : {A : Type 0} (p : A → Bool) (xs : List A) (x : A) → find p xs ≡ some x → p x ≡ true
found_passes p [] x e = cc
found_passes p (y ∷ ys) x e = elim (Bool-cases (p y)) [
  | inl passes ↦ let same : y ≡ x = ground arith in rw (← same) passes
  | inr fails ↦ found_passes p ys x (rw fails at e)
]

-- The newest request of a step is still its newest when its status is written.
approval_for_step-map :
    (rows : List Approval) (k i : ℕ) (status : ApprovalStatus) (row : Approval)
    → approval_for_step rows k ≡ some row
    → (row.id == i) ≡ true
    → approval_for_step (map (write_status i status) rows) k ≡ some (record row { status = status })
approval_for_step-map [] k i status row h e = cc
approval_for_step-map (r ∷ rows) k i status row h e = elim (Bool-cases (r.step == k)) [
  | inl at ↦
      let same : r ≡ row = cc (rw at at h) in
      let here : (r.id == i) ≡ true = rw same e in rw (here, at) (cc same)
  | inr off ↦ elim (Bool-cases (r.id == i)) [
    | inl this ↦ rw (this, off) (approval_for_step-map rows k i status row (rw off at h) e)
    | inr other ↦ rw (other, off) (approval_for_step-map rows k i status row (rw off at h) e)
  ]
]

-- A request that is pending can be decided.
decide-pending :
    (rows : List Approval) (i : ℕ) (approve : Bool) (row : Approval)
    → approval_by_id rows i ≡ some row
    → row.status ≡ ApprovalStatus.pending
    → decide_approval_request rows i approve ≡ decided (map (write_status i (verdict approve)) rows)
unfolding decide_approval_request
decide-pending rows i approve row found pending = rw (found, pending) refl

unless_denied :
    (env : Env) (run : Run) (step : Step) (tool : Tool) (coworker : Json) (config : CoworkerConfig)
    (effect : Effect)
    → effect ≢ deny
    → under_policy env run step tool coworker config effect
      ≡ settle env run step tool coworker
          (decision env tool config)
          (approval_for_step run.approvals run.current_step_index)
unless_denied env run step tool coworker config deny ne = absurd (ne refl)
unless_denied env run step tool coworker config Effect.allow ne = refl
unless_denied env run step tool coworker config Effect.require_approval ne = refl

after_request :
    (env : Env) (run : Run) (step : Step) (tool : Tool) (coworker : Json) (d : Decision)
    (row : Approval)
    → row.status ≡ ApprovalStatus.approved
    → settle env run step tool coworker d (some row) ≡ execute env run step tool
after_request env run step tool coworker auto row e = rw e refl
after_request env run step tool coworker approval row e = rw e refl

tool_call-turn :
    (env : Env) (run : Run) (step : Step) (type : StepType)
    → type ≡ tool_call
    → type_turn env run step type ≡ tool_turn env run step
tool_call-turn env run step type e = rw e refl

-- A tool step whose newest request is approved executes its tool, unless the organization denies it.
approved-tool_turn :
    (env : Env) (run : Run) (step : Step) (coworker name : Json) (tool : Tool)
    (config : CoworkerConfig) (row : Approval)
    → get "coworker_id" step.definition ≡ some coworker
    → get "tool_name" step.definition ≡ some name
    → env.attachment coworker name ≡ some tool
    → env.config coworker ≡ some config
    → org_decision env tool ≢ deny
    → approval_for_step run.approvals run.current_step_index ≡ some row
    → row.status ≡ ApprovalStatus.approved
    → tool_turn env run step ≡ execute env run step tool
unfolding tool_turn
approved-tool_turn env run step coworker name tool config row by named attached configured ne newest
      done =
    rw
      (
        by,
        named,
        attached,
        configured,
        unless_denied env run step tool coworker config (org_decision env tool) ne,
        newest,
      )
      (after_request env run step tool coworker (decision env tool config) row done)

-- What the run is after its answered request, with the step's request written.
abbrev pub answered_run : Run → Step → ℕ → Bool → ℕ → Run
answered_run run step id approve now =
    resume_run
      (record run {
        approvals = map (write_status id (verdict approve)) run.approvals;
        steps = set run.steps run.current_step_index (resume_step step approve now);
      })
      approve now

module _ (reader : Reader) (run : Run) (id : ℕ) (step : Step) (row : Approval) (now : ℕ) where
  passes_id : approval_by_id run.approvals id ≡ some row → (row.id == id) ≡ true
  passes_id h = found_passes (λ (a : Approval). a.id == id) run.approvals row h

  answered_lem :
      (approve : Bool)
      → Waits reader run id step row
      → answer_approval_request reader run id approve now
        ≡ answered (answered_run run step id approve now) approve
  unfolding answer_approval_request
  answered_lem approve w =
      let same : row.id ≡ id = ground (arith, passes_id w.request) in
      let place : row.step ≡ run.current_step_index = ground (
        arith,
        found_passes (λ (a : Approval). a.step == run.current_step_index) run.approvals row
            w.newest,
      ) in
      rw
        (
          w.request,
          w.access,
          same,
          place,
          decide-pending run.approvals id approve row w.request w.pending,
          w.current,
        )
        refl

  step_there :
      (other : Step)
      → get_elem? run.steps run.current_step_index ≡ some step
      → get_elem? (set run.steps run.current_step_index other) run.current_step_index ≡ some other
  step_there other h =
      get_elem?-set_self run.steps run.current_step_index other
        (get_elem?-lt run.steps run.current_step_index step h)

  approved_turn :
      (env : Env) (coworker name : Json) (tool : Tool) (config : CoworkerConfig)
      → Waits reader run id step row
      → step.step_type ≡ tool_call
      → get "coworker_id" step.definition ≡ some coworker
      → get "tool_name" step.definition ≡ some name
      → env.attachment coworker name ≡ some tool
      → env.config coworker ≡ some config
      → org_decision env tool ≢ deny
      → turn env (answered_run run step id true now)
        ≡ execute env (answered_run run step id true now) (resume_step step true now) tool
  unfolding turn
  approved_turn env coworker name tool config w is_call by named attached configured ne =
      rw (step_there (resume_step step true now) w.current) (
        tool_call-turn env (answered_run run step id true now) (resume_step step true now)
          step.step_type is_call)
      ∙ approved-tool_turn env (answered_run run step id true now) (resume_step step true now)
          coworker name tool config (record row { status = ApprovalStatus.approved }) by named
          attached configured ne
          (approval_for_step-map run.approvals run.current_step_index id ApprovalStatus.approved row
            w.newest (passes_id w.request))
          refl

  -- If the run's current step is a tool call whose coworker and enabled tool are found and that the
  -- organization does not deny, and a pending request that the reader may decide on is the newest of
  -- that step, then an approval is carried out and the run is called again, and its next turn
  -- executes that tool for that step. A denial is carried out too: it fails the run, makes no tool
  -- call and does not call the run again, and `advance_workflow_run` then leaves it alone.
  pub answer_approval_request_lem :
      (env : Env) (coworker name : Json) (tool : Tool) (config : CoworkerConfig)
      → Waits reader run id step row
      → step.step_type ≡ tool_call
      → get "coworker_id" step.definition ≡ some coworker
      → get "tool_name" step.definition ≡ some name
      → env.attachment coworker name ≡ some tool
      → env.config coworker ≡ some config
      → org_decision env tool ≢ deny
      → ((next : Run) × (answer_approval_request reader run id true now ≡ answered next true)
          × (turn env next ≡ execute env next (resume_step step true now) tool))
        × ((next : Run) × (answer_approval_request reader run id false now ≡ answered next false)
            × (next.status ≡ RunStatus.failed)
            × (next.calls ≡ run.calls)
            × (advance_workflow_run env next ≡ (next, returned false)))
  answer_approval_request_lem env coworker name tool config w is_call by named attached configured
        ne =
      (
        (
          answered_run run step id true now,
          answered_lem true w,
          approved_turn env coworker name tool config w is_call by named attached configured ne,
        ),
        (
          answered_run run step id false now,
          answered_lem false w,
          refl,
          refl,
          advance-stopped env (answered_run run step id false now) refl,
        ),
      )
