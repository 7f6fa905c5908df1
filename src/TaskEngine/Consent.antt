-- ===== src/TaskEngine/Consent.antt =====
-- With whose consent `execute_background_task` calls a tool.
use deep_foundry.Base.{ℕ, Option, none, some, List, [], ◌∷◌, ◌≡◌, refl, All}
use mathlib.Core.Path.{subst}
use deep_foundry.Workflow.Engine.{CoworkerConfig}
use deep_foundry.TaskEngine.{
  ToolCall, CallApproval, TaskRow, ModelResponse, Work, Worker, claim_task_execution,
}
use deep_foundry.TaskEngine.Calls.{Progress, again, return, raised}
use deep_foundry.TaskEngine.Loop.{
  take_answer, iterate, finish, start_work, deliver, execute_background_task,
}
use deep_foundry.TaskEngine.Effects.{CallDoes, skips, misses, stops, breaks, runs, crashes, Vouched}
use deep_foundry.TaskEngine.Induction.{Holds, complete_rule, iterate_rule}

module _ (worker : Worker) (config : CoworkerConfig) (approvals : List CallApproval) where
  abbrev AllVouched : Work → Type 0
  AllVouched work = All (Vouched worker config approvals) work.executed

  abbrev Keeps : Work → Type 0
  Keeps work = (work.approvals ≡ approvals) × AllVouched work

  renew :
      (work : Work) (call : ToolCall)
      → Vouched worker config work.approvals call
      → Keeps work
      → Vouched worker config approvals call
  renew work call vouched h = subst (λ rows. Vouched worker config rows call) h.0 vouched

  CallDoes-Vouched :
      (work : Work) (call : ToolCall) (p : Progress)
      → CallDoes worker config work call p
      → Keeps work
      → Holds Keeps AllVouched AllVouched p
  CallDoes-Vouched work call p skips h = h
  CallDoes-Vouched work call p (misses content e) h = h
  CallDoes-Vouched work call p (stops next same s) h = rw same h.1
  CallDoes-Vouched work call p (breaks message) h = h.1
  CallDoes-Vouched work call p (runs content audited e vouched) h =
      (h.0, (renew work call vouched h, h.1))
  CallDoes-Vouched work call p (crashes message audited e vouched) h =
      (renew work call vouched h, h.1)

  take_answer-Vouched :
      (work : Work) (response : ModelResponse)
      → Keeps work
      → Holds Keeps AllVouched AllVouched (take_answer worker work response)
  take_answer-Vouched work response h = by_calls response.tool_calls refl
    where
      by_calls :
          (calls : List ToolCall)
          → response.tool_calls ≡ calls
          → Holds Keeps AllVouched AllVouched (take_answer worker work response)
      by_calls [] e = rw e (
          complete_rule Keeps AllVouched AllVouched worker _ _
            (worker.write_memory response.content) h.1 h.1)
      by_calls (c ∷ cs) e = rw e h

  finish-Vouched :
      (p : Progress) → Holds (λ w. ⊥) AllVouched AllVouched p → AllVouched (finish worker p)
  finish-Vouched (again work) h = absurd h
  finish-Vouched (return work) h = h
  finish-Vouched (raised work message) h = h

-- If the coworker's configuration can be read, every tool call that a delivery of a background task
-- makes is of a tool attached to the coworker,
-- no rule of the organization denies it, and it is consented to: the coworker's profile and the
-- organization's floor decide `auto` and no rule asks for approval, or a standing approval matches
-- and neither the floor nor a rule asks for approval, or the newest approval request for that call
-- is approved.
pub execute_background_task-Vouched :
    (limit : ℕ) (worker : Worker) (config : CoworkerConfig) (approvals : List CallApproval)
    (row : TaskRow) (after : Work)
    → worker.config ≡ some config
    → execute_background_task limit worker approvals row ≡ some after
    → All (Vouched worker config approvals) after.executed
unfolding execute_background_task
execute_background_task-Vouched limit worker config approvals row after configured h =
    claimed (claim_task_execution row) h
  where
    ended :
        (start : TaskRow)
        → All
            (Vouched worker config approvals)
            (finish worker
              (iterate limit worker config (start_work worker start approvals))).executed
    ended start = finish-Vouched worker config approvals _ (
        iterate_rule worker config (Keeps worker config approvals)
          (AllVouched worker config approvals) (AllVouched worker config approvals)
          (CallDoes-Vouched worker config approvals) (λ w k. k)
          (take_answer-Vouched worker config approvals) (λ w k. k.1) limit
          (start_work worker start approvals) (refl, tt))

    claimed :
        (start : Option TaskRow)
        → deliver limit worker approvals start ≡ some after
        → All (Vouched worker config approvals) after.executed
    claimed none e = cc
    claimed (some start) e =
        let same : finish worker (iterate limit worker config (start_work worker start approvals))
            ≡ after =
          cc (rw configured at e) in
        subst (λ (w : Work). All (Vouched worker config approvals) w.executed) same (ended start)
