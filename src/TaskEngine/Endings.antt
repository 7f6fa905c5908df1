-- ===== src/TaskEngine/Endings.antt =====
-- How a delivery of a background task leaves the task.
use deep_foundry.Base.{
  ℕ, String, Bool, true, false, Option, none, some, List, [], ◌∷◌, ◌≡◌, refl, arith,
}
use deep_foundry.Workflow.State.{TaskStatus}
use deep_foundry.Workflow.Engine.{CoworkerConfig}
use deep_foundry.TaskEngine.{
  Role, append_message, ToolCall, CallApproval, TaskRow, ModelResponse, Work, Worker,
  report_task_status, claim_task_execution,
}
use deep_foundry.TaskEngine.Calls.{Progress, again, return, raised}
use deep_foundry.TaskEngine.Loop.{
  complete, take_answer, finish, fail_task, start_work, run_claimed, deliver,
  execute_background_task,
}
use deep_foundry.TaskEngine.Effects.{
  CallDoes, skips, misses, stops, breaks, runs, crashes, IsSettled,
}
use deep_foundry.TaskEngine.Induction.{Holds, complete_rule, iterate_rule}

abbrev Anything : Work → Type 0
Anything work = Unit

module _ (worker : Worker) (config : CoworkerConfig) where
  CallDoes-IsSettled :
      (work : Work) (call : ToolCall) (p : Progress)
      → CallDoes worker config work call p
      → Anything work
      → Holds Anything (IsSettled worker) Anything p
  CallDoes-IsSettled work call p (stops next same settled) h = settled
  CallDoes-IsSettled work call p skips h = tt
  CallDoes-IsSettled work call p (misses content e) h = tt
  CallDoes-IsSettled work call p (breaks message) h = tt
  CallDoes-IsSettled work call p (runs content audited e vouched) h = tt
  CallDoes-IsSettled work call p (crashes message audited e vouched) h = tt

  complete-IsSettled :
      (work : Work) (content : String) (memory : Option String)
      → Holds Anything (IsSettled worker) Anything (complete worker work content memory)
  unfolding report_task_status
  complete-IsSettled work content memory =
      complete_rule Anything (IsSettled worker) Anything worker work content memory
        (refl, λ f. refl) tt

  take_answer-IsSettled :
      (work : Work) (response : ModelResponse)
      → Anything work
      → Holds Anything (IsSettled worker) Anything (take_answer worker work response)
  unfolding report_task_status
  take_answer-IsSettled work response h = by_calls response.tool_calls refl
    where
      by_calls :
          (calls : List ToolCall)
          → response.tool_calls ≡ calls
          → Holds Anything (IsSettled worker) Anything (take_answer worker work response)
      by_calls [] e = rw e (
          complete-IsSettled
            (append_message work (record {
              role = Role.assistant;
              content = response.content;
              tool_call_id = none;
              tool_calls = [];
            }))
            response.content (worker.write_memory response.content))
      by_calls (c ∷ cs) e = rw e tt

fail_task-IsSettled :
    (worker : Worker) (work : Work) (message : String)
    → IsSettled worker (fail_task worker work message)
unfolding report_task_status
fail_task-IsSettled worker work message = (refl, λ f. refl)

finish-IsSettled :
    (worker : Worker) (p : Progress)
    → Holds (λ w. ⊥) (IsSettled worker) Anything p
    → IsSettled worker (finish worker p)
finish-IsSettled worker (again work) h = absurd h
finish-IsSettled worker (return work) h = h
finish-IsSettled worker (raised work message) h = fail_task-IsSettled worker work message

run_claimed-IsSettled :
    (limit : ℕ) (worker : Worker) (work : Work) (config : Option CoworkerConfig)
    → IsSettled worker (run_claimed limit worker work config)
run_claimed-IsSettled limit worker work none = fail_task-IsSettled worker work worker.config_error
run_claimed-IsSettled limit worker work (some config) = finish-IsSettled worker _ (
    iterate_rule worker config Anything (IsSettled worker) Anything
      (CallDoes-IsSettled worker config) (λ w k. tt) (take_answer-IsSettled worker config)
      (λ w k. tt) limit work tt)

-- Whether a task can be claimed.
abbrev pub is_claimable : TaskStatus → Bool
is_claimable TaskStatus.pending = true
is_claimable TaskStatus.needs_approval = true
is_claimable _ = false

-- What a delivery gives: nothing for a task that is not waiting to run, and otherwise a settled one.
abbrev pub Delivered : Worker → TaskStatus → Option Work → Type 0
Delivered worker status none = is_claimable status ≡ false
Delivered worker status (some after) = (is_claimable status ≡ true) × IsSettled worker after

claim-none : (row : TaskRow) → claim_task_execution row ≡ none → is_claimable row.status ≡ false
unfolding claim_task_execution
claim-none row h = ground arith

claim-some :
    (row start : TaskRow) → claim_task_execution row ≡ some start → is_claimable row.status ≡ true
unfolding claim_task_execution
claim-some row start h = ground arith

-- A delivery of a task that is pending or waits for approval always ends, within the given number of
-- iterations, with the task waiting for an answer or an approval, or completed, failed or blocked at
-- that time: it is never left in progress. A delivery of any other task does nothing.
pub execute_background_task-Delivered :
    (limit : ℕ) (worker : Worker) (approvals : List CallApproval) (row : TaskRow)
    → Delivered worker row.status (execute_background_task limit worker approvals row)
unfolding execute_background_task
execute_background_task-Delivered limit worker approvals row =
    claimed (claim_task_execution row) refl
  where
    claimed :
        (start : Option TaskRow)
        → claim_task_execution row ≡ start
        → Delivered worker row.status (deliver limit worker approvals start)
    claimed none e = claim-none row e
    claimed (some start) e = (
      claim-some row start e,
      run_claimed-IsSettled limit worker (start_work worker start approvals) worker.config,
    )
