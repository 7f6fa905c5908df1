-- ===== src/TaskEngine/Once.antt =====
-- A delivery of a background task makes no tool call twice.
use deep_foundry.Base.{
  ℕ, String, eq_refl, Bool, true, false, ◌||◌, ◌&&◌, Option, none, some, List, [], ◌∷◌, ◌++◌, ◌≡◌,
  ◌≢◌, refl, sym, arith, All,
}
use mathlib.Core.Path.{subst}
use deep_foundry.Base.Sorting.{All-map}
use deep_foundry.Workflow.Engine.{CoworkerConfig}
use deep_foundry.TaskEngine.{
  ToolCall, Message, CallApproval, TaskRow, ModelResponse, Work, Worker, is_answered, reply_to,
  is_tool_reply, has_id, append_message, claim_task_execution,
}
use deep_foundry.TaskEngine.Calls.{Progress, again, return, raised}
use deep_foundry.TaskEngine.Loop.{
  take_answer, finish, start_work, starting_messages, run_claimed, deliver, execute_background_task,
}
use deep_foundry.TaskEngine.Effects.{CallDoes, skips, misses, stops, breaks, runs, crashes}
use deep_foundry.TaskEngine.Induction.{Holds, complete_rule, iterate_rule}

is_answered-append :
    (id : String) (ms : List Message) (m : Message)
    → is_answered id (ms ++ (m ∷ []))
      ≡ (is_answered id ms || (is_tool_reply m && has_id id m.tool_call_id))
unfolding is_answered
is_answered-append id [] m = ground arith
is_answered-append id (n ∷ ms) m = ground (arith, is_answered-append id ms m)

is_answered-kept :
    (id : String) (ms : List Message) (m : Message)
    → is_answered id ms ≡ true
    → is_answered id (ms ++ (m ∷ [])) ≡ true
is_answered-kept id ms m h = ground (arith, is_answered-append id ms m)

is_answered-reply :
    (call : ToolCall) (content : String) (ms : List Message)
    → is_answered call.id (ms ++ (reply_to call content ∷ [])) ≡ true
is_answered-reply call content ms =
    ground (arith, is_answered-append call.id ms (reply_to call content), eq_refl call.id)

-- No two of the calls have one id.
abbrev pub HaveDistinctIds : List ToolCall → Type 0
HaveDistinctIds [] = Unit
HaveDistinctIds (c ∷ cs) = All (λ (d : ToolCall). d.id ≢ c.id) cs × HaveDistinctIds cs

-- Nothing was executed twice, nor again what the first messages had answered.
abbrev pub IsOnce : List Message → List ToolCall → Type 0
IsOnce first calls =
    HaveDistinctIds calls × All (λ (c : ToolCall). is_answered c.id first ≡ false) calls

module _ (worker : Worker) (config : CoworkerConfig) (first : List Message) where
  abbrev Executed : Work → Type 0
  Executed work = IsOnce first work.executed

  abbrev Answered : Work → Type 0
  Answered work =
      Executed work
      × All (λ (c : ToolCall). is_answered c.id work.messages ≡ true) work.executed
      × ((id : String) → is_answered id first ≡ true → is_answered id work.messages ≡ true)

  later : (work : Work) (m : Message) → Answered work → Answered (append_message work m)
  later work m (once, all_answered, kept) = (
    once,
    All-map _ _ work.executed (λ c a. is_answered-kept c.id work.messages m a) all_answered,
    λ id a. is_answered-kept id work.messages m (kept id a),
  )

  add_call :
      (work : Work) (call : ToolCall)
      → is_answered call.id work.messages ≡ false
      → Answered work
      → IsOnce first (call ∷ work.executed)
  add_call work call fresh (once, all_answered, kept) = (
    (
      All-map _ _ work.executed
          (λ (c : ToolCall) a same.
            clash c.id (subst (λ i. is_answered i work.messages ≡ true) same a))
          all_answered,
      once.0,
    ),
    (unseen (is_answered call.id first) refl, once.1),
  )
    where
      clash : String → is_answered call.id work.messages ≡ true → ⊥
      clash id a = cc (a, fresh)

      unseen : (b : Bool) → is_answered call.id first ≡ b → is_answered call.id first ≡ false
      unseen true e = absurd (clash call.id (kept call.id e))
      unseen false e = e

  CallDoes-Executed :
      (work : Work) (call : ToolCall) (p : Progress)
      → CallDoes worker config work call p
      → Answered work
      → Holds Answered Executed Executed p
  CallDoes-Executed work call p skips h = h
  CallDoes-Executed work call p (misses content e) h = later work (reply_to call content) h
  CallDoes-Executed work call p (stops next same s) h = subst (IsOnce first) (sym same) h.0
  CallDoes-Executed work call p (breaks message) h = h.0
  CallDoes-Executed work call p (runs content audited e vouched) h =
      let (once, all_answered, kept) = later work (reply_to call content) h in
      (add_call work call e h, (is_answered-reply call content work.messages, all_answered), kept)
  CallDoes-Executed work call p (crashes message audited e vouched) h = add_call work call e h

  take_answer-Executed :
      (work : Work) (response : ModelResponse)
      → Answered work
      → Holds Answered Executed Executed (take_answer worker work response)
  take_answer-Executed work response h = by_calls response.tool_calls refl
    where
      by_calls :
          (calls : List ToolCall)
          → response.tool_calls ≡ calls
          → Holds Answered Executed Executed (take_answer worker work response)
      by_calls [] e = rw e (
          complete_rule Answered Executed Executed worker _ _ (worker.write_memory response.content)
            h.0 h.0)
      by_calls (c ∷ cs) e = rw e (later work _ h)

  finish-Executed : (p : Progress) → Holds (λ w. ⊥) Executed Executed p → Executed (finish worker p)
  finish-Executed (again work) h = absurd h
  finish-Executed (return work) h = h
  finish-Executed (raised work message) h = h

claim-messages :
    (row start : TaskRow) → claim_task_execution row ≡ some start → row.messages ≡ start.messages
unfolding claim_task_execution
claim-messages row start h = ground arith

run-IsOnce :
    (limit : ℕ) (worker : Worker) (approvals : List CallApproval) (row : TaskRow)
    (config : Option CoworkerConfig)
    → IsOnce
        (starting_messages worker row)
        (run_claimed limit worker (start_work worker row approvals) config).executed
run-IsOnce limit worker approvals row none = (tt, tt)
run-IsOnce limit worker approvals row (some config) =
    let first = starting_messages worker row in
    finish-Executed worker config first _ (
      iterate_rule worker config (Answered worker config first) (Executed worker config first)
        (Executed worker config first) (CallDoes-Executed worker config first) (λ w k. k)
        (take_answer-Executed worker config first) (λ w k. k.0) limit
        (start_work worker row approvals) ((tt, tt), tt, λ id a. a))

-- The tool calls that a delivery of a background task makes have different ids, and none of them has
-- an answer in the messages with which the delivery starts: a task that is resumed repeats no call
-- whose answer was saved.
pub execute_background_task-IsOnce :
    (limit : ℕ) (worker : Worker) (approvals : List CallApproval) (row : TaskRow) (after : Work)
    → execute_background_task limit worker approvals row ≡ some after
    → IsOnce (starting_messages worker row) after.executed
unfolding execute_background_task
execute_background_task-IsOnce limit worker approvals row after h =
    claimed (claim_task_execution row) refl h
  where
    claimed :
        (start : Option TaskRow)
        → claim_task_execution row ≡ start
        → deliver limit worker approvals start ≡ some after
        → IsOnce (starting_messages worker row) after.executed
    claimed none e k = cc
    claimed (some start) e k =
        let same : run_claimed limit worker (start_work worker start approvals) worker.config
            ≡ after =
          cc k in
        let messages = claim-messages row start e in
        rw messages (
          subst (λ (w : Work). IsOnce (starting_messages worker start) w.executed) same
            (run-IsOnce limit worker approvals start worker.config))
