-- ===== src/TaskEngine/Induction.antt =====
-- Induction on the turns of a delivery of a background task.
use deep_foundry.Base.{String, ℕ, zero, suc, Option, none, some, List, [], ◌∷◌}
use deep_foundry.Workflow.State.{TaskStatus}
use deep_foundry.Workflow.Engine.{CoworkerConfig}
use deep_foundry.TaskEngine.{
  ToolCall, Message, ModelResponse, Work, Worker, Generation, answer, router_error, task_completed,
  unresolved,
}
use deep_foundry.TaskEngine.Calls.{Progress, again, return, raised, report, process_call}
use deep_foundry.TaskEngine.Loop.{
  next_call, process_calls, report_completed, complete, take_answer, model_turn, message_turn,
  iteration, iterate,
}
use deep_foundry.TaskEngine.Effects.{CallDoes, process_call-Does}

-- What must hold of a part of the delivery, by how it ends.
abbrev pub Holds : (Work → Type 0) → (Work → Type 0) → (Work → Type 0) → Progress → Type 0
Holds I Q R (again work) = I work
Holds I Q R (return work) = Q work
Holds I Q R (raised work message) = R work

next_call_rule :
    (I J Q R : Work → Type 0) (p : Progress) (rest : Work → Progress)
    → Holds I Q R p
    → ((work : Work) → I work → Holds J Q R (rest work))
    → Holds J Q R (next_call p rest)
next_call_rule I J Q R (again work) rest h f = f work h
next_call_rule I J Q R (return work) rest h f = h
next_call_rule I J Q R (raised work message) rest h f = h

-- A completion that returns or raises.
pub complete_rule :
    (I Q R : Work → Type 0) (worker : Worker) (work : Work) (content : String)
    (memory : Option String)
    → Q (record (report_completed worker work content) {
      memories = content ∷ work.memories;
      audited = "task.completed" ∷ work.audited;
      notices = task_completed TaskStatus.completed ∷ work.notices;
    })
    → R (report_completed worker work content)
    → Holds I Q R (complete worker work content memory)
complete_rule I Q R worker work content none q r = q
complete_rule I Q R worker work content (some message) q r = r

module _ (worker : Worker) (config : CoworkerConfig) (I Q R : Work → Type 0)
    (calls : (work : Work) (call : ToolCall) (p : Progress)
      → CallDoes worker config work call p
      → I work
      → Holds I Q R p)
    (saves : (work : Work) → I work → I (report worker work TaskStatus.in_progress))
    (answers : (work : Work) (response : ModelResponse)
      → I work
      → Holds I Q R (take_answer worker work response))
    (fails : (work : Work) → I work → R work) where
  process_calls_rule :
      (cs : List ToolCall) (work : Work)
      → I work
      → Holds I Q R (process_calls worker config cs work)
  unfolding process_calls
  process_calls_rule [] work h = saves work h
  process_calls_rule (c ∷ cs) work h =
      next_call_rule I I Q R (process_call worker config c work) (process_calls worker config cs)
        (calls work c _ (process_call-Does worker config c work) h) (process_calls_rule cs)

  message_turn_rule :
      (work : Work) (message : Option Message)
      → I work
      → Holds I Q R (message_turn worker config work message)
  message_turn_rule work none h = generated (worker.generate work.messages)
    where
      generated : (g : Generation) → Holds I Q R (model_turn worker work g)
      generated (router_error message) = fails work h
      generated (answer response) = answers work response h
  message_turn_rule work (some message) h = process_calls_rule message.tool_calls work h

  -- The delivery never just goes on: it returns or raises.
  pub iterate_rule :
      (n : ℕ) (work : Work) → I work → Holds (λ w. ⊥) Q R (iterate n worker config work)
  unfolding iterate iteration
  iterate_rule zero work h = fails work h
  iterate_rule (suc n) work h =
      next_call_rule I (λ w. ⊥) Q R (message_turn worker config work (unresolved work.messages))
        (iterate n worker config) (message_turn_rule work (unresolved work.messages) h)
        (iterate_rule n)
