-- ===== src/Teams/Engine.antt =====
-- `advance_agent_team_run` and `_team_task` of services/app/core/v2_engine.py. The kind of a task is
-- the tag in front of its title by which the code finds it again.
use deep_foundry.Base.{
  ℕ, String, str_eq, Bool, true, false, not, Option, none, some, List, [], ◌∷◌, ◌++◌, map, ◌==◌,
  ltb, any, find, keep, length, get_elem?, if◌then◌else◌,
}
use deep_foundry.Workflow.State.{TaskStatus}
use deep_foundry.Teams.{Pattern, sequential, manager_delegate, parallel_merge, Member}

-- `[plan] `, `[delegate:role] `, `[synthesis] `, or another title.
pub data Kind : Type 0 where
  plan delegate synthesis work : Kind

-- What the description of a task quotes besides the objective: earlier results.
pub record TeamTask : Type 0 where
  pub kind : Kind
  pub coworker : ℕ
  pub role : String
  pub quotes : List String
  pub status : TaskStatus
  pub result : String

-- `AgentTeamRun.Status`
pub data TeamRunStatus : Type 0 where
  running completed failed : TeamRunStatus

-- The result of a run: none yet, the text of a failure, one task's result, or all of them joined.
pub data TeamResult : Type 0 where
  no_result : TeamResult
  member_failed : TeamResult
  result_of : String → TeamResult
  joined : List String → TeamResult

-- The tasks are in the order of their creation; each is queued when it is created.
pub record TeamRun : Type 0 where
  pub status : TeamRunStatus
  pub pattern : Pattern
  pub members : List Member
  pub tasks : List TeamTask
  pub result : TeamResult
  pub completed_at : Option ℕ
  pub audited : List String

abbrev pub team_task : Member → Kind → List String → TeamTask
team_task member kind quotes = record {
  kind = kind;
  coworker = member.coworker;
  role = member.role;
  quotes = quotes;
  status = TaskStatus.pending;
  result = "";
}

abbrev pub add_tasks : TeamRun → List TeamTask → TeamRun
add_tasks run tasks = record run { tasks = run.tasks ++ tasks }

abbrev pub is_failed : TeamTask → Bool
is_failed task = elim task.status [ TaskStatus.failed ↦ true | _ ↦ false ]

-- `status not in (COMPLETED, FAILED, BLOCKED)`
abbrev pub is_unfinished : TeamTask → Bool
is_unfinished task = elim task.status [
  | TaskStatus.completed ↦ false
  | TaskStatus.failed ↦ false
  | TaskStatus.blocked ↦ false
  | _ ↦ true
]

abbrev pub is_plan : TeamTask → Bool
is_plan task = elim task.kind [ plan ↦ true | _ ↦ false ]

abbrev pub is_delegate : TeamTask → Bool
is_delegate task = elim task.kind [ delegate ↦ true | _ ↦ false ]

abbrev pub is_synthesis : TeamTask → Bool
is_synthesis task = elim task.kind [ synthesis ↦ true | _ ↦ false ]

abbrev pub manager_of : List Member → Option Member
manager_of members = find (λ (m : Member). str_eq m.role "manager") members

-- The run, and whether to poll again; `none` where the code raises.
abbrev pub Advanced : Type 0
Advanced = Option (TeamRun × Bool)

abbrev pub fail_run : ℕ → TeamRun → TeamRun
fail_run now run = record run { status = failed; result = member_failed; completed_at = some now }

abbrev pub complete_team : ℕ → TeamRun → TeamResult → Advanced
complete_team now run result = some (
  record run {
    status = completed;
    result = result;
    completed_at = some now;
    audited = "agent_team.completed" ∷ run.audited;
  },
  false,
)

abbrev pub go_on : TeamRun → List TeamTask → Advanced
go_on run tasks = some (add_tasks run tasks, true)

-- The first tasks of a run. `next(...)` and `members[0]` raise if there is none.
abbrev pub start_managed : TeamRun → Option Member → Advanced
start_managed run none = none
start_managed run (some manager) = go_on run (team_task manager plan [] ∷ [])

abbrev pub start_first : TeamRun → Option Member → Advanced
start_first run none = none
start_first run (some member) = go_on run (team_task member work [] ∷ [])

abbrev pub start_tasks : TeamRun → Pattern → Advanced
start_tasks run manager_delegate = start_managed run (manager_of run.members)
start_tasks run sequential = start_first run (get_elem? run.members 0)
start_tasks run parallel_merge =
    some (add_tasks run (map (λ m. team_task m work []) run.members), true)

-- The work that the manager's plan hands out; a manager without delegates goes on alone.
abbrev pub delegate_tasks : List Member → Member → TeamTask → List TeamTask
delegate_tasks members manager planned =
    map (λ m. team_task m delegate (planned.result ∷ []))
      (keep (λ (m : Member). not (m.id == manager.id)) members)
    ++ (if length members == 1 then team_task manager synthesis (planned.result ∷ []) ∷ [] else [])

abbrev pub synthesize : ℕ → TeamRun → Member → List TeamTask → Option TeamTask → Advanced
synthesize now run manager delegates (some final) = complete_team now run (result_of final.result)
synthesize now run manager [] none = complete_team now run run.result
synthesize now run manager (d ∷ ds) none =
    go_on run (team_task manager synthesis (map (λ t. t.result) (d ∷ ds)) ∷ [])

abbrev pub delegate_work :
    ℕ → TeamRun → Member → Option TeamTask → List TeamTask → Option TeamTask → Advanced
delegate_work now run manager (some planned) [] none =
    some (add_tasks run (delegate_tasks run.members manager planned), true)
delegate_work now run manager planned delegates final = synthesize now run manager delegates final

abbrev pub manage : ℕ → TeamRun → Option Member → Advanced
manage now run none = none
manage now run (some manager) =
    delegate_work now run manager (find is_plan run.tasks) (keep is_delegate run.tasks)
      (find is_synthesis run.tasks)

-- `tasks[-1]`
abbrev pub last_of : TeamTask → List TeamTask → TeamTask
last_of task [] = task
last_of task (t ∷ ts) = last_of t ts

abbrev pub next_member : TeamRun → TeamTask → Option Member → Advanced
next_member run previous none = none
next_member run previous (some member) =
    go_on run (team_task member work (previous.result ∷ []) ∷ [])

abbrev pub in_turn : ℕ → TeamRun → TeamTask → Advanced
in_turn now run previous =
    if ltb (length run.tasks) (length run.members)
    then next_member run previous (get_elem? run.members (length run.tasks))
    else complete_team now run (result_of previous.result)

abbrev pub continue_tasks : ℕ → TeamRun → TeamTask → List TeamTask → Pattern → Advanced
continue_tasks now run t ts manager_delegate = manage now run (manager_of run.members)
continue_tasks now run t ts sequential = in_turn now run (last_of t ts)
continue_tasks now run t ts parallel_merge =
    complete_team now run (joined (map (λ u. u.result) (t ∷ ts)))

abbrev pub next_tasks : ℕ → TeamRun → List TeamTask → Advanced
next_tasks now run [] = start_tasks run run.pattern
next_tasks now run (t ∷ ts) = continue_tasks now run t ts run.pattern

abbrev pub advance_running : ℕ → TeamRun → Advanced
advance_running now run =
    if any is_failed run.tasks
    then some (fail_run now run, false)
    else if any is_unfinished run.tasks
    then some (run, true)
    else next_tasks now run run.tasks

abbrev pub advance_status : ℕ → TeamRun → TeamRunStatus → Advanced
advance_status now run running = advance_running now run
advance_status now run _ = some (run, false)

unfoldable pub advance_agent_team_run : ℕ → TeamRun → Advanced
advance_agent_team_run now run = advance_status now run run.status
