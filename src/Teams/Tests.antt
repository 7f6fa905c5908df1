-- ===== src/Teams/Tests.antt =====
-- A manager with one delegate, and the theorems on the team and its run.
use deep_foundry.Base.{true, none, some, List, [], ◌∷◌, refl, arith}
use deep_foundry.Workflow.State.{TaskStatus}
use deep_foundry.Permissions.{Membership, Role}
use deep_foundry.Base.Int.{pos}
use deep_foundry.Billing.{Plan, Store}
use deep_foundry.Teams.{CoworkerRow, manager_delegate, Member, Team, MemberPayload}
use deep_foundry.Teams.Engine.{
  TeamTask, TeamRun, TeamRunStatus, Kind, TeamResult, advance_agent_team_run,
}
use deep_foundry.Teams.Progress.{IsWorkable, Moves, advance_agent_team_run-Moves}

abbrev memberships : List Membership
memberships = record { workspace_id = 1; user_id = 9; role = Role.admin } ∷ []

abbrev free : Plan
free = record {
  id = 1;
  name = "Free";
  price = pos 0;
  max_coworkers = none;
  max_agent_teams = some 1;
  max_tasks_per_month = none;
  max_seats = none;
  is_default = true;
  active = true;
  sort_order = 0;
}

abbrev store : Store
store = record {
  plans = free ∷ [];
  subscriptions = [];
  coworker_rows = [];
  team_rows = [];
  task_rows = [];
  run_rows = [];
  member_rows = [];
}

abbrev coworkers : List CoworkerRow
coworkers =
    record { id = 4; workspace_id = 1; active = true }
    ∷ record { id = 5; workspace_id = 1; active = true }
    ∷ []

abbrev payload : List MemberPayload
payload =
    record { coworker_id = some 4; role = some "manager" }
    ∷ record { coworker_id = some 5; role = none }
    ∷ []

abbrev members : List Member
members =
    record { id = 0; coworker = 4; role = "manager" }
    ∷ record { id = 1; coworker = 5; role = "custom" }
    ∷ []

abbrev team : Team
team = record {
  workspace_id = 1;
  pattern = manager_delegate;
  version_number = 1;
  members = members;
}

-- The workspace joins the default plan.
abbrev subscribed : Store
subscribed = record store { subscriptions = record { workspace_id = 1; plan = free } ∷ [] }

abbrev planned : TeamTask
planned = record {
  kind = Kind.plan;
  coworker = 4;
  role = "manager";
  quotes = [];
  status = TaskStatus.completed;
  result = "Split it.";
}

abbrev run : TeamRun
run = record {
  status = TeamRunStatus.running;
  pattern = manager_delegate;
  members = members;
  tasks = planned ∷ [];
  result = TeamResult.no_result;
  completed_at = none;
  audited = [];
}

workable : IsWorkable run
workable = record {
  nonempty = omega arith;
  apart = (((omega arith, λ e. omega (arith, e)), tt), (tt, tt));
  led = λ e. refl;
}

advance_agent_team_run-Moves_example : Moves 100 run (advance_agent_team_run 100 run)
advance_agent_team_run-Moves_example = advance_agent_team_run-Moves 100 run workable refl refl refl
