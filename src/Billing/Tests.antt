-- ===== src/Billing/Tests.antt =====
-- A catalog of two plans, and the theorems on a workspace that has none yet.
use deep_foundry.Base.{ℕ, true, false, none, some, List, [], ◌∷◌, ◌≡◌, refl}
use deep_foundry.Base.Int.{pos}
use deep_foundry.Billing.{
  LimitKind, Plan, Store, Metered, Billed, default_plan, get_active_plan, get_usage, enforce, check,
  subscription_of,
}
use deep_foundry.Billing.Laws.{IsDefault, default_plan-IsDefault}

abbrev plan : ℕ → ℕ → Plan
plan id teams = record {
  id = id;
  name = "Plan";
  price = pos 0;
  max_coworkers = some 3;
  max_agent_teams = some teams;
  max_tasks_per_month = none;
  max_seats = some 1;
  is_default = false;
  active = true;
  sort_order = id;
}

abbrev plans : List Plan
plans = plan 2 9 ∷ plan 1 1 ∷ []

abbrev team : Metered
team = record { workspace_id = 7; counted = true; created_at = 0 }

abbrev store : Store
store = record {
  plans = plans;
  subscriptions = [];
  coworker_rows = [];
  team_rows = team ∷ [];
  task_rows = [];
  run_rows = [];
  member_rows = [];
}

default_plan-IsDefault_example : IsDefault plans (default_plan plans)
default_plan-IsDefault_example = default_plan-IsDefault plans

-- The default plan has room for one team, and the workspace has it.
refuses_it :
    enforce store 7 0 LimitKind.agent_teams
    ≡ Billed.billed
        (record store { subscriptions = record { workspace_id = 7; plan = plan 1 1 } ∷ [] })
        (some (record { kind = LimitKind.agent_teams; limit = 1; plan_name = "Plan" }))
unfolding enforce check get_active_plan subscription_of get_usage default_plan
refuses_it = refl
