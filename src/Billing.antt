-- ===== src/Billing.antt =====
-- The limits of a workspace's plan: services/app/core/billing.py.
pub mod Laws
pub mod Limits
mod Tests
use deep_foundry.Base.{
  ℕ, ◌+◌, String, Bool, true, false, ◌&&◌, Option, none, some, List, [], ◌∷◌, ◌==◌, ltb, leb, find,
  count_if, if◌then◌else◌,
}
use deep_foundry.Base.Int.{ℤ, ltb_ℤ}
use deep_foundry.Base.Sorting.{sort_by}

-- `LimitKind`
pub data LimitKind : Type 0 where
  coworkers agent_teams tasks_per_month seats : LimitKind

-- `SubscriptionPlan`; the price in cents, and a limit of `none` is no limit.
pub record Plan : Type 0 where
  pub id : ℕ
  pub name : String
  pub price : ℤ
  pub max_coworkers : Option ℕ
  pub max_agent_teams : Option ℕ
  pub max_tasks_per_month : Option ℕ
  pub max_seats : Option ℕ
  pub is_default : Bool
  pub active : Bool
  pub sort_order : ℕ

-- `Subscription`: one row for each workspace at most; its plan is never null.
pub record Subscription : Type 0 where
  pub workspace_id : ℕ
  pub plan : Plan

-- A row that counts against a limit: its workspace, whether it is of the kind that is counted (an
-- active coworker, a task that a user created), and the time of its creation.
pub record Metered : Type 0 where
  pub workspace_id : ℕ
  pub counted : Bool
  pub created_at : ℕ

pub record Store : Type 0 where
  pub plans : List Plan
  pub subscriptions : List Subscription
  pub coworker_rows : List Metered
  pub team_rows : List Metered
  pub task_rows : List Metered
  pub run_rows : List Metered
  pub member_rows : List Metered

-- `getattr(plan, _LIMIT_FIELD[kind])`
abbrev pub limit_of : LimitKind → Plan → Option ℕ
limit_of coworkers plan = plan.max_coworkers
limit_of agent_teams plan = plan.max_agent_teams
limit_of tasks_per_month plan = plan.max_tasks_per_month
limit_of seats plan = plan.max_seats

-- The order of the table: `["sort_order", "price_usd"]`.
abbrev pub plan_le : Plan → Plan → Bool
plan_le p q =
    if ltb p.sort_order q.sort_order
    then true
    else (if ltb q.sort_order p.sort_order
        then false
        else (if ltb_ℤ q.price p.price then false else true))

abbrev pub or_first : Option Plan → Option Plan → Option Plan
or_first none other = other
or_first (some plan) other = some plan

unfoldable pub default_plan : List Plan → Option Plan
default_plan plans =
    or_first (find (λ (p : Plan). p.is_default && p.active) (sort_by plan_le plans))
      (find (λ (p : Plan). p.active) (sort_by plan_le plans))

unfoldable pub subscription_of : List Subscription → ℕ → Option Subscription
subscription_of rows workspace = find (λ (s : Subscription). s.workspace_id == workspace) rows

-- How a function of this file ends: with its result and the rows, or by the `IntegrityError` of a
-- subscription without a plan, which rolls its rows back.
pub data Billed {ℓ} (A : Type ℓ) : Type ℓ where
  billed : Store → A → Billed A
  integrity_error : Billed A

abbrev pub subscribe : Store → ℕ → Option Plan → Billed Plan
subscribe store workspace none = integrity_error
subscribe store workspace (some plan) =
    billed
      (record store {
        subscriptions = record { workspace_id = workspace; plan = plan } ∷ store.subscriptions;
      })
      plan

abbrev pub get_or_create : Store → ℕ → Option Subscription → Billed Plan
get_or_create store workspace (some row) = billed store row.plan
get_or_create store workspace none = subscribe store workspace (default_plan store.plans)

-- The first time that anything asks, a workspace without a row is put on the default plan.
unfoldable pub get_active_plan : Store → ℕ → Billed Plan
get_active_plan store workspace =
    get_or_create store workspace (subscription_of store.subscriptions workspace)

abbrev pub in_workspace : ℕ → List Metered → ℕ
in_workspace workspace rows = count_if (λ (m : Metered). m.workspace_id == workspace) rows

abbrev pub since : ℕ → ℕ → List Metered → ℕ
since workspace start rows =
    count_if
      (λ (m : Metered). (m.workspace_id == workspace) && (m.counted && leb start m.created_at)) rows

abbrev pub runs_since : ℕ → ℕ → List Metered → ℕ
runs_since workspace start rows =
    count_if (λ (m : Metered). (m.workspace_id == workspace) && leb start m.created_at) rows

-- `_tasks_this_month`: a team run counts once.
unfoldable pub tasks_this_month : Store → ℕ → ℕ → ℕ
tasks_this_month store workspace start =
    since workspace start store.task_rows + runs_since workspace start store.run_rows

-- `get_usage`; `start` is the start of the month.
unfoldable pub get_usage : Store → ℕ → ℕ → LimitKind → ℕ
get_usage store workspace start coworkers =
    count_if (λ (m : Metered). (m.workspace_id == workspace) && m.counted) store.coworker_rows
get_usage store workspace start agent_teams = in_workspace workspace store.team_rows
get_usage store workspace start tasks_per_month = tasks_this_month store workspace start
get_usage store workspace start seats = in_workspace workspace store.member_rows

-- `PlanLimitExceeded`
pub record PlanLimitExceeded : Type 0 where
  pub kind : LimitKind
  pub limit : ℕ
  pub plan_name : String

abbrev pub check_limit : LimitKind → ℕ → Plan → Option ℕ → Option PlanLimitExceeded
check_limit kind current plan none = none
check_limit kind current plan (some limit) =
    if leb limit current
    then some (record { kind = kind; limit = limit; plan_name = plan.name })
    else none

-- The plan of a subscription is never null, so the branch of `_check` without one is not taken.
abbrev pub check_plan : LimitKind → ℕ → Billed Plan → Billed (Option PlanLimitExceeded)
check_plan kind current integrity_error = integrity_error
check_plan kind current (billed store plan) =
    billed store (check_limit kind current plan (limit_of kind plan))

-- `_check`, which may write the workspace's subscription.
unfoldable pub check : Store → ℕ → LimitKind → ℕ → Billed (Option PlanLimitExceeded)
check store workspace kind current = check_plan kind current (get_active_plan store workspace)

-- `enforce_coworker_limit`, `enforce_agent_team_limit`, `enforce_monthly_task_limit` and
-- `enforce_seat_limit`
unfoldable pub enforce : Store → ℕ → ℕ → LimitKind → Billed (Option PlanLimitExceeded)
enforce store workspace start kind =
    check store workspace kind (get_usage store workspace start kind)
