-- ===== src/Billing/Limits.antt =====
-- What the check of a limit answers, and what it writes.
use deep_foundry.Base.{ℕ, ◌+◌, ◌≤◌, ◌<◌, true, false, Option, none, some, ◌∷◌, ◌≡◌, All}
use deep_foundry.Base.Sorting.{First, Counted}
use deep_foundry.Billing.{
  LimitKind, coworkers, agent_teams, tasks_per_month, seats, Plan, Subscription, Metered, Store,
  Billed, billed, integrity_error, PlanLimitExceeded,
}
use deep_foundry.Billing.Laws.{IsDefault}

-- The rows that count against a limit, so many.
abbrev pub IsOf : ℕ → Metered → Type 0
IsOf workspace row = row.workspace_id ≡ workspace

abbrev pub IsCounted : ℕ → Metered → Type 0
IsCounted workspace row = (row.workspace_id ≡ workspace) × (row.counted ≡ true)

abbrev pub IsCountedSince : ℕ → ℕ → Metered → Type 0
IsCountedSince workspace start row =
    (row.workspace_id ≡ workspace) × (row.counted ≡ true) × (start ≤ row.created_at)

abbrev pub IsSince : ℕ → ℕ → Metered → Type 0
IsSince workspace start row = (row.workspace_id ≡ workspace) × (start ≤ row.created_at)

-- The usage: the active coworkers, the teams, the tasks of users and the team runs since the start of
-- the month, or the members of the workspace.
abbrev pub Uses : Store → ℕ → ℕ → LimitKind → ℕ → Type 0
Uses store workspace start coworkers n = Counted (IsCounted workspace) store.coworker_rows n
Uses store workspace start agent_teams n = Counted (IsOf workspace) store.team_rows n
Uses store workspace start tasks_per_month n =
    (tasks : ℕ) × (runs : ℕ) × Counted (IsCountedSince workspace start) store.task_rows tasks
    × Counted (IsSince workspace start) store.run_rows runs
    × (n ≡ tasks + runs)
Uses store workspace start seats n = Counted (IsOf workspace) store.member_rows n

-- The plan allows so many of a kind.
abbrev pub Allows : LimitKind → Plan → ℕ → Type 0
Allows coworkers plan limit = plan.max_coworkers ≡ some limit
Allows agent_teams plan limit = plan.max_agent_teams ≡ some limit
Allows tasks_per_month plan limit = plan.max_tasks_per_month ≡ some limit
Allows seats plan limit = plan.max_seats ≡ some limit

-- The workspace's plan, and the rows after it was asked for: the plan of the workspace's subscription,
-- or the default plan and a new subscription to it.
pub data Subscribed (store : Store) (workspace : ℕ) (plan : Plan) : Store → Type 0 where
  had :
      (row : Subscription)
      → First (λ (s : Subscription). s.workspace_id ≡ workspace) row store.subscriptions
      → row.plan ≡ plan
      → Subscribed store workspace plan store
  joins :
      All (λ (s : Subscription). s.workspace_id ≡ workspace → ⊥) store.subscriptions
      → IsDefault store.plans (some plan)
      → Subscribed store workspace plan (record store {
        subscriptions = record { workspace_id = workspace; plan = plan } ∷ store.subscriptions;
      })

-- How a check of a limit ends.
pub data Enforced (store : Store) (workspace start : ℕ) (kind : LimitKind)
    : Billed (Option PlanLimitExceeded) → Type 0 where
  passes :
      (plan : Plan) (next : Store) (n : ℕ)
      → Subscribed store workspace plan next
      → Uses store workspace start kind n
      → ((limit : ℕ) → Allows kind plan limit → n < limit)
      → Enforced store workspace start kind (billed next none)
  refuses :
      (plan : Plan) (next : Store) (n limit : ℕ)
      → Subscribed store workspace plan next
      → Uses store workspace start kind n
      → Allows kind plan limit
      → limit ≤ n
      → Enforced store workspace start kind
          (billed next (some (record { kind = kind; limit = limit; plan_name = plan.name })))
  no_catalog :
      All (λ (s : Subscription). s.workspace_id ≡ workspace → ⊥) store.subscriptions
      → All (λ (p : Plan). p.active ≡ false) store.plans
      → Enforced store workspace start kind integrity_error
