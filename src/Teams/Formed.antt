-- ===== src/Teams/Formed.antt =====
-- What a team has that `create_agent_team` accepts.
use mathlib.Core.List.{Memᴰ}
use deep_foundry.Base.{ℕ, ◌≤◌, true, List, ◌≡◌, length, count_if, All}
use deep_foundry.Teams.{CoworkerRow, manager_delegate, Member, Team, is_role}
use deep_foundry.Teams.Created.{manages, AreDistinct}

-- A member whose role is one of the roles and whose coworker is active in the workspace.
abbrev pub IsActiveMember : List CoworkerRow → ℕ → Member → Type 0
IsActiveMember rows workspace m =
    (is_role m.role ≡ true)
    × ((c : CoworkerRow) × Memᴰ c rows
        × (c.id ≡ m.coworker)
        × (c.workspace_id ≡ workspace)
        × (c.active ≡ true))

-- A well-formed team: it has members, no coworker twice, all of them active in the workspace, and
-- exactly one manager if the manager delegates.
pub record IsTeam (rows : List CoworkerRow) (workspace : ℕ) (team : Team) : Type 0 where
  pub here : team.workspace_id ≡ workspace
  pub nonempty : 1 ≤ length team.members
  pub apart : AreDistinct team.members
  pub valid : All (IsActiveMember rows workspace) team.members
  pub led : team.pattern ≡ manager_delegate → count_if manages team.members ≡ 1

abbrev Active : List CoworkerRow → ℕ → CoworkerRow → Type 0
Active rows workspace c = Memᴰ c rows × (c.workspace_id ≡ workspace) × (c.active ≡ true)
