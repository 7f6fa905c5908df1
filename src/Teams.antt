-- ===== src/Teams.antt =====
-- Coworker teams: `require_workspace_admin` and `create_agent_team` of
-- services/app/core/v2_services.py.
pub mod Created
pub mod Formed
pub mod Engine
pub mod Progress
mod Tests
use deep_foundry.Base.{
  ℕ, ◌+◌, String, str_eq, Bool, true, false, ◌&&◌, ◌||◌, not, Option, none, some, List, [], ◌∷◌,
  map, ◌==◌, any, find, keep, length, count_if, if◌then◌else◌,
}
use deep_foundry.Base.Dict.{get_or_default}
use deep_foundry.Permissions.{Membership, membership_of, is_owner_or_admin}
use deep_foundry.Billing.{Store, LimitKind, PlanLimitExceeded, Billed, billed, enforce}

-- A row of `Coworker`, as far as teams are concerned.
pub record CoworkerRow : Type 0 where
  pub id : ℕ
  pub workspace_id : ℕ
  pub active : Bool

-- `AgentTeam.CollaborationPattern`
pub data Pattern : Type 0 where
  sequential manager_delegate parallel_merge : Pattern

-- `AgentTeamMember`; the id is the position, which is unique in a version.
pub record Member : Type 0 where
  pub id : ℕ
  pub coworker : ℕ
  pub role : String

pub record Team : Type 0 where
  pub workspace_id : ℕ
  pub pattern : Pattern
  pub version_number : ℕ
  pub members : List Member

-- One entry of `payload["members"]`; the ids are those of coworkers.
pub record MemberPayload : Type 0 where
  pub coworker_id : Option ℕ
  pub role : Option String

-- How the creation of a team fails; the last two are exceptions that the code does not foresee.
pub data TeamError : Type 0 where
  not_admin no_members invalid_coworker bad_pattern one_manager unsupported_role : TeamError
  limit_reached : PlanLimitExceeded → TeamError
  key_error integrity_error : TeamError

pub data Result {ℓ} (A : Type ℓ) : Type ℓ where
  ok : A → Result A
  error : TeamError → Result A

abbrev pub is_admin : Option Membership → Bool
is_admin none = false
is_admin (some row) = is_owner_or_admin row.role

-- `require_workspace_admin`
unfoldable pub require_workspace_admin : List Membership → ℕ → ℕ → Bool
require_workspace_admin rows workspace user = is_admin (membership_of rows workspace user)

-- `AgentTeamMember.Role.values`
abbrev pub roles : List String
roles =
    "manager" ∷ "researcher" ∷ "writer" ∷ "reviewer" ∷ "developer" ∷ "tester" ∷ "security_reviewer"
    ∷ "architect" ∷ "planner" ∷ "product_manager" ∷ "custom" ∷ []

unfoldable pub is_role : String → Bool
is_role role = any (str_eq role) roles

abbrev pub pattern_of : String → Option Pattern
pattern_of s =
    if str_eq s "sequential"
    then some sequential
    else if str_eq s "manager_delegate"
    then some manager_delegate
    else if str_eq s "parallel_merge"
    then some parallel_merge
    else none

abbrev pub same_id : Option ℕ → Option ℕ → Bool
same_id none none = true
same_id (some a) (some b) = a == b
same_id _ _ = false

-- The ids without repetition: `set(map(str, coworker_ids))`.
abbrev pub id_set : List (Option ℕ) → List (Option ℕ)
id_set [] = []
id_set (i ∷ is) = let rest = id_set is in if any (same_id i) is then rest else i ∷ rest

-- `workspace.coworkers.filter(id__in=coworker_ids, status="active")`
abbrev pub active_rows : List CoworkerRow → ℕ → List (Option ℕ) → List CoworkerRow
active_rows rows workspace ids =
    keep
      (λ (c : CoworkerRow).
        (c.workspace_id == workspace) && (c.active && any (same_id (some c.id)) ids))
      rows

abbrev pub is_manager : MemberPayload → Bool
is_manager member = elim member.role [ none ↦ false | some r ↦ str_eq r "manager" ]

abbrev pub coworker_of : List CoworkerRow → Option ℕ → Option CoworkerRow
coworker_of rows none = none
coworker_of rows (some id) = find (λ (c : CoworkerRow). c.id == id) rows

abbrev pub add_member : Member → Result (List Member) → Result (List Member)
add_member member (error e) = error e
add_member member (ok members) = ok (member ∷ members)

-- One row of a member: its role is checked, its coworker looked up, and the unique constraint on the
-- coworkers of a version holds.
abbrev pub insert_member :
    ℕ → String → List ℕ → Option CoworkerRow → Result (List Member) → Result (List Member)
insert_member position role seen coworker rest =
    if not (is_role role) then error unsupported_role else (elim coworker [
      | none ↦ error key_error
      | some c ↦
          if any (λ i. i == c.id) seen
          then error TeamError.integrity_error
          else add_member (record { id = position; coworker = c.id; role = role }) rest
    ])

abbrev pub seen_with : Option CoworkerRow → List ℕ → List ℕ
seen_with none seen = seen
seen_with (some c) seen = c.id ∷ seen

-- The loop over the members; an error rolls the whole transaction back.
unfoldable pub create_members :
    List CoworkerRow → ℕ → List ℕ → List MemberPayload → Result (List Member)
create_members rows position seen [] = ok []
create_members rows position seen (m ∷ ms) =
    insert_member position (get_or_default "custom" m.role) seen (coworker_of rows m.coworker_id)
      (create_members rows (position + 1) (seen_with (coworker_of rows m.coworker_id) seen) ms)

abbrev pub team_of : ℕ → Pattern → Result (List Member) → Result Team
team_of workspace pattern (error e) = error e
team_of workspace pattern (ok members) =
    ok (record {
      workspace_id = workspace;
      pattern = pattern;
      version_number = 1;
      members = members;
    })

abbrev pub needs_manager : Pattern → List MemberPayload → Bool
needs_manager manager_delegate members = not (count_if is_manager members == 1)
needs_manager _ members = false

abbrev pub with_pattern : List CoworkerRow → ℕ → List MemberPayload → Option Pattern → Result Team
with_pattern rows workspace members none = error bad_pattern
with_pattern rows workspace members (some pattern) =
    if needs_manager pattern members
    then error one_manager
    else team_of workspace pattern (create_members rows 0 [] members)

abbrev pub with_room :
    List CoworkerRow
    → ℕ
    → List MemberPayload
    → Option String
    → Option PlanLimitExceeded
    → Result Team
with_room rows workspace members pattern (some limit) = error (limit_reached limit)
with_room rows workspace members pattern none =
    let ids = map (λ m. m.coworker_id) members in
    let found = active_rows rows workspace ids in
    if length members == 0
    then error no_members
    else if not (length found == length (id_set ids))
    then error invalid_coworker
    else with_pattern found workspace members
        (pattern_of (get_or_default "manager_delegate" pattern))

abbrev pub with_limit :
    Store
    → List CoworkerRow
    → ℕ
    → List MemberPayload
    → Option String
    → Billed (Option PlanLimitExceeded)
    → Store × Result Team
with_limit store rows workspace members pattern Billed.integrity_error =
    (store, error TeamError.integrity_error)
with_limit store rows workspace members pattern (billed next refusal) =
    (next, with_room rows workspace members pattern refusal)

-- The team, or the error; the limit's check may write the workspace's subscription.
unfoldable pub create_agent_team :
    List Membership
    → Store
    → List CoworkerRow
    → ℕ
    → ℕ
    → ℕ
    → List MemberPayload
    → Option String
    → Store × Result Team
create_agent_team memberships store rows workspace user month members pattern =
    if require_workspace_admin memberships workspace user
    then with_limit store rows workspace members pattern
        (enforce store workspace month LimitKind.agent_teams)
    else (store, error not_admin)
