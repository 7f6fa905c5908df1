-- ===== src/Permissions.antt =====
-- services/app/core/permissions.py: who may read and change a workspace and its coworkers, and
-- whether a tool call runs by itself or waits for an approval. The role capabilities are those of
-- services/app/core/v3_services.py.
pub mod Laws
mod Tests
use deep_foundry.Base.{
  String, str_eq, Bool, true, false, ◌&&◌, ◌||◌, not, Option, none, some, List, [], ◌∷◌, any, find,
  ℕ, ◌==◌, if◌then◌else◌,
}
use deep_foundry.Base.Dict.{Dict, lookup, get_or_default}

-- `WorkspaceMember.Role`
pub data Role : Type 0 where
  owner admin member guest security_admin billing_admin developer_admin auditor : Role

-- A row of `WorkspaceMember`.
pub record Membership : Type 0 where
  pub workspace_id : ℕ
  pub user_id : ℕ
  pub role : Role

-- `WorkspaceMember.objects.filter(workspace=..., user=...).first()`
unfoldable pub membership_of : List Membership → ℕ → ℕ → Option Membership
membership_of rows workspace user =
    find (λ row. (row.workspace_id == workspace) && (row.user_id == user)) rows

abbrev pub is_owner_or_admin : Role → Bool
is_owner_or_admin owner = true
is_owner_or_admin admin = true
is_owner_or_admin _ = false

-- `request.method in ("GET", "HEAD", "OPTIONS")`
abbrev pub is_read_method : String → Bool
is_read_method method = any (str_eq method) ("GET" ∷ "HEAD" ∷ "OPTIONS" ∷ [])

-- `IsWorkspaceMember.has_object_permission`
unfoldable pub has_object_permission : List Membership → ℕ → ℕ → String → Bool
has_object_permission rows workspace user method = elim (membership_of rows workspace user) [
  | none ↦ false
  | some row ↦ if is_read_method method then true else is_owner_or_admin row.role
]

pub data AccessError : Type 0 where
  not_found permission_denied : AccessError

pub data Access {ℓ} (A : Type ℓ) : Type ℓ where
  allowed : A → Access A
  refused : AccessError → Access A

-- A workspace and a coworker, as far as access is concerned. A lookup by an id that is not in the
-- table, or is no UUID, finds none.
pub record Coworker : Type 0 where
  pub id : ℕ
  pub workspace_id : ℕ

unfoldable pub get_workspace_for_member : List Membership → List ℕ → ℕ → ℕ → Access ℕ
get_workspace_for_member rows workspaces user workspace =
    if any (λ w. w == workspace) workspaces
    then (elim (membership_of rows workspace user) [
      | none ↦ refused permission_denied
      | some _ ↦ allowed workspace
    ])
    else refused not_found

abbrev pub member_access : Bool → Coworker → Option Membership → Access Coworker
member_access require_write coworker none = refused permission_denied
member_access require_write coworker (some row) =
    if require_write && not (is_owner_or_admin row.role)
    then refused permission_denied
    else allowed coworker

abbrev pub coworker_by_id : List Coworker → ℕ → Option Coworker
coworker_by_id coworkers id = find (λ (c : Coworker). c.id == id) coworkers

abbrev pub found_access : List Membership → ℕ → Bool → Option Coworker → Access Coworker
found_access rows user require_write none = refused not_found
found_access rows user require_write (some c) =
    member_access require_write c (membership_of rows c.workspace_id user)

unfoldable pub get_coworker_for_member :
    List Membership → List Coworker → ℕ → ℕ → Bool → Access Coworker
get_coworker_for_member rows coworkers user coworker require_write =
    found_access rows user require_write (coworker_by_id coworkers coworker)

-- What becomes of a tool call: the return values of `resolve_tool_permission`.
pub data Decision : Type 0 where
  auto approval : Decision

-- `x != "auto"`
abbrev pub is_auto : String → Bool
is_auto s = str_eq s "auto"

-- The risk classes are the texts of `Tool.RiskClassification`. `None` for the floor reads as an
-- empty dict.
unfoldable pub resolve_tool_permission : String → Dict String → Option (Dict String) → Decision
resolve_tool_permission risk profile floor =
    if str_eq risk "dangerous"
    then approval
    else if not (str_eq risk "safe" || str_eq risk "sensitive")
    then approval
    else (let coworker_decision = get_or_default "approval" (lookup risk profile) in
        let org_decision = get_or_default "auto" (lookup risk (get_or_default [] floor)) in
        if not (is_auto coworker_decision) || not (is_auto org_decision) then approval else auto)

-- `ROLE_CAPABILITIES`
unfoldable pub role_capabilities : Role → List String
role_capabilities owner = "*" ∷ []
role_capabilities admin = "*" ∷ []
role_capabilities security_admin = "security.manage" ∷ "audit.read" ∷ "compliance.export" ∷ []
role_capabilities billing_admin = "billing.manage" ∷ "marketplace.payouts" ∷ []
role_capabilities developer_admin =
    "sdk.manage" ∷ "marketplace.publish" ∷ "integrations.manage" ∷ []
role_capabilities auditor = "audit.read" ∷ "compliance.export" ∷ []
role_capabilities member = []
role_capabilities guest = []

unfoldable pub require_capability : List Membership → ℕ → ℕ → String → Access Membership
require_capability rows user workspace capability = elim (membership_of rows workspace user) [
  | none ↦ refused permission_denied
  | some row ↦
      let granted = role_capabilities row.role in
      if not (any (str_eq "*") granted) && not (any (str_eq capability) granted)
      then refused permission_denied
      else allowed row
]
