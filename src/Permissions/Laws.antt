-- ===== src/Permissions/Laws.antt =====
-- When a tool call runs by itself, and what an access check lets through.
use mathlib.Core.Path.{subst, ap, sym}
use deep_foundry.Base.{
  ℕ, List, Bool, true, false, refl, String, eq_iff, Option, none, some, [], ◌≡◌, ◌↔◌, ◌⊎◌, arith,
  inl, inr, Bool-cases,
}
use deep_foundry.Base.Sorting.{First, find-First, First-find}
use deep_foundry.Base.Dict.{Dict, lookup, get_or_default}
use deep_foundry.Permissions.{
  auto, resolve_tool_permission, Role, owner, admin, member, guest, security_admin, billing_admin,
  developer_admin, auditor, Membership, Coworker, allowed, membership_of, is_owner_or_admin,
  member_access, coworker_by_id, found_access, get_coworker_for_member,
}

-- The value of a profile entry when a missing one reads as "approval".
entry-eq-auto_iff :
    (entry : Option String) → (get_or_default "approval" entry ≡ "auto") ↔ (entry ≡ some "auto")
entry-eq-auto_iff none = ground (arith, eq_iff "approval" "auto")
entry-eq-auto_iff (some v) = ground arith

-- A tool call is decided `auto` exactly when its risk is safe or sensitive, the coworker's profile
-- says "auto" for that risk, and the organization's floor says "auto" for it or does not mention it.
pub resolve_tool_permission-eq-auto_iff :
    (risk : String) (profile : Dict String) (floor : Option (Dict String))
    → (resolve_tool_permission risk profile floor ≡ auto) ↔ (
        ((risk ≡ "safe") ⊎ (risk ≡ "sensitive"))
        × (lookup risk profile ≡ some "auto")
        × (get_or_default "auto" (lookup risk (get_or_default [] floor)) ≡ "auto"))
unfolding resolve_tool_permission
resolve_tool_permission-eq-auto_iff risk profile floor = ground (
  arith,
  entry-eq-auto_iff (lookup risk profile),
  eq_iff risk "dangerous",
  eq_iff risk "safe",
  eq_iff risk "sensitive",
  eq_iff "safe" "dangerous",
  eq_iff "sensitive" "dangerous",
  eq_iff (get_or_default "approval" (lookup risk profile)) "auto",
  eq_iff (get_or_default "auto" (lookup risk (get_or_default [] floor))) "auto",
)

-- The owners and admins.
abbrev pub IsManager : Role → Type 0
IsManager role = (role ≡ owner) ⊎ (role ≡ admin)

pub is_owner_or_admin-IsManager : (role : Role) → (is_owner_or_admin role ≡ true) ↔ IsManager role
is_owner_or_admin-IsManager owner = ((λ h. inl refl), λ h. refl)
is_owner_or_admin-IsManager admin = ((λ h. inr refl), λ h. refl)
is_owner_or_admin-IsManager member = ground arith
is_owner_or_admin-IsManager guest = ground arith
is_owner_or_admin-IsManager security_admin = ground arith
is_owner_or_admin-IsManager billing_admin = ground arith
is_owner_or_admin-IsManager developer_admin = ground arith
is_owner_or_admin-IsManager auditor = ground arith

-- A row of the user in the workspace.
abbrev pub IsRowOf : ℕ → ℕ → Membership → Type 0
IsRowOf workspace user row = (row.workspace_id ≡ workspace) × (row.user_id ≡ user)

pub membership_of-First :
    (rows : List Membership) (workspace user : ℕ) (row : Membership)
    → (membership_of rows workspace user ≡ some row) ↔ First (IsRowOf workspace user) row rows
unfolding membership_of
membership_of-First rows workspace user row = (
  find-First _ (IsRowOf workspace user) (λ r. ground arith) rows row,
  First-find _ (IsRowOf workspace user) (λ r. ground arith) rows row,
)

-- The user is an owner or admin of the workspace.
abbrev pub MayManage : List Membership → ℕ → ℕ → Type 0
MayManage rows workspace user =
    (row : Membership) × First (IsRowOf workspace user) row rows × IsManager row.role

-- Who may use a coworker: a member of its workspace, and to change it one who is an owner or admin.
abbrev pub MayUse : List Membership → ℕ → Bool → Coworker → Type 0
MayUse rows user require_write coworker =
    (row : Membership) × First (IsRowOf coworker.workspace_id user) row rows
    × (require_write ≡ true → IsManager row.role)

member_access-allowed :
    (require_write : Bool) (found coworker : Coworker) (row : Membership)
    → (member_access require_write found (some row) ≡ allowed coworker)
      ↔ ((found ≡ coworker) × (require_write ≡ true → IsManager row.role))
member_access-allowed false found coworker row = ((λ h. (cc h, λ w. cc)), λ h. ap allowed h.0)
member_access-allowed true found coworker row = elim (Bool-cases (is_owner_or_admin row.role)) [
  | inl e ↦
      rw e ((λ h. (cc h, λ w. (is_owner_or_admin-IsManager row.role).0 e)), λ h. ap allowed h.0)
  | inr e ↦
      rw e (
        (λ h. cc),
        λ h. let may = (is_owner_or_admin-IsManager row.role).1 (h.1 refl) in cc (e, may),
      )
]

coworker_access :
    (rows : List Membership) (user : ℕ) (require_write : Bool) (found coworker : Coworker)
    (row : Option Membership)
    → membership_of rows found.workspace_id user ≡ row
    → (member_access require_write found row ≡ allowed coworker)
      ↔ ((found ≡ coworker) × MayUse rows user require_write found)
coworker_access rows user require_write found coworker none e = (
  (λ h. cc),
  λ h.
      let there = (membership_of-First rows found.workspace_id user h.1.0).1 h.1.1 in cc (e, there),
)
coworker_access rows user require_write found coworker (some row) e =
    let access = member_access-allowed require_write found coworker row in
    (
      (λ h.
          let (same, may) = access.0 h in
          (same, (row, (membership_of-First rows found.workspace_id user row).0 e, may))),
      λ (same, (other, there, may)).
          let that = (membership_of-First rows found.workspace_id user other).1 there in
          let one : other ≡ row = cc (e, that) in
          access.1 (same, λ w. subst (λ r. IsManager r.role) one (may w)),
    )

coworker_by_id-First :
    (coworkers : List Coworker) (id : ℕ) (coworker : Coworker)
    → (coworker_by_id coworkers id ≡ some coworker)
      ↔ First (λ (c : Coworker). c.id ≡ id) coworker coworkers
coworker_by_id-First coworkers id coworker = (
  find-First _ (λ (c : Coworker). c.id ≡ id) (λ c. ground arith) coworkers coworker,
  First-find _ (λ (c : Coworker). c.id ≡ id) (λ c. ground arith) coworkers coworker,
)

-- A coworker is handed out exactly when it is the row with that id and the user has a membership of
-- its workspace, and, if the use changes it, that membership is of an owner or an admin.
pub get_coworker_for_member-eq-allowed_iff :
    (rows : List Membership) (coworkers : List Coworker) (user id : ℕ) (require_write : Bool)
    (coworker : Coworker)
    → (get_coworker_for_member rows coworkers user id require_write ≡ allowed coworker) ↔ (
        First (λ (c : Coworker). c.id ≡ id) coworker coworkers
        × MayUse rows user require_write coworker)
unfolding get_coworker_for_member
get_coworker_for_member-eq-allowed_iff rows coworkers user id require_write coworker =
    by_row (coworker_by_id coworkers id) refl
  where
    by_row :
        (found : Option Coworker)
        → coworker_by_id coworkers id ≡ found
        → (found_access rows user require_write found ≡ allowed coworker) ↔ (
            First (λ (c : Coworker). c.id ≡ id) coworker coworkers
            × MayUse rows user require_write coworker)
    by_row none e = (
      (λ h. cc),
      λ h. let there = (coworker_by_id-First coworkers id coworker).1 h.0 in cc (e, there),
    )
    by_row (some found) e =
        let (to, from) =
          coworker_access rows user require_write found coworker
            (membership_of rows found.workspace_id user) refl in
        (
          (λ h.
              let (same, may) = to h in
              (
                subst (λ c. First (λ (d : Coworker). d.id ≡ id) c coworkers) same
                    ((coworker_by_id-First coworkers id found).0 e),
                subst (MayUse rows user require_write) same may,
              )),
          λ (there, may).
              let that = (coworker_by_id-First coworkers id coworker).1 there in
              let same : found ≡ coworker = cc (e, that) in
              from (same, subst (MayUse rows user require_write) (sym same) may),
        )
