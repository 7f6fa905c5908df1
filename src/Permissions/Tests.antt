-- ===== src/Permissions/Tests.antt =====
-- Runs of the access checks and of the permission decision, and the theorems at concrete inputs.
use deep_foundry.Base.{some, List, [], ◌∷◌, ◌≡◌, ◌↔◌, ◌⊎◌, refl, true, false}
use deep_foundry.Base.Dict.{Dict, lookup, get_or_default}
use deep_foundry.Base.{String}
use deep_foundry.Permissions.{
  auto, resolve_tool_permission, Membership, Role, Access, AccessError, has_object_permission,
  require_capability, membership_of, role_capabilities,
}
use deep_foundry.Permissions.{Coworker, get_coworker_for_member}
use deep_foundry.Base.Sorting.{First}
use deep_foundry.Permissions.Laws.{
  resolve_tool_permission-eq-auto_iff, MayUse, get_coworker_for_member-eq-allowed_iff,
}

abbrev safe : String
safe = "safe"

abbrev profile : Dict String
profile = ("safe", "auto") ∷ ("sensitive", "approval") ∷ []

abbrev floor : Dict String
floor = ("sensitive", "approval") ∷ []

resolve_tool_permission-eq-auto_iff_example :
    (resolve_tool_permission "safe" profile (some floor) ≡ auto) ↔ (
      ((safe ≡ "safe") ⊎ (safe ≡ "sensitive"))
      × (lookup "safe" profile ≡ some "auto")
      × (get_or_default "auto" (lookup "safe" (get_or_default [] (some floor))) ≡ "auto"))
resolve_tool_permission-eq-auto_iff_example =
    resolve_tool_permission-eq-auto_iff "safe" profile (some floor)

abbrev rows : List Membership
rows =
    record { workspace_id = 1; user_id = 7; role = Role.member }
    ∷ record { workspace_id = 1; user_id = 8; role = Role.billing_admin }
    ∷ []

members_read : has_object_permission rows 1 7 "GET" ≡ true
unfolding has_object_permission membership_of
members_read = refl

members_do_not_write : has_object_permission rows 1 7 "DELETE" ≡ false
unfolding has_object_permission membership_of
members_do_not_write = refl

no_capability :
    require_capability rows 7 1 "sdk.manage" ≡ Access.refused AccessError.permission_denied
unfolding require_capability membership_of role_capabilities
no_capability = refl

abbrev helper : Coworker
helper = record { id = 3; workspace_id = 1 }

abbrev coworkers : List Coworker
coworkers = helper ∷ []

get_coworker_for_member-eq-allowed_iff_example :
    (get_coworker_for_member rows coworkers 7 3 true ≡ Access.allowed helper)
    ↔ (First (λ (c : Coworker). c.id ≡ 3) helper coworkers × MayUse rows 7 true helper)
get_coworker_for_member-eq-allowed_iff_example =
    get_coworker_for_member-eq-allowed_iff rows coworkers 7 3 true helper
