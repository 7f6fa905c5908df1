-- ===== src/Marketplace/Skills.antt =====
-- Publishing a version and attaching a skill: `_declared_tool_rows`, `publish_listing_version` and
-- `attach_installed_skill` of services/app/core/v2_services.py.
use deep_foundry.Base.{
  ℕ, String, str_eq, Bool, true, false, ◌&&◌, not, Option, none, some, List, [], ◌∷◌, ◌++◌, any,
  all, keep, length, ◌==◌, if◌then◌else◌,
}
use deep_foundry.Proposals.{ToolEntry, Attachment, TargetType, attach, same_type}
use deep_foundry.Marketplace.Installs.{ListingType, VersionStatus, is_install}

-- `set(names)`
abbrev pub name_set : List String → List String
name_set [] = []
name_set (s ∷ ss) = let rest = name_set ss in if any (str_eq s) ss then rest else s ∷ rest

-- `_declared_tool_rows`: `none` where a declared tool is not in the catalog.
unfoldable pub declared_tool_rows : List ToolEntry → List String → Option (List ToolEntry)
declared_tool_rows tools names =
    let rows = keep (λ (t : ToolEntry). any (str_eq t.name) names) tools in
    if length rows == length (name_set names) then some rows else none

-- Whether a version is approved as it is published.
abbrev pub is_automatic : ListingType → Bool
is_automatic ListingType.skill = true
is_automatic ListingType.capability_pack = true
is_automatic ListingType.workflow_template = true
is_automatic ListingType.tool = false

abbrev pub published_status : Bool → VersionStatus
published_status true = VersionStatus.approved
published_status false = VersionStatus.pending

-- The status that `publish_listing_version` gives, by the risk of the declared tools and the manifest's
-- bundled code; `none` where the tools are not all in the catalog.
abbrev pub status_by_rows :
    (ToolEntry → Bool) → ListingType → Bool → Option (List ToolEntry) → Option VersionStatus
status_by_rows is_dangerous type bundled none = none
status_by_rows is_dangerous type bundled (some rows) =
    some (
      published_status (is_automatic type && (all (λ t. not (is_dangerous t)) rows && not bundled)))

unfoldable pub publish_status :
    (ToolEntry → Bool) → List ToolEntry → ListingType → List String → Bool → Option VersionStatus
publish_status is_dangerous tools type declared bundled =
    status_by_rows is_dangerous type bundled (declared_tool_rows tools declared)

-- `CoworkerToolAttachment.objects.get_or_create(coworker=coworker, tool=tool)`
abbrev pub is_tool_of : ℕ → ℕ → Attachment → Bool
is_tool_of coworker tool a =
    (a.coworker_id == coworker)
    && (same_type a.target_type TargetType.tool && (a.target_id == tool))

abbrev pub grant_tool : ℕ → ToolEntry → List Attachment → List Attachment
grant_tool coworker tool attachments =
    if any (is_tool_of coworker tool.id) attachments
    then attachments
    else attachments
      ++ (record {
        coworker_id = coworker;
        target_type = TargetType.tool;
        target_id = tool.id;
        enabled = true;
      }
          ∷ [])

unfoldable pub grant_tools : ℕ → List ToolEntry → List Attachment → List Attachment
grant_tools coworker [] attachments = attachments
grant_tools coworker (tool ∷ tools) attachments =
    grant_tools coworker tools (grant_tool coworker tool attachments)

abbrev pub attach_with :
    ℕ → ℕ → List Attachment → Option (List ToolEntry) → Option (List Attachment)
attach_with coworker skill attachments none = none
attach_with coworker skill attachments (some tools) =
    some (grant_tools coworker tools (attach coworker TargetType.skill skill attachments))

-- `attach_installed_skill`: `none` where it raises, and changes nothing.
unfoldable pub attach_installed_skill :
    List ToolEntry
    → List (ℕ × ℕ)
    → ℕ
    → ℕ
    → ℕ
    → ℕ
    → List String
    → List Attachment
    → Option (List Attachment)
attach_installed_skill tools installs workspace version coworker skill declared attachments =
    if any (is_install workspace version) installs
    then attach_with coworker skill attachments (declared_tool_rows tools declared)
    else none
