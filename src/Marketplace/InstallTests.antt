-- ===== src/Marketplace/InstallTests.antt =====
-- A version that depends on another, and the theorems on its installation.
use deep_foundry.Base.{ℕ, none, some, List, [], ◌∷◌, All, ◌≡◌, ◌≢◌, refl, false, true}
use deep_foundry.Permissions.{Role, membership_of}
use deep_foundry.Teams.{require_workspace_admin}
use deep_foundry.Marketplace.Installs.{
  ListingType, VersionStatus, ListingVersion, Shop, Installed, InstallError, has_visited,
  dependency_version, install_listing, install_each, install_within, install_dependencies,
}
use mathlib.Core.List.{Memᴰ}
use deep_foundry.Proposals.{ToolEntry, Attachment, TargetType, attach}
use deep_foundry.Marketplace.Skills.{declared_tool_rows, grant_tools, attach_installed_skill}
use deep_foundry.Marketplace.Granted.{RowsAfter, rows_for, attach_installed_skill-RowsAfter}
use deep_foundry.Marketplace.Walks.{OnSuccess, IsInstalled, IsOnce}
use deep_foundry.Marketplace.Dependencies.{install_dependencies-IsWalk}
use deep_foundry.Marketplace.Depth.{install_dependencies-ne-out_of_fuel}

abbrev search : ListingVersion
search = record {
  id = 11;
  listing_id = 1;
  listing_type = ListingType.skill;
  version_string = "1.0";
  status = VersionStatus.approved;
  published_at = some 5;
  dependencies = [];
}

abbrev research : ListingVersion
research = record {
  id = 12;
  listing_id = 2;
  listing_type = ListingType.skill;
  version_string = "1.0";
  status = VersionStatus.approved;
  published_at = some 6;
  dependencies = record { listing_id = 1; version = none } ∷ [];
}

abbrev shop : Shop
shop = record {
  members = record { workspace_id = 1; user_id = 7; role = Role.owner } ∷ [];
  versions = search ∷ research ∷ [];
  installs = [];
  provisioned = [];
}

install_dependencies-IsWalk_example :
    OnSuccess
      (λ walk.
        All (IsInstalled 1 7 shop.versions walk.shop) walk.installed
        × IsOnce walk.installed
        × (has_visited 12 walk.installed ≡ false))
      (install_dependencies 1 7 research shop)
install_dependencies-IsWalk_example = install_dependencies-IsWalk 1 7 research shop

install_dependencies-ne-out_of_fuel_example :
    install_dependencies 1 7 research shop ≢ Installed.out_of_fuel
install_dependencies-ne-out_of_fuel_example = install_dependencies-ne-out_of_fuel 1 7 research shop

-- The version that it depends on is installed.
installs_it :
    install_dependencies 1 7 research shop
    ≡ Installed.ok (record {
      visited = 11 ∷ 12 ∷ [];
      shop = record shop { installs = (1, 11) ∷ [] };
      installed = 11 ∷ [];
    })
unfolding install_dependencies install_within install_each dependency_version install_listing
    require_workspace_admin membership_of
installs_it = refl

-- A version that depends on another twice is refused as a cycle.
refuses_twice :
    install_dependencies 1 7
      (record research {
        dependencies =
            record { listing_id = 1; version = none }
            ∷ record { listing_id = 1; version = none }
            ∷ [];
      })
      shop
    ≡ Installed.error InstallError.cycle
unfolding install_dependencies install_within install_each dependency_version install_listing
    require_workspace_admin membership_of
refuses_twice = refl

abbrev tools : List ToolEntry
tools = record { id = 5; name = "send_mail" } ∷ []

-- The coworker's tool was taken from it.
abbrev revoked : Attachment
revoked = record { coworker_id = 2; target_type = TargetType.tool; target_id = 5; enabled = false }

abbrev attached : List Attachment
attached =
    revoked
    ∷ record { coworker_id = 2; target_type = TargetType.skill; target_id = 9; enabled = true }
    ∷ []

attaches_it :
    attach_installed_skill tools ((1, 11) ∷ []) 1 11 2 9 ("send_mail" ∷ []) (revoked ∷ [])
    ≡ some attached
unfolding attach_installed_skill declared_tool_rows attach grant_tools
attaches_it = refl

attach_installed_skill-RowsAfter_example :
    (granted : List ToolEntry) × (declared_tool_rows tools ("send_mail" ∷ []) ≡ some granted)
    × ((c t : ℕ) → RowsAfter 2 granted c t (rows_for c t (revoked ∷ [])) (rows_for c t attached))
    × ((tool : ToolEntry) → Memᴰ tool granted → rows_for 2 tool.id attached ≢ [])
attach_installed_skill-RowsAfter_example =
    attach_installed_skill-RowsAfter tools ((1, 11) ∷ []) 1 11 2 9 ("send_mail" ∷ []) (revoked ∷ [])
      attached attaches_it
