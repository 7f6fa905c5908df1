-- ===== src/Marketplace/Installs.antt =====
-- Installing from the marketplace: `install_listing` of
-- services/app/core/v2_services.py and `install_dependencies` of services/app/core/v3_services.py.
use deep_foundry.Base.{
  ℕ, zero, suc, String, str_eq, Bool, true, false, ◌&&◌, Option, none, some, List, [], ◌∷◌, ◌++◌,
  any, keep, length, leb, ◌==◌, if◌then◌else◌,
}
use deep_foundry.Base.Sorting.{sort_by}
use deep_foundry.Permissions.{Membership}
use deep_foundry.Teams.{require_workspace_admin}

-- `MarketplaceListing.ListingType` and `MarketplaceListingVersion.ReviewStatus`
pub data ListingType : Type 0 where
  skill capability_pack workflow_template tool : ListingType

pub data VersionStatus : Type 0 where
  pending approved rejected : VersionStatus

-- An entry of a manifest's dependencies, which names a listing and perhaps a version.
pub record Dependency : Type 0 where
  pub listing_id : ℕ
  pub version : Option String

-- `MarketplaceListingVersion`, with the dependencies of its manifest.
pub record ListingVersion : Type 0 where
  pub id : ℕ
  pub listing_id : ℕ
  pub listing_type : ListingType
  pub version_string : String
  pub status : VersionStatus
  pub published_at : Option ℕ
  pub dependencies : List Dependency

-- What an installation changes: the rows of `MarketplaceInstall`, by workspace and version, and the
-- versions whose coworkers, team and workflows were made, newest first.
pub record Shop : Type 0 where
  pub members : List Membership
  pub versions : List ListingVersion
  pub installs : List (ℕ × ℕ)
  pub provisioned : List ℕ

pub data InstallError : Type 0 where
  not_admin not_approved cycle unavailable : InstallError

abbrev pub is_approved : VersionStatus → Bool
is_approved approved = true
is_approved _ = false

abbrev pub is_pack : ListingType → Bool
is_pack capability_pack = true
is_pack _ = false

abbrev pub is_install : ℕ → ℕ → ℕ × ℕ → Bool
is_install workspace version row = (row.0 == workspace) && (row.1 == version)

-- `MarketplaceInstall.objects.get_or_create`
abbrev pub add_install : ℕ → ℕ → List (ℕ × ℕ) → List (ℕ × ℕ)
add_install workspace version installs =
    if any (is_install workspace version) installs
    then installs
    else (workspace, version) ∷ installs

-- The coworkers, the team and the workflows of a pack are made on each installation.
abbrev pub provision : ListingVersion → List ℕ → List ℕ
provision version provisioned =
    if is_pack version.listing_type then version.id ∷ provisioned else provisioned

pub data Installed {ℓ} (A : Type ℓ) : Type ℓ where
  ok : A → Installed A
  error : InstallError → Installed A
  out_of_fuel : Installed A

-- `install_listing`
unfoldable pub install_listing : ℕ → ℕ → ListingVersion → Shop → Installed Shop
install_listing workspace user version shop =
    if require_workspace_admin shop.members workspace user
    then (if is_approved version.status
        then ok (record shop {
          installs = add_install workspace version.id shop.installs;
          provisioned = provision version shop.provisioned;
        })
        else error not_approved)
    else error not_admin

abbrev pub wants : Option String → String → Bool
wants none string = true
wants (some s) string = if str_eq s "" then true else str_eq s string

-- The rows that `order_by("-published_at")` puts first: those without a time, then the newest.
abbrev pub newest_first : Option ℕ → Option ℕ → Bool
newest_first none b = true
newest_first (some a) none = false
newest_first (some a) (some b) = leb b a

abbrev pub version_le : ListingVersion → ListingVersion → Bool
version_le v w = newest_first v.published_at w.published_at

abbrev pub is_candidate : Dependency → ListingVersion → Bool
is_candidate dependency version =
    (version.listing_id == dependency.listing_id)
    && (is_approved version.status && wants dependency.version version.version_string)

abbrev pub first_version : List ListingVersion → Option ListingVersion
first_version [] = none
first_version (v ∷ _) = some v

unfoldable pub dependency_version : List ListingVersion → Dependency → Option ListingVersion
dependency_version versions dependency =
    first_version (sort_by version_le (keep (is_candidate dependency) versions))

-- What the recursion carries: the ids that were visited, the rows, and the ids installed so far, in
-- order.
pub record Walk : Type 0 where
  pub visited : List ℕ
  pub shop : Shop
  pub installed : List ℕ

abbrev pub has_visited : ℕ → List ℕ → Bool
has_visited id visited = any (λ v. id == v) visited

abbrev pub note_install : Walk → ListingVersion → Installed Shop → Installed Walk
note_install walk version (ok shop) =
    ok (record walk { shop = shop; installed = walk.installed ++ (version.id ∷ []) })
note_install walk version (error e) = error e
note_install walk version out_of_fuel = out_of_fuel

abbrev pub install_after : ℕ → ℕ → ListingVersion → Installed Walk → Installed Walk
install_after workspace user version (ok walk) =
    note_install walk version (install_listing workspace user version walk.shop)
install_after workspace user version (error e) = error e
install_after workspace user version out_of_fuel = out_of_fuel

-- One dependency: the recursion on its version, and then its installation.
abbrev pub install_version :
    (ListingVersion → Walk → Installed Walk) → ℕ → ℕ → Walk → Option ListingVersion → Installed Walk
install_version recurse workspace user walk none = error unavailable
install_version recurse workspace user walk (some version) =
    install_after workspace user version (recurse version walk)

abbrev pub and_rest : (Walk → Installed Walk) → Installed Walk → Installed Walk
and_rest next (ok walk) = next walk
and_rest next (error e) = error e
and_rest next out_of_fuel = out_of_fuel

-- The loop over the dependencies.
unfoldable pub install_each :
    (ListingVersion → Walk → Installed Walk) → ℕ → ℕ → List Dependency → Walk → Installed Walk
install_each recurse workspace user [] walk = ok walk
install_each recurse workspace user (dependency ∷ dependencies) walk =
    and_rest (λ w. install_each recurse workspace user dependencies w)
      (install_version recurse workspace user walk
        (dependency_version walk.shop.versions dependency))

abbrev pub visit_version :
    (ListingVersion → Walk → Installed Walk) → ℕ → ℕ → ListingVersion → Walk → Installed Walk
visit_version recurse workspace user version walk =
    let loop =
      install_each recurse workspace user version.dependencies
        (record walk { visited = version.id ∷ walk.visited }) in
    if has_visited version.id walk.visited then error cycle else loop

-- The recursion, on fuel.
unfoldable pub install_within : ℕ → ℕ → ℕ → ListingVersion → Walk → Installed Walk
install_within zero workspace user version walk = out_of_fuel
install_within (suc fuel) workspace user version walk =
    visit_version (λ v w. install_within fuel workspace user v w) workspace user version walk

-- `install_dependencies`, with a level for each version of the marketplace, one for a version asked for
-- that is none of them, and one in which a version that was visited before is found to be a cycle.
unfoldable pub install_dependencies : ℕ → ℕ → ListingVersion → Shop → Installed Walk
install_dependencies workspace user version shop =
    install_within (suc (suc (length shop.versions))) workspace user version
      (record { visited = []; shop = shop; installed = [] })
