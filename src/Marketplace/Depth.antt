-- ===== src/Marketplace/Depth.antt =====
-- That the recursion over the dependencies of a version ends (services/app/core/v3_services.py).
use deep_foundry.Base.{
  ℕ, zero, suc, ◌≤◌, ◌<◌, true, false, not, Option, none, some, List, [], ◌∷◌, count_if, length,
  count_if-le-length, ==_iff, ◌≡◌, ◌≢◌, refl, sym, ap, inl, inr, arith, Bool-cases,
}
use mathlib.Core.List.{Memᴰ}
use deep_foundry.Teams.{require_workspace_admin}
use deep_foundry.Marketplace.Installs.{
  Dependency, ListingVersion, Shop, is_approved, Installed, ok, error, out_of_fuel, install_listing,
  dependency_version, Walk, has_visited, note_install, install_after, install_version, and_rest,
  install_each, visit_version, install_within, install_dependencies,
}
use deep_foundry.Marketplace.Walks.{OnSuccess, IsWalk, IsRecursion, dependency_version-Memᴰ}
use deep_foundry.Marketplace.Dependencies.{
  Passes, entered-IsWalk, install_version-Goes, install_within-Expands,
}

-- The versions that are not visited yet.
abbrev pub unvisited : List ListingVersion → List ℕ → ℕ
unvisited versions visited =
    count_if (λ (v : ListingVersion). not (has_visited v.id visited)) versions

unvisited-le :
    (versions : List ListingVersion) (before after : List ℕ)
    → ((id : ℕ) → has_visited id before ≡ true → has_visited id after ≡ true)
    → unvisited versions after ≤ unvisited versions before
unvisited-le [] before after h = omega arith
unvisited-le (v ∷ versions) before after h = elim (Bool-cases (has_visited v.id before)) [
  | inl e ↦ rw (e, h v.id e) (omega (arith, unvisited-le versions before after h))
  | inr e ↦ rw e (ground (arith, unvisited-le versions before after h))
]

unvisited-lt :
    (versions : List ListingVersion) (version : ListingVersion) (visited : List ℕ)
    → Memᴰ version versions
    → has_visited version.id visited ≡ false
    → unvisited versions (version.id ∷ visited) < unvisited versions visited
unvisited-lt [] version visited m h = elim m [ ]
unvisited-lt (v ∷ versions) version visited (Memᴰ.head same) h = rw (← same) (
    ground (
      arith,
      h,
      ==_iff version.id version.id,
      unvisited-le versions visited (version.id ∷ visited) (λ id k. ground (arith, k)),
    ))
unvisited-lt (v ∷ versions) version visited (Memᴰ.tail m) h =
    elim (Bool-cases (has_visited v.id visited)) [
      | inl e ↦ ground (arith, e, unvisited-lt versions version visited m h)
      | inr e ↦ ground (arith, e, unvisited-lt versions version visited m h)
    ]

module _ (workspace user : ℕ) (versions : List ListingVersion) where
  install_listing-ne-out_of_fuel :
      (version : ListingVersion) (walk : Walk)
      → note_install walk version (install_listing workspace user version walk.shop) ≢ out_of_fuel
  unfolding install_listing
  install_listing-ne-out_of_fuel version walk =
      elim (Bool-cases (require_workspace_admin walk.shop.members workspace user)) [
        | inr e ↦ rw e (λ q. cc q)
        | inl e ↦ elim (Bool-cases (is_approved version.status)) [
          | inr f ↦ rw (e, f) (λ q. cc q)
          | inl f ↦ rw (e, f) (λ q. cc q)
        ]
      ]

  install_after-ne-out_of_fuel :
      (version : ListingVersion) (result : Installed Walk)
      → result ≢ out_of_fuel
      → install_after workspace user version result ≢ out_of_fuel
  install_after-ne-out_of_fuel version (ok walk) h = install_listing-ne-out_of_fuel version walk
  install_after-ne-out_of_fuel version (error e) h = λ q. cc q
  install_after-ne-out_of_fuel version out_of_fuel h = λ q. h refl

  -- The recursion ends on a version of the marketplace if fewer than so many are not visited yet.
  abbrev EndsWithin : ℕ → (ListingVersion → Walk → Installed Walk) → Type 0
  EndsWithin n recurse =
      (version : ListingVersion) (walk : Walk)
      → IsWalk workspace user versions walk
      → Memᴰ version versions
      → unvisited versions walk.visited < n
      → recurse version walk ≢ out_of_fuel

  module _ (n : ℕ) (recurse : ListingVersion → Walk → Installed Walk)
      (sound : IsRecursion workspace user versions recurse) (ends : EndsWithin n recurse) where
    install_version-ne-out_of_fuel :
        (walk : Walk) (dependency : Dependency) (found : Option ListingVersion)
        → dependency_version versions dependency ≡ found
        → IsWalk workspace user versions walk
        → unvisited versions walk.visited < n
        → install_version recurse workspace user walk found ≢ out_of_fuel
    install_version-ne-out_of_fuel walk dependency none e h few = λ q. cc q
    install_version-ne-out_of_fuel walk dependency (some version) e h few =
        install_after-ne-out_of_fuel version (recurse version walk) (
          ends version walk h (dependency_version-Memᴰ workspace user versions dependency version e)
            few)

    install_each-ne-out_of_fuel :
        (dependencies : List Dependency) (walk : Walk)
        → IsWalk workspace user versions walk
        → unvisited versions walk.visited < n
        → install_each recurse workspace user dependencies walk ≢ out_of_fuel
    unfolding install_each
    install_each-ne-out_of_fuel [] walk h few = λ q. cc q
    install_each-ne-out_of_fuel (dependency ∷ dependencies) walk h few =
        let found = ap (λ vs. dependency_version vs dependency) (sym h.same) in
        by_first (λ w k l. install_each-ne-out_of_fuel dependencies w k l) _
          (install_version-ne-out_of_fuel walk dependency _ found h few)
          (install_version-Goes workspace user versions recurse sound walk dependency _ found h)
      where
        by_first :
            ((w : Walk)
              → IsWalk workspace user versions w
              → unvisited versions w.visited < n
              → install_each recurse workspace user dependencies w ≢ out_of_fuel)
            → (result : Installed Walk) → result ≢ out_of_fuel
            → OnSuccess (Passes workspace user versions walk) result
            → and_rest (λ w. install_each recurse workspace user dependencies w) result
              ≢ out_of_fuel
        by_first rest (error e) k goes = λ q. cc q
        by_first rest out_of_fuel k goes = λ q. k refl
        by_first rest (ok w) k (walks, later) =
            rest w walks
              (omega (arith, few, unvisited-le versions walk.visited w.visited later.keeps))

    visit_version-ne-out_of_fuel :
        (version : ListingVersion) (walk : Walk)
        → IsWalk workspace user versions walk
        → (has_visited version.id walk.visited ≡ false
            → unvisited versions (version.id ∷ walk.visited) < n)
        → visit_version recurse workspace user version walk ≢ out_of_fuel
    visit_version-ne-out_of_fuel version walk h few =
        elim (Bool-cases (has_visited version.id walk.visited)) [
          | inl e ↦ rw e (λ q. cc q)
          | inr e ↦ rw e (
              install_each-ne-out_of_fuel version.dependencies _
                (entered-IsWalk workspace user versions recurse sound version walk h) (few e))
        ]

  install_within-EndsWithin :
      (fuel : ℕ) → EndsWithin fuel (λ v w. install_within fuel workspace user v w)
  unfolding install_within
  install_within-EndsWithin zero version walk h listed few = absurd (omega (arith, few))
  install_within-EndsWithin (suc fuel) version walk h listed few =
      visit_version-ne-out_of_fuel fuel (λ v w. install_within fuel workspace user v w)
        (install_within-Expands workspace user versions fuel) (install_within-EndsWithin fuel)
        version walk h
        (λ e. omega (arith, few, unvisited-lt versions version walk.visited listed e))

-- An installation with its dependencies ends, whatever the versions of the marketplace depend on: it
-- needs at most two levels of recursion more than there are versions, also when the version asked for
-- is not one of them.
pub install_dependencies-ne-out_of_fuel :
    (workspace user : ℕ) (version : ListingVersion) (shop : Shop)
    → install_dependencies workspace user version shop ≢ out_of_fuel
unfolding install_dependencies install_within
install_dependencies-ne-out_of_fuel workspace user version shop =
    let fuel = suc (length shop.versions) in
    visit_version-ne-out_of_fuel workspace user shop.versions fuel
      (λ v w. install_within fuel workspace user v w)
      (install_within-Expands workspace user shop.versions fuel)
      (install_within-EndsWithin workspace user shop.versions fuel) version
      (record { visited = []; shop = shop; installed = [] })
      (record { same = refl; within = λ id k. cc k; once = tt; good = tt })
      (λ e. omega (
        arith,
        count_if-le-length (λ (v : ListingVersion). not (has_visited v.id (version.id ∷ [])))
            shop.versions,
      ))
