-- ===== src/Marketplace/Dependencies.antt =====
-- The recursion over the dependencies of a version (services/app/core/v3_services.py).
use deep_foundry.Base.{
  ℕ, zero, suc, true, false, Option, none, some, List, [], ◌∷◌, All, ==_iff, ◌≡◌, refl, sym, ap,
  ◌∙◌, inl, inr, arith, Bool-cases,
}
use deep_foundry.Marketplace.Installs.{
  Dependency, ListingVersion, Shop, Installed, ok, error, out_of_fuel, dependency_version, Walk,
  has_visited, install_version, and_rest, install_each, visit_version, install_within,
  install_dependencies,
}
use deep_foundry.Marketplace.Walks.{
  OnSuccess, IsOnce, IsInstalled, IsWalk, Later, Later-trans, Expands, IsRecursion, Goes,
  install_after-Goes, dependency_version-Memᴰ,
}

module _ (workspace user : ℕ) (versions : List ListingVersion) where
  abbrev pub Sound : Walk → Type 0
  Sound walk = IsWalk workspace user versions walk

  abbrev pub Passes : Walk → Walk → Type 0
  Passes before after = Goes workspace user versions before after

  abbrev pub Opens : ListingVersion → Walk → Walk → Type 0
  Opens version before after = Expands workspace user versions version before after

  Later-refl : (walk : Walk) → Later workspace user versions walk walk
  Later-refl walk = record { keeps = λ id h. h; spares = λ id h. refl }

  module _ (recurse : ListingVersion → Walk → Installed Walk)
      (sound : IsRecursion workspace user versions recurse) where
    pub install_version-Goes :
        (walk : Walk) (dependency : Dependency) (found : Option ListingVersion)
        → dependency_version versions dependency ≡ found
        → Sound walk
        → OnSuccess (Passes walk) (install_version recurse workspace user walk found)
    install_version-Goes walk dependency none e h = tt
    install_version-Goes walk dependency (some version) e h =
        install_after-Goes workspace user versions version walk (recurse version walk)
          (dependency_version-Memᴰ workspace user versions dependency version e) h
          (sound version walk h)

    pub install_each-Goes :
        (dependencies : List Dependency) (walk : Walk)
        → Sound walk
        → OnSuccess (Passes walk) (install_each recurse workspace user dependencies walk)
    unfolding install_each
    install_each-Goes [] walk h = (h, Later-refl walk)
    install_each-Goes (dependency ∷ dependencies) walk h =
        by_first (λ w k. install_each-Goes dependencies w k) _
          (install_version-Goes walk dependency _
            (ap (λ vs. dependency_version vs dependency) (sym h.same)) h)
      where
        by_first :
            ((w : Walk)
              → Sound w
              → OnSuccess (Passes w) (install_each recurse workspace user dependencies w))
            → (result : Installed Walk) → OnSuccess (Passes walk) result
            → OnSuccess
                (Passes walk)
                (and_rest (λ w. install_each recurse workspace user dependencies w) result)
        by_first rest (error e) k = tt
        by_first rest out_of_fuel k = tt
        by_first rest (ok w) (h', later) =
            by_rest w later (install_each recurse workspace user dependencies w) (rest w h')
          where
            by_rest :
                (w : Walk)
                → Later workspace user versions walk w
                → (result : Installed Walk) → OnSuccess (Passes w) result
                → OnSuccess (Passes walk) result
            by_rest w later (error e) k = tt
            by_rest w later out_of_fuel k = tt
            by_rest w later (ok w') (h'', later') =
                (h'', Later-trans workspace user versions walk w w' later later')

    abbrev pub entered : (version : ListingVersion) (walk : Walk) → Walk
    entered version walk = record walk { visited = version.id ∷ walk.visited }

    pub entered-IsWalk :
        (version : ListingVersion) (walk : Walk) → Sound walk → Sound (entered version walk)
    entered-IsWalk version walk h = record {
      same = h.same;
      within = λ id k. ground (arith, h.within id k);
      once = h.once;
      good = h.good;
    }

    still_out :
        (version : ListingVersion) (walk : Walk)
        → Sound walk
        → has_visited version.id walk.visited ≡ false
        → has_visited version.id walk.installed ≡ false
    still_out version walk h fresh = elim (Bool-cases (has_visited version.id walk.installed)) [
      | inl e ↦ cc (sym fresh ∙ h.within version.id e)
      | inr e ↦ e
    ]

    visit_version-Expands :
        (version : ListingVersion) (walk : Walk)
        → Sound walk
        → OnSuccess (Opens version walk) (visit_version recurse workspace user version walk)
    visit_version-Expands version walk h = elim (Bool-cases (has_visited version.id walk.visited)) [
      | inl e ↦ rw e tt
      | inr e ↦ rw e (
          expanded e _ (
            install_each-Goes version.dependencies (entered version walk)
              (entered-IsWalk version walk h)))
    ]
      where
        in_front : has_visited version.id (version.id ∷ walk.visited) ≡ true
        in_front = ground (arith, ==_iff version.id version.id)

        expanded :
            has_visited version.id walk.visited ≡ false
            → (result : Installed Walk) → OnSuccess (Passes (entered version walk)) result
            → OnSuccess (Opens version walk) result
        expanded fresh (error e) k = tt
        expanded fresh out_of_fuel k = tt
        expanded fresh (ok w) (walks, later) = record {
          walks = walks;
          later = record {
            keeps = λ id k. later.keeps id (ground (arith, k));
            spares = λ id k. later.spares id (ground (arith, k));
          };
          fresh = fresh;
          marked = later.keeps version.id in_front;
          still_open = later.spares version.id in_front ∙ still_out version walk h fresh;
        }

  pub install_within-Expands :
      (fuel : ℕ)
      → IsRecursion workspace user versions (λ v w. install_within fuel workspace user v w)
  unfolding install_within
  install_within-Expands zero version walk h = tt
  install_within-Expands (suc fuel) version walk h =
      visit_version-Expands (λ v w. install_within fuel workspace user v w)
        (install_within-Expands fuel) version walk h

-- If an installation with its dependencies succeeds, then each version that it installed is a version of
-- the marketplace that is approved, the workspace has a row for it and the user is an owner or admin of
-- the workspace; none is installed twice, and the version that was asked for is not among them.
pub install_dependencies-IsWalk :
    (workspace user : ℕ) (version : ListingVersion) (shop : Shop)
    → OnSuccess
        (λ walk.
          All (IsInstalled workspace user shop.versions walk.shop) walk.installed
          × IsOnce walk.installed
          × (has_visited version.id walk.installed ≡ false))
        (install_dependencies workspace user version shop)
unfolding install_dependencies
install_dependencies-IsWalk workspace user version shop = by_result _ (
    install_within-Expands workspace user shop.versions _ version
      (record { visited = []; shop = shop; installed = [] })
      (record { same = refl; within = λ id k. cc k; once = tt; good = tt }))
  where
    by_result :
        (result : Installed Walk)
        → OnSuccess
            (Expands workspace user shop.versions version
              (record { visited = []; shop = shop; installed = [] }))
            result
        → OnSuccess
            (λ walk.
              All (IsInstalled workspace user shop.versions walk.shop) walk.installed
              × IsOnce walk.installed
              × (has_visited version.id walk.installed ≡ false))
            result
    by_result (ok walk) e = (e.walks.good, e.walks.once, e.still_open)
    by_result (error _) e = tt
    by_result out_of_fuel e = tt
