-- ===== src/Marketplace/Walks.antt =====
-- What an installation with its dependencies leaves (services/app/core/v3_services.py).
use deep_foundry.Base.{
  ℕ, true, false, ◌||◌, some, List, [], ◌∷◌, ◌++◌, any, keep, All, ◌==◌, ==_iff, ◌≡◌, ◌⊎◌, refl,
  sym, ◌∙◌, inl, inr, arith, Bool-cases,
}
use mathlib.Core.Path.{subst}
use mathlib.Core.List.{Memᴰ}
use deep_foundry.Base.Sorting.{sort_by, All-map, All-Memᴰ, All-keep, All-sort_by}
use deep_foundry.Teams.{require_workspace_admin}
use deep_foundry.Marketplace.Installs.{
  Dependency, ListingVersion, Shop, is_approved, is_install, add_install, provision, Installed, ok,
  error, out_of_fuel, install_listing, version_le, is_candidate, first_version, dependency_version,
  Walk, has_visited, note_install, install_after,
}

-- What holds of the walk of a success.
abbrev pub OnSuccess {ℓ} : {A : Type ℓ} → (A → Type 0) → Installed A → Type 0
OnSuccess P (ok a) = P a
OnSuccess P _ = Unit

abbrev pub IsOnce : List ℕ → Type 0
IsOnce [] = Unit
IsOnce (id ∷ ids) = (has_visited id ids ≡ false) × IsOnce ids

has_visited-append :
    (id : ℕ) (xs ys : List ℕ) → has_visited id (xs ++ ys) ≡ (has_visited id xs || has_visited id ys)
has_visited-append id [] ys = refl
has_visited-append id (x ∷ xs) ys = ground (arith, has_visited-append id xs ys)

append-IsOnce :
    (ids : List ℕ) (id : ℕ) → has_visited id ids ≡ false → IsOnce ids → IsOnce (ids ++ (id ∷ []))
append-IsOnce [] id h k = (refl, tt)
append-IsOnce (x ∷ ids) id h (hx, k) =
    (ground (arith, has_visited-append x ids (id ∷ [])), append-IsOnce ids id (ground (arith, h)) k)

All-append_one :
    {A : Type 0} (P : A → Type 0) (xs : List A) (y : A) → All P xs → P y → All P (xs ++ (y ∷ []))
All-append_one P [] y h k = (k, tt)
All-append_one P (x ∷ xs) y (hx, hs) k = (hx, All-append_one P xs y hs k)

module _ (workspace user : ℕ) (versions : List ListingVersion) where
  -- A version of the marketplace that is approved and that the workspace has, installed by an admin.
  pub record IsInstalled (shop : Shop) (id : ℕ) : Type 0 where
    pub version : ListingVersion
    pub listed : Memᴰ version versions
    pub named : version.id ≡ id
    pub is_good : is_approved version.status ≡ true
    pub has_row : any (is_install workspace id) shop.installs ≡ true
    pub by_admin : require_workspace_admin shop.members workspace user ≡ true

  pub record IsWalk (walk : Walk) : Type 0 where
    pub same : walk.shop.versions ≡ versions
    pub within :
        (id : ℕ) → has_visited id walk.installed ≡ true → has_visited id walk.visited ≡ true
    pub once : IsOnce walk.installed
    pub good : All (IsInstalled walk.shop) walk.installed

  -- Later in the recursion more is visited, and nothing is installed that was visited before.
  pub record Later (before after : Walk) : Type 0 where
    pub keeps :
        (id : ℕ) → has_visited id before.visited ≡ true → has_visited id after.visited ≡ true
    pub spares :
        (id : ℕ)
        → has_visited id before.visited ≡ true
        → has_visited id after.installed ≡ has_visited id before.installed

  pub Later-trans : (a b c : Walk) → Later a b → Later b c → Later a c
  Later-trans a b c p q = record {
    keeps = λ id h. q.keeps id (p.keeps id h);
    spares = λ id h. q.spares id (p.keeps id h) ∙ p.spares id h;
  }

  -- What the recursion on a version has done when it succeeds.
  pub record Expands (version : ListingVersion) (before after : Walk) : Type 0 where
    pub walks : IsWalk after
    pub later : Later before after
    pub fresh : has_visited version.id before.visited ≡ false
    pub marked : has_visited version.id after.visited ≡ true
    pub still_open : has_visited version.id after.installed ≡ false

  abbrev pub IsRecursion : (ListingVersion → Walk → Installed Walk) → Type 0
  IsRecursion recurse =
      (version : ListingVersion) (walk : Walk)
      → IsWalk walk
      → OnSuccess (Expands version walk) (recurse version walk)

  abbrev pub Goes : Walk → Walk → Type 0
  Goes before after = IsWalk after × Later before after

  add_install-IsInstalled :
      (shop : Shop) (version : ListingVersion) (id : ℕ)
      → IsInstalled shop id
      → IsInstalled
          (record shop {
            installs = add_install workspace version.id shop.installs;
            provisioned = provision version shop.provisioned;
          })
          id
  add_install-IsInstalled shop version id h = record {
    version = h.version;
    listed = h.listed;
    named = h.named;
    is_good = h.is_good;
    has_row = elim (Bool-cases (any (is_install workspace version.id) shop.installs)) [
      | inl e ↦ rw e h.has_row
      | inr e ↦ rw e (ground (arith, h.has_row))
    ];
    by_admin = h.by_admin;
  }

  new-IsInstalled :
      (shop : Shop) (version : ListingVersion)
      → Memᴰ version versions
      → is_approved version.status ≡ true
      → require_workspace_admin shop.members workspace user ≡ true
      → IsInstalled
          (record shop {
            installs = add_install workspace version.id shop.installs;
            provisioned = provision version shop.provisioned;
          })
          version.id
  new-IsInstalled shop version listed good admin = record {
    version = version;
    listed = listed;
    named = refl;
    is_good = good;
    has_row = elim (Bool-cases (any (is_install workspace version.id) shop.installs)) [
      | inl e ↦ rw e e
      | inr e ↦ rw e (ground (arith, ==_iff workspace workspace, ==_iff version.id version.id))
    ];
    by_admin = admin;
  }

  -- The installation of a version that was expanded and is not installed yet.
  noted :
      (version : ListingVersion) (before walk : Walk)
      → Memᴰ version versions
      → Expands version before walk
      → IsWalk before
      → OnSuccess
          (Goes before)
          (note_install walk version (install_listing workspace user version walk.shop))
  unfolding install_listing
  noted version before walk listed e h =
      elim (Bool-cases (require_workspace_admin walk.shop.members workspace user)) [
        | inr no_admin ↦ rw no_admin tt
        | inl admin ↦ elim (Bool-cases (is_approved version.status)) [
          | inr bad ↦ rw (admin, bad) tt
          | inl good ↦
              rw (admin, good)
                (
                  record {
                    same = e.walks.same;
                    within = λ id k. within id (Bool-cases (id == version.id)) k;
                    once = append-IsOnce walk.installed version.id e.still_open e.walks.once;
                    good =
                        All-append_one _ walk.installed version.id
                          (All-map (IsInstalled walk.shop) _ walk.installed
                            (λ id k. add_install-IsInstalled walk.shop version id k) e.walks.good)
                          (new-IsInstalled walk.shop version listed good admin);
                  },
                  record {
                    keeps = e.later.keeps;
                    spares = λ id k. spares id k (Bool-cases (id == version.id));
                  },
                )
        ]
      ]
    where
      within :
          (id : ℕ)
          → ((id == version.id) ≡ true) ⊎ ((id == version.id) ≡ false)
          → has_visited id (walk.installed ++ (version.id ∷ [])) ≡ true
          → has_visited id walk.visited ≡ true
      within id (inl same) k =
          let e' : id ≡ version.id = (==_iff id version.id).0 same in
          subst (λ i. has_visited i walk.visited ≡ true) (sym e') e.marked
      within id (inr other) k =
          e.walks.within id (ground (arith, has_visited-append id walk.installed (version.id ∷ [])))

      spares :
          (id : ℕ)
          → has_visited id before.visited ≡ true
          → ((id == version.id) ≡ true) ⊎ ((id == version.id) ≡ false)
          → has_visited id (walk.installed ++ (version.id ∷ [])) ≡ has_visited id before.installed
      spares id k (inl same) =
          let e' : id ≡ version.id = (==_iff id version.id).0 same in
          cc (sym e.fresh ∙ subst (λ i. has_visited i before.visited ≡ true) e' k)
      spares id k (inr other) =
          ground
            (arith, has_visited-append id walk.installed (version.id ∷ []), e.later.spares id k)

  pub install_after-Goes :
      (version : ListingVersion) (before : Walk) (result : Installed Walk)
      → Memᴰ version versions
      → IsWalk before
      → OnSuccess (Expands version before) result
      → OnSuccess (Goes before) (install_after workspace user version result)
  install_after-Goes version before (ok walk) listed h e = noted version before walk listed e h
  install_after-Goes version before (error _) listed h e = tt
  install_after-Goes version before out_of_fuel listed h e = tt

  -- The version of a dependency is one of the marketplace.
  pub dependency_version-Memᴰ :
      (dependency : Dependency) (version : ListingVersion)
      → dependency_version versions dependency ≡ some version
      → Memᴰ version versions
  unfolding dependency_version
  dependency_version-Memᴰ dependency version h =
      first (sort_by version_le (keep (is_candidate dependency) versions))
        (All-sort_by version_le (λ v. Memᴰ v versions) (keep (is_candidate dependency) versions)
          (All-keep (is_candidate dependency) (λ v. Memᴰ v versions) versions
            (All-map (λ v. Memᴰ v versions) _ versions (λ v m _. m) (All-Memᴰ versions))))
        h
    where
      first :
          (vs : List ListingVersion)
          → All (λ v. Memᴰ v versions) vs
          → first_version vs ≡ some version
          → Memᴰ version versions
      first [] all e = cc
      first (v ∷ vs) (m, all) e =
          let same : v ≡ version = cc e in subst (λ w. Memᴰ w versions) same m
