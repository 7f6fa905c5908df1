-- ===== src/Teams/Created.antt =====
-- What the loop of `create_agent_team` over the members makes of them.
use mathlib.Core.List.{Memᴰ}
use mathlib.Core.Path.{subst}
use deep_foundry.Base.{
  ℕ, ◌+◌, ◌≤◌, ◌<◌, String, str_eq, Bool, true, false, Option, none, some, List, [], ◌∷◌, ◌≡◌, ◌≢◌,
  inl, inr, refl, sym, arith, ◌==◌, any, length, count_if, All, if◌then◌else◌, Bool-cases,
}
use deep_foundry.Base.Dict.{get_or_default}
use deep_foundry.Base.Sorting.{All-Memᴰ, All-map, All-zip, find_sound}
use deep_foundry.Teams.{
  CoworkerRow, Member, MemberPayload, TeamError, Result, ok, error, is_role, is_manager,
  coworker_of, insert_member, add_member, seen_with, create_members,
}

abbrev pub manages : Member → Bool
manages m = str_eq m.role "manager"

-- No two members have one id, or one coworker.
abbrev pub AreDistinct : List Member → Type 0
AreDistinct [] = Unit
AreDistinct (m ∷ ms) =
    All (λ (n : Member). (m.id < n.id) × (n.coworker ≢ m.coworker)) ms × AreDistinct ms

-- A member whose role is one of the roles and whose coworker is one of these rows.
abbrev pub IsMember : List CoworkerRow → Member → Type 0
IsMember rows m = (is_role m.role ≡ true) × ((c : CoworkerRow) × Memᴰ c rows × (c.id ≡ m.coworker))

data Inserted (position : ℕ) (role : String) (seen : List ℕ) (coworker : Option CoworkerRow)
    (rest : Result (List Member)) (members : List Member) : Type 0 where
  inserted :
      (c : CoworkerRow) (tail : List Member)
      → is_role role ≡ true
      → coworker ≡ some c
      → any (λ i. i == c.id) seen ≡ false
      → rest ≡ ok tail
      → members ≡ record { id = position; coworker = c.id; role = role } ∷ tail
      → Inserted position role seen coworker rest members

insert_member-Inserted :
    (position : ℕ) (role : String) (seen : List ℕ) (coworker : Option CoworkerRow)
    (rest : Result (List Member)) (members : List Member)
    → insert_member position role seen coworker rest ≡ ok members
    → Inserted position role seen coworker rest members
insert_member-Inserted position role seen coworker rest members h =
    elim (Bool-cases (is_role role)) [
      | inr e ↦ cc (rw e at h)
      | inl e ↦ found e coworker refl (rw e at h)
    ]
  where
    added :
        (c : CoworkerRow) (r : Result (List Member))
        → is_role role ≡ true
        → coworker ≡ some c
        → any (λ i. i == c.id) seen ≡ false
        → rest ≡ r
        → add_member (record { id = position; coworker = c.id; role = role }) r ≡ ok members
        → Inserted position role seen coworker rest members
    added c (error e) valid f fresh g k = cc
    added c (ok tail) valid f fresh g k = inserted c tail valid f fresh g (sym (cc k))

    found :
        is_role role ≡ true
        → (c : Option CoworkerRow) → coworker ≡ c
        → (elim c [
          | none ↦ error TeamError.key_error
          | some d ↦
              if any (λ i. i == d.id) seen
              then error TeamError.integrity_error
              else add_member (record { id = position; coworker = d.id; role = role }) rest
        ])
          ≡ ok members
        → Inserted position role seen coworker rest members
    found valid none f k = cc
    found valid (some c) f k = elim (Bool-cases (any (λ i. i == c.id) seen)) [
      | inl twice ↦ cc (rw twice at k)
      | inr fresh ↦ added c rest valid f fresh refl (rw fresh at k)
    ]

-- What the loop over the members makes of a payload.
pub record Built (rows : List CoworkerRow) (position : ℕ) (seen : List ℕ)
    (payload : List MemberPayload) (members : List Member) : Type 0 where
  pub numbered : All (λ (m : Member). position ≤ m.id) members
  pub unseen : All (λ (m : Member). any (λ i. i == m.coworker) seen ≡ false) members
  pub apart : AreDistinct members
  pub valid : All (IsMember rows) members
  pub as_many : length members ≡ length payload
  pub managers : count_if manages members ≡ count_if is_manager payload

coworker_of-row :
    (rows : List CoworkerRow) (id : Option ℕ) (c : CoworkerRow)
    → coworker_of rows id ≡ some c
    → Memᴰ c rows
coworker_of-row rows none c h = cc
coworker_of-row rows (some i) c h = (find_sound _ _ rows c h (All-Memᴰ rows)).1

is_manager-role :
    (m : MemberPayload) → str_eq (get_or_default "custom" m.role) "manager" ≡ is_manager m
is_manager-role m = by_role m.role
  where
    by_role :
        (role : Option String)
        → str_eq (get_or_default "custom" role) "manager"
          ≡ (elim role [ none ↦ false | some r ↦ str_eq r "manager" ])
    by_role none = refl
    by_role (some r) = refl

pub create_members-Built :
    (rows : List CoworkerRow) (position : ℕ) (seen : List ℕ) (payload : List MemberPayload)
    (members : List Member)
    → create_members rows position seen payload ≡ ok members
    → Built rows position seen payload members
unfolding create_members
create_members-Built rows position seen [] members h =
    let none_made : [] ≡ members = cc h in
    subst (Built rows position seen []) none_made (record {
      numbered = tt;
      unseen = tt;
      apart = tt;
      valid = tt;
      as_many = refl;
      managers = refl;
    })
create_members-Built rows position seen (p ∷ ps) members h =
    by_insertion
      (create_members-Built rows (position + 1) (seen_with (coworker_of rows p.coworker_id) seen)
        ps)
      (insert_member-Inserted position (get_or_default "custom" p.role) seen
        (coworker_of rows p.coworker_id)
        (create_members rows (position + 1) (seen_with (coworker_of rows p.coworker_id) seen) ps)
        members h)
  where
    by_insertion :
        ((tail : List Member)
          → create_members rows (position + 1) (seen_with (coworker_of rows p.coworker_id) seen) ps
            ≡ ok tail
          → Built rows (position + 1) (seen_with (coworker_of rows p.coworker_id) seen) ps tail)
        → Inserted position
            (get_or_default "custom" p.role)
            seen
            (coworker_of rows p.coworker_id)
            (create_members rows
              (position + 1)
              (seen_with (coworker_of rows p.coworker_id) seen)
              ps)
            members
        → Built rows position seen (p ∷ ps) members
    by_insertion ih (inserted c tail valid found fresh made same) =
        let rest =
          subst (λ o. Built rows (position + 1) (seen_with o seen) ps tail) found (ih tail made) in
        subst (Built rows position seen (p ∷ ps)) (sym same) (record {
          numbered = (omega arith, All-map _ _ tail (λ m le. omega (arith, le)) rest.numbered);
          unseen = (fresh, All-map _ _ tail (λ m e. ground (arith, e)) rest.unseen);
          apart = (
            All-map _ _ tail (λ m (le, new). (omega (arith, le), λ e. ground (arith, new, e)))
                (All-zip _ _ tail rest.numbered rest.unseen),
            rest.apart,
          );
          valid = ((valid, (c, coworker_of-row rows p.coworker_id c found, refl)), rest.valid);
          as_many = omega (arith, rest.as_many);
          managers = rw (is_manager-role p, rest.managers) refl;
        })
