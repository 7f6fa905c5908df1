-- ===== src/Conflicts/Detection.antt =====
-- What a detection of conflicts leaves (services/app/core/v4_services.py).
use deep_foundry.Base.{
  ℕ, min, max, leb, ◌≢◌, ◌⊎◌, ap, sym, eq_iff, Option, none, some, String, Bool, true, false, ◌||◌,
  ◌==◌, List, [], ◌∷◌, ◌++◌, any, ◌≡◌, inl, inr, refl, arith, Bool-cases,
}
use mathlib.Core.List.{Memᴰ}
use deep_foundry.Conflicts.{
  coworker_memories, Memory, Texts, Conflict, memory_subject, group_memories, pairs_of, disagree,
  lower_of, upper_of, is_pair, new_conflict, get_or_create_conflict, record_pair, record_pairs,
  detect_memory_conflicts,
}
use deep_foundry.Conflicts.Pairs.{
  Precedes, has_subject, detection-Memᴰ, IsDetected, IsDetected-coworker_memories, Precedes-either,
}

any-append :
    {A : Type 0} (p : A → Bool) (xs ys : List A) → any p (xs ++ ys) ≡ (any p xs || any p ys)
any-append p [] ys = refl
any-append p (x ∷ xs) ys = ground (arith, any-append p xs ys)

-- A conflict of two memories is recorded.
abbrev pub IsRecorded : Memory → Memory → List Conflict → Type 0
IsRecorded m n conflicts = any (is_pair (lower_of m n).id (upper_of m n).id) conflicts ≡ true

same_number : (n : ℕ) → (n == n) ≡ true
same_number n = ground arith

get_or_create_conflict-any :
    (s : String) (a b : Memory) (conflicts : List Conflict)
    → any (is_pair a.id b.id) (get_or_create_conflict s a b conflicts).0 ≡ true
unfolding get_or_create_conflict
get_or_create_conflict-any s a b conflicts = elim (Bool-cases (any (is_pair a.id b.id) conflicts)) [
  | inl e ↦ rw e e
  | inr e ↦ rw e (
      rw
        (
          any-append (is_pair a.id b.id) conflicts (new_conflict s a b ∷ []),
          e,
          same_number a.id,
          same_number b.id,
        )
        refl)
]

get_or_create_conflict-keeps :
    (q : Conflict → Bool) (s : String) (a b : Memory) (conflicts : List Conflict)
    → any q conflicts ≡ true
    → any q (get_or_create_conflict s a b conflicts).0 ≡ true
unfolding get_or_create_conflict
get_or_create_conflict-keeps q s a b conflicts h =
    elim (Bool-cases (any (is_pair a.id b.id) conflicts)) [
      | inl e ↦ rw e h
      | inr e ↦ rw e (rw (any-append q conflicts (new_conflict s a b ∷ []), h) refl)
    ]

-- The conflict of two memories has the lower of their ids first.
pub record IsConflictOf (m n : Memory) (c : Conflict) : Type 0 where
  pub left : c.left_id ≡ min m.id n.id
  pub right : c.right_id ≡ max m.id n.id

module _ (texts : Texts) where
  record_pair-keeps :
      (q : Conflict → Bool) (pair : String × Memory × Memory) (conflicts : List Conflict)
      → any q conflicts ≡ true
      → any q (record_pair texts pair conflicts).0 ≡ true
  record_pair-keeps q (s, m, n) conflicts h = elim (Bool-cases (disagree texts m n)) [
    | inl e ↦ rw e (get_or_create_conflict-keeps q s _ _ conflicts h)
    | inr e ↦ rw e h
  ]

  record_pairs-keeps :
      (q : Conflict → Bool) (pairs : List (String × Memory × Memory)) (conflicts : List Conflict)
      → any q conflicts ≡ true
      → any q (record_pairs texts pairs conflicts).0 ≡ true
  unfolding record_pairs
  record_pairs-keeps q [] conflicts h = h
  record_pairs-keeps q (pair ∷ pairs) conflicts h =
      record_pairs-keeps q pairs (record_pair texts pair conflicts).0
        (record_pair-keeps q pair conflicts h)

  -- Once a pair has been gone through, its memories agree or their conflict is recorded.
  abbrev IsHandled : List Conflict → String × Memory × Memory → Type 0
  IsHandled conflicts pair =
      disagree texts pair.1 pair.2 ≡ true → IsRecorded pair.1 pair.2 conflicts

  record_pairs-IsHandled :
      (pairs : List (String × Memory × Memory)) (conflicts : List Conflict)
      (pair : String × Memory × Memory)
      → Memᴰ pair pairs
      → IsHandled (record_pairs texts pairs conflicts).0 pair
  unfolding record_pairs
  record_pairs-IsHandled [] conflicts pair h = elim h [ ]
  record_pairs-IsHandled ((s, m, n) ∷ pairs) conflicts pair (Memᴰ.head e) = rw e (λ d.
      record_pairs-keeps _ pairs (record_pair texts (s, m, n) conflicts).0
        (rw d (get_or_create_conflict-any s (lower_of m n) (upper_of m n) conflicts)))
  record_pairs-IsHandled (first ∷ pairs) conflicts pair (Memᴰ.tail h) =
      record_pairs-IsHandled pairs (record_pair texts first conflicts).0 pair h

  record_pair-handled :
      (pair : String × Memory × Memory) (conflicts : List Conflict)
      → IsHandled conflicts pair
      → record_pair texts pair conflicts ≡ (conflicts, [])
  unfolding get_or_create_conflict
  record_pair-handled (s, m, n) conflicts h = elim (Bool-cases (disagree texts m n)) [
    | inl e ↦ rw (e, h e) refl
    | inr e ↦ rw e refl
  ]

  -- Pairs that have all been gone through leave the rows as they are.
  record_pairs-handled :
      (pairs : List (String × Memory × Memory)) (conflicts : List Conflict)
      → ((pair : String × Memory × Memory) → Memᴰ pair pairs → IsHandled conflicts pair)
      → record_pairs texts pairs conflicts ≡ (conflicts, [])
  unfolding record_pairs
  record_pairs-handled [] conflicts h = refl
  record_pairs-handled (pair ∷ pairs) conflicts h =
      rw
        (
          record_pair-handled pair conflicts (h pair (Memᴰ.head refl)),
          record_pairs-handled pairs conflicts (λ other k. h other (Memᴰ.tail k)),
        )
        refl

  recorded :
      (m n : Memory) (conflicts : List Conflict)
      → IsRecorded m n conflicts
      → (c : Conflict) × Memᴰ c conflicts × IsConflictOf m n c
  recorded m n [] h = cc h
  recorded m n (c ∷ conflicts) h =
      elim (Bool-cases (is_pair (lower_of m n).id (upper_of m n).id c)) [
        | inl e ↦ (c, Memᴰ.head refl, of_pair e (Bool-cases (leb m.id n.id)))
        | inr e ↦
            let (d, listed, is) = recorded m n conflicts (ground (arith, e, h)) in
            (d, Memᴰ.tail listed, is)
      ]
    where
      of_pair :
          is_pair (lower_of m n).id (upper_of m n).id c ≡ true
          → (leb m.id n.id ≡ true) ⊎ (leb m.id n.id ≡ false)
          → IsConflictOf m n c
      of_pair t (inl le) =
          let t' = rw le at t in
          record { left = ground (arith, le, t'); right = ground (arith, le, t') }
      of_pair t (inr gt) =
          let t' = rw gt at t in
          record { left = ground (arith, gt, t'); right = ground (arith, gt, t') }

  IsConflictOf-swap : (m n : Memory) (c : Conflict) → IsConflictOf n m c → IsConflictOf m n c
  IsConflictOf-swap m n c h =
      let l = h.left in
      let r = h.right in record { left = omega (arith, l); right = omega (arith, r) }

  disagree_lem :
      (m n : Memory)
      → m.scope_id ≢ n.scope_id
      → texts.strip m.content ≢ texts.strip n.content
      → disagree texts m n ≡ true
  unfolding disagree
  disagree_lem m n apart differ =
      ground (arith, apart, differ, eq_iff (texts.strip m.content) (texts.strip n.content))

  -- Two memories that a detection must record.
  pub record Disagree (workspace : ℕ) (rows : List Memory) (m n : Memory) : Type 0 where
    pub first : IsDetected workspace rows m
    pub second : IsDetected workspace rows n
    pub subject : String
    pub first_subject : memory_subject texts m.content ≡ some subject
    pub second_subject : memory_subject texts n.content ≡ some subject
    pub apart : m.scope_id ≢ n.scope_id
    pub differ : texts.strip m.content ≢ texts.strip n.content

  subject-has : (s : String) (o : Option String) → o ≡ some s → has_subject s o ≡ true
  subject-has s none e = cc
  subject-has s (some t) e = let same : t ≡ s = cc e in ground (arith, same, eq_iff s t)

  -- After a detection every two long-term memories of different coworkers of the workspace that have
  -- the same subject and different contents have a row for their conflict, with the lower id first,
  -- and a detection after it creates none and leaves the rows as they are.
  pub detect_memory_conflicts-IsRecorded :
      (workspace : ℕ) (rows : List Memory) (conflicts : List Conflict)
      → let after = (detect_memory_conflicts texts workspace rows conflicts).0 in
        ((m n : Memory)
          → Disagree workspace rows m n
          → (c : Conflict) × Memᴰ c after × IsConflictOf m n c)
        × (detect_memory_conflicts texts workspace rows after ≡ (after, []))
  unfolding detect_memory_conflicts
  detect_memory_conflicts-IsRecorded workspace rows conflicts =
      let pairs = pairs_of (group_memories texts (coworker_memories workspace rows) []) in
      (
        (λ m n h.
            elim (Precedes-either m n (coworker_memories workspace rows)
              (λ e. h.apart (ap (λ (x : Memory). x.scope_id) e))
              (IsDetected-coworker_memories workspace rows m h.first)
              (IsDetected-coworker_memories workspace rows n h.second)) [
                | inl before ↦ handled m n h before
                | inr after ↦
                    let (c, listed, is) = handled n m (swapped m n h) after in
                    (c, listed, IsConflictOf-swap m n c is)
              ]),
        record_pairs-handled pairs _ (record_pairs-IsHandled pairs conflicts),
      )
    where
      swapped : (m n : Memory) → Disagree workspace rows m n → Disagree workspace rows n m
      swapped m n h = record {
        first = h.second;
        second = h.first;
        subject = h.subject;
        first_subject = h.second_subject;
        second_subject = h.first_subject;
        apart = λ e. h.apart (sym e);
        differ = λ e. h.differ (sym e);
      }

      handled :
          (m n : Memory)
          → Disagree workspace rows m n
          → Precedes m n (coworker_memories workspace rows)
          → (c : Conflict) × Memᴰ c
              (record_pairs texts
                (pairs_of (group_memories texts (coworker_memories workspace rows) []))
                conflicts).0
            × IsConflictOf m n c
      handled m n h before = recorded m n _ (
          record_pairs-IsHandled
            (pairs_of (group_memories texts (coworker_memories workspace rows) [])) conflicts
            (h.subject, m, n)
            (detection-Memᴰ texts h.subject m n (coworker_memories workspace rows)
              (subject-has h.subject _ h.first_subject) (subject-has h.subject _ h.second_subject)
              before)
            (disagree_lem m n h.apart h.differ))
