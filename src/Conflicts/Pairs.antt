-- ===== src/Conflicts/Pairs.antt =====
-- The pairs that a detection goes through (services/app/core/v4_services.py).
use deep_foundry.Base.{
  ℕ, ◌≢◌, All, ◌∙◌, String, str_eq, eq_iff, Bool, true, false, Option, none, some, List, [], ◌∷◌,
  ◌++◌, keep, ◌≡◌, ◌⊎◌, inl, inr, refl, sym, ap, arith, Bool-cases, if◌then◌else◌,
}
use mathlib.Core.Path.{subst}
use mathlib.Core.List.{Memᴰ, append-nil, append_assoc}
use mathlib.Core.List.Memᴰ
use deep_foundry.Base.Dict.{lookup, get_or_default, lookup-insert}
use deep_foundry.Base.Sorting.{
  All-Memᴰ, All-map, All-at, All-keep, All-of_keep, All-sort_by, All-of_sort_by,
}
use deep_foundry.Conflicts.{
  MemoryScope, user, coworker, project, organization, temporary, is_coworker_scope, created_before,
  coworker_memories, Memory, Texts, Groups, memory_subject, add_memory, group_memories, pairs_with,
  pairs_in, pairs_of,
}

-- One memory stands before another in a list.
abbrev pub Precedes : Memory → Memory → List Memory → Type 0
Precedes m n [] = ⊥
Precedes m n (x ∷ xs) = ((x ≡ m) × Memᴰ n xs) ⊎ Precedes m n xs

module _ (p : Memory → Bool) where
  keep-Memᴰ : (m : Memory) (xs : List Memory) → p m ≡ true → Memᴰ m xs → Memᴰ m (keep p xs)
  keep-Memᴰ m [] e h = h
  keep-Memᴰ m (x ∷ xs) e (Memᴰ.head same) = rw (← same, e) (Memᴰ.head refl)
  keep-Memᴰ m (x ∷ xs) e (Memᴰ.tail h) = elim (Bool-cases (p x)) [
    | inl f ↦ rw f (Memᴰ.tail (keep-Memᴰ m xs e h))
    | inr f ↦ rw f (keep-Memᴰ m xs e h)
  ]

  pub keep-Precedes :
      (m n : Memory) (xs : List Memory)
      → p m ≡ true
      → p n ≡ true
      → Precedes m n xs
      → Precedes m n (keep p xs)
  keep-Precedes m n [] e f h = h
  keep-Precedes m n (x ∷ xs) e f (inl (same, h)) = rw (same, e) (inl (refl, keep-Memᴰ n xs f h))
  keep-Precedes m n (x ∷ xs) e f (inr h) = elim (Bool-cases (p x)) [
    | inl g ↦ rw g (inr (keep-Precedes m n xs e f h))
    | inr g ↦ rw g (keep-Precedes m n xs e f h)
  ]

pairs_with-Memᴰ :
    (s : String) (m n : Memory) (xs : List Memory) → Memᴰ n xs → Memᴰ (s, m, n) (pairs_with s m xs)
pairs_with-Memᴰ s m n [] h = elim h [ ]
pairs_with-Memᴰ s m n (x ∷ xs) (Memᴰ.head e) = Memᴰ.head (ap (λ y. (s, m, y)) e)
pairs_with-Memᴰ s m n (x ∷ xs) (Memᴰ.tail h) = Memᴰ.tail (pairs_with-Memᴰ s m n xs h)

pairs_in-Memᴰ :
    (s : String) (m n : Memory) (xs : List Memory)
    → Precedes m n xs
    → Memᴰ (s, m, n) (pairs_in s xs)
unfolding pairs_in
pairs_in-Memᴰ s m n [] h = absurd h
pairs_in-Memᴰ s m n (x ∷ xs) (inl (e, h)) =
    Memᴰ.append_left {s = pairs_with s x xs} _ (rw e (pairs_with-Memᴰ s m n xs h))
pairs_in-Memᴰ s m n (x ∷ xs) (inr h) =
    Memᴰ.append_right (pairs_with s x xs) (pairs_in-Memᴰ s m n xs h)

pairs_of-Memᴰ :
    (s : String) (m n : Memory) (groups : Groups) (ms : List Memory)
    → lookup s groups ≡ some ms
    → Precedes m n ms
    → Memᴰ (s, m, n) (pairs_of groups)
unfolding pairs_of
pairs_of-Memᴰ s m n [] ms e h = cc
pairs_of-Memᴰ s m n ((t, xs) ∷ groups) ms e h = elim (Bool-cases (str_eq s t)) [
  | inl same ↦
      let key : s ≡ t = ground (arith, eq_iff s t) in
      let value : xs ≡ ms = cc (rw same at e) in
      Memᴰ.append_left _
        (subst (λ k. Memᴰ (s, m, n) (pairs_in k xs)) key (pairs_in-Memᴰ s m n xs (rw value h)))
  | inr other ↦ Memᴰ.append_right (pairs_in t xs) (pairs_of-Memᴰ s m n groups ms (rw other at e) h)
]

-- Whether a memory has a subject.
abbrev pub has_subject : String → Option String → Bool
has_subject s none = false
has_subject s (some t) = str_eq s t

module _ (texts : Texts) where
  abbrev is_about : String → Memory → Bool
  is_about s m = has_subject s (memory_subject texts m.content)

  abbrev group_of : String → Groups → List Memory
  group_of s groups = get_or_default [] (lookup s groups)

  add_memory-group :
      (s : String) (m : Memory) (subject : Option String) (groups : Groups)
      → group_of s (add_memory m subject groups)
        ≡ (if has_subject s subject then group_of s groups ++ (m ∷ []) else group_of s groups)
  add_memory-group s m none groups = refl
  add_memory-group s m (some t) groups = elim (Bool-cases (str_eq s t)) [
    | inl e ↦
        let key : s ≡ t = ground (arith, eq_iff s t) in
        rw (lookup-insert t s (group_of t groups ++ (m ∷ [])) groups, e)
          (ap (λ k. group_of k groups ++ (m ∷ [])) (sym key))
    | inr e ↦ rw (lookup-insert t s (group_of t groups ++ (m ∷ [])) groups, e) refl
  ]

  -- The group of a subject has the memories about it, in order.
  group_memories-group :
      (s : String) (ms : List Memory) (groups : Groups)
      → group_of s (group_memories texts ms groups) ≡ group_of s groups ++ keep (is_about s) ms
  unfolding group_memories
  group_memories-group s [] groups = sym (append-nil (group_of s groups))
  group_memories-group s (m ∷ ms) groups = elim (Bool-cases (is_about s m)) [
    | inl e ↦
        rw
          (
            group_memories-group s ms (add_memory m (memory_subject texts m.content) groups),
            add_memory-group s m (memory_subject texts m.content) groups,
            e,
          )
          (append_assoc (group_of s groups) (m ∷ []) (keep (is_about s) ms))
    | inr e ↦
        rw
          (
            group_memories-group s ms (add_memory m (memory_subject texts m.content) groups),
            add_memory-group s m (memory_subject texts m.content) groups,
            e,
          )
          refl
  ]

  -- Two memories about the same subject, one before the other, are a pair of the detection.
  pub detection-Memᴰ :
      (s : String) (m n : Memory) (ms : List Memory)
      → is_about s m ≡ true
      → is_about s n ≡ true
      → Precedes m n ms
      → Memᴰ (s, m, n) (pairs_of (group_memories texts ms []))
  detection-Memᴰ s m n ms em en h =
      let groups = group_memories texts ms [] in
      let kept : Precedes m n (group_of s groups) =
        subst (λ xs. Precedes m n xs) (sym (group_memories-group s ms []))
          (keep-Precedes (is_about s) m n ms em en h) in
      by_group (lookup s groups) refl kept
    where
      by_group :
          (found : Option (List Memory))
          → lookup s (group_memories texts ms []) ≡ found
          → Precedes m n (get_or_default [] found)
          → Memᴰ (s, m, n) (pairs_of (group_memories texts ms []))
      by_group none e k = absurd k
      by_group (some xs) e k = pairs_of-Memᴰ s m n (group_memories texts ms []) xs e k

-- A row that a detection in a workspace reads: a long-term memory of a coworker.
pub record IsDetected (workspace : ℕ) (rows : List Memory) (m : Memory) : Type 0 where
  pub listed : Memᴰ m rows
  pub here : m.workspace_id ≡ workspace
  pub of_coworker : m.scope ≡ coworker
  pub long_term : m.is_long_term ≡ true

is_coworker_scope-eq : (scope : MemoryScope) → is_coworker_scope scope ≡ true → scope ≡ coworker
is_coworker_scope-eq coworker h = refl
is_coworker_scope-eq user h = cc
is_coworker_scope-eq project h = cc
is_coworker_scope-eq organization h = cc
is_coworker_scope-eq temporary h = cc

pub coworker_memories-IsDetected :
    (workspace : ℕ) (rows : List Memory)
    → All (IsDetected workspace rows) (coworker_memories workspace rows)
unfolding coworker_memories
coworker_memories-IsDetected workspace rows = All-sort_by created_before _ _ (
    All-keep _ (IsDetected workspace rows) rows (
      All-map (λ m. Memᴰ m rows) _ rows
        (λ m listed t. record {
          listed = listed;
          here = ground (arith, t);
          of_coworker = is_coworker_scope-eq m.scope (ground (arith, t));
          long_term = ground (arith, t);
        })
        (All-Memᴰ rows)))

pub IsDetected-coworker_memories :
    (workspace : ℕ) (rows : List Memory) (m : Memory)
    → IsDetected workspace rows m
    → Memᴰ m (coworker_memories workspace rows)
unfolding coworker_memories
IsDetected-coworker_memories workspace rows m h =
    let kept =
      All-of_keep _ _ rows
        (All-of_sort_by created_before _ _ (All-Memᴰ (coworker_memories workspace rows))) in
    let one = h.here in
    let long = h.long_term in All-at _ h.listed kept (rw h.of_coworker (ground (arith, one, long)))

-- Of two different elements of a list, one stands before the other.
pub Precedes-either :
    (m n : Memory) (xs : List Memory)
    → m ≢ n
    → Memᴰ m xs
    → Memᴰ n xs
    → Precedes m n xs ⊎ Precedes n m xs
Precedes-either m n [] ne h k = elim h [ ]
Precedes-either m n (x ∷ xs) ne (Memᴰ.head e) (Memᴰ.head f) = absurd (ne (e ∙ sym f))
Precedes-either m n (x ∷ xs) ne (Memᴰ.head e) (Memᴰ.tail k) = inl (inl (sym e, k))
Precedes-either m n (x ∷ xs) ne (Memᴰ.tail h) (Memᴰ.head f) = inr (inl (sym f, h))
Precedes-either m n (x ∷ xs) ne (Memᴰ.tail h) (Memᴰ.tail k) = elim (Precedes-either m n xs ne h k) [
  | inl p ↦ inl (inr p)
  | inr p ↦ inr (inr p)
]
