-- ===== src/Conflicts/Genuine.antt =====
-- That a detected conflict is one (services/app/core/v4_services.py).
use deep_foundry.Base.{
  ℕ, ◌≤◌, ◌≢◌, leb, String, str_eq, eq_iff, true, Option, none, some, List, [], ◌∷◌, ◌++◌, any, All,
  ◌≡◌, inl, inr, refl, sym, arith, Bool-cases,
}
use mathlib.Core.Path.{subst}
use deep_foundry.Base.Dict.{Dict, lookup, insert, get_or_default}
use deep_foundry.Conflicts.Pairs.{IsDetected, coworker_memories-IsDetected}
use deep_foundry.Conflicts.{
  opened, coworker_memories, Memory, Texts, Groups, Conflict, memory_subject, add_memory,
  group_memories, pairs_with, pairs_in, pairs_of, disagree, lower_of, upper_of, is_pair,
  new_conflict, get_or_create_conflict, record_pair, record_pairs, detect_memory_conflicts,
}

All-append : {A : Type 0} (P : A → Type 0) (xs ys : List A) → All P xs → All P ys → All P (xs ++ ys)
All-append P [] ys h k = k
All-append P (x ∷ xs) ys (hx, hs) k = (hx, All-append P xs ys hs k)

-- Values of a dict that satisfy what their key asks.
module _ {V : Type 0} (P : String → V → Type 0) where
  abbrev AllAt : Dict V → Type 0
  AllAt d = All (λ (e : String × V). P e.0 e.1) d

  insert-AllAt : (k : String) (v : V) (d : Dict V) → P k v → AllAt d → AllAt (insert k v d)
  insert-AllAt k v [] h hs = (h, tt)
  insert-AllAt k v ((j, w) ∷ d) h (hw, hs) = elim (Bool-cases (str_eq k j)) [
    | inl e ↦ let key : k ≡ j = ground (arith, eq_iff k j) in rw e (subst (λ i. P i v) key h, hs)
    | inr e ↦ rw e (hw, insert-AllAt k v d h hs)
  ]

  lookup-AllAt :
      (k : String) (d : Dict V) (default : V)
      → P k default
      → AllAt d
      → P k (get_or_default default (lookup k d))
  lookup-AllAt k [] default h hs = h
  lookup-AllAt k ((j, w) ∷ d) default h (hw, hs) = elim (Bool-cases (str_eq k j)) [
    | inl e ↦ let key : k ≡ j = ground (arith, eq_iff k j) in rw e (subst (λ i. P i w) (sym key) hw)
    | inr e ↦ rw e (lookup-AllAt k d default h hs)
  ]

module _ (texts : Texts) (Among : Memory → Type 0) where
  -- A memory among those that are read, with a subject.
  abbrev pub IsAbout : String → Memory → Type 0
  IsAbout s m = (memory_subject texts m.content ≡ some s) × Among m

  abbrev IsGroup : String → List Memory → Type 0
  IsGroup s ms = All (IsAbout s) ms

  abbrev IsPair : String × Memory × Memory → Type 0
  IsPair pair = IsAbout pair.0 pair.1 × IsAbout pair.0 pair.2

  add_memory-IsGroup :
      (m : Memory) (subject : Option String) (groups : Groups)
      → memory_subject texts m.content ≡ subject
      → Among m
      → AllAt IsGroup groups
      → AllAt IsGroup (add_memory m subject groups)
  add_memory-IsGroup m none groups e at h = h
  add_memory-IsGroup m (some s) groups e at h =
      insert-AllAt IsGroup s _ groups
        (All-append (IsAbout s) (get_or_default [] (lookup s groups)) (m ∷ [])
          (lookup-AllAt IsGroup s groups [] tt h) ((e, at), tt))
        h

  group_memories-IsGroup :
      (ms : List Memory) (groups : Groups)
      → All (λ m. Among m) ms
      → AllAt IsGroup groups
      → AllAt IsGroup (group_memories texts ms groups)
  unfolding group_memories
  group_memories-IsGroup [] groups at h = h
  group_memories-IsGroup (m ∷ ms) groups (at, ats) h =
      group_memories-IsGroup ms (add_memory m (memory_subject texts m.content) groups) ats
        (add_memory-IsGroup m (memory_subject texts m.content) groups refl at h)

  pairs_with-IsPair :
      (s : String) (m : Memory) (ms : List Memory)
      → IsAbout s m
      → IsGroup s ms
      → All IsPair (pairs_with s m ms)
  pairs_with-IsPair s m [] h hs = tt
  pairs_with-IsPair s m (n ∷ ms) h (hn, hs) = ((h, hn), pairs_with-IsPair s m ms h hs)

  pairs_in-IsPair : (s : String) (ms : List Memory) → IsGroup s ms → All IsPair (pairs_in s ms)
  unfolding pairs_in
  pairs_in-IsPair s [] h = tt
  pairs_in-IsPair s (m ∷ ms) (h, hs) =
      All-append IsPair (pairs_with s m ms) (pairs_in s ms) (pairs_with-IsPair s m ms h hs)
        (pairs_in-IsPair s ms hs)

  pairs_of-IsPair : (groups : Groups) → AllAt IsGroup groups → All IsPair (pairs_of groups)
  unfolding pairs_of
  pairs_of-IsPair [] h = tt
  pairs_of-IsPair ((s, ms) ∷ groups) (h, hs) =
      All-append IsPair (pairs_in s ms) (pairs_of groups) (pairs_in-IsPair s ms h)
        (pairs_of-IsPair groups hs)

  -- A new conflict is that of two memories of its subject, of different coworkers and with different
  -- contents; it has their ids in order, each with its content.
  pub record IsGenuine (c : Conflict) : Type 0 where
    pub left : Memory
    pub right : Memory
    pub left_about : IsAbout c.subject left
    pub right_about : IsAbout c.subject right
    pub apart : left.scope_id ≢ right.scope_id
    pub differ : texts.strip left.content ≢ texts.strip right.content
    pub ordered : left.id ≤ right.id
    pub row : c ≡ record {
      left_id = left.id;
      right_id = right.id;
      subject = c.subject;
      left_content = left.content;
      right_content = right.content;
      status = opened;
      strategy = "";
      resolved_content = "";
      resolved_by = none;
      resolved_at = none;
    }

  disagree-apart :
      (m n : Memory)
      → disagree texts m n ≡ true
      → (m.scope_id ≢ n.scope_id) × (texts.strip m.content ≢ texts.strip n.content)
  unfolding disagree
  disagree-apart m n h = (
    (λ e. ground (arith, h, e)),
    λ e. ground (arith, h, e, eq_iff (texts.strip m.content) (texts.strip n.content)),
  )

  genuine :
      (s : String) (m n : Memory)
      → IsAbout s m
      → IsAbout s n
      → disagree texts m n ≡ true
      → IsGenuine (new_conflict s (lower_of m n) (upper_of m n))
  genuine s m n hm hn e = elim (Bool-cases (leb m.id n.id)) [
    | inl le ↦ rw le (record {
      left = m;
      right = n;
      left_about = hm;
      right_about = hn;
      apart = (disagree-apart m n e).0;
      differ = (disagree-apart m n e).1;
      ordered = ground (arith, le);
      row = refl;
    })
    | inr gt ↦ rw gt (record {
      left = n;
      right = m;
      left_about = hn;
      right_about = hm;
      apart = λ k. (disagree-apart m n e).0 (sym k);
      differ = λ k. (disagree-apart m n e).1 (sym k);
      ordered = ground (arith, gt);
      row = refl;
    })
  ]

  record_pair-IsGenuine :
      (pair : String × Memory × Memory) (conflicts : List Conflict)
      → IsPair pair
      → All IsGenuine (record_pair texts pair conflicts).1
  unfolding get_or_create_conflict
  record_pair-IsGenuine (s, m, n) conflicts (hm, hn) = elim (Bool-cases (disagree texts m n)) [
    | inr e ↦ rw e tt
    | inl e ↦ elim (Bool-cases (any (is_pair (lower_of m n).id (upper_of m n).id) conflicts)) [
      | inl f ↦ rw (e, f) tt
      | inr f ↦ rw (e, f) (genuine s m n hm hn e, tt)
    ]
  ]

  record_pairs-IsGenuine :
      (pairs : List (String × Memory × Memory)) (conflicts : List Conflict)
      → All IsPair pairs
      → All IsGenuine (record_pairs texts pairs conflicts).1
  unfolding record_pairs
  record_pairs-IsGenuine [] conflicts h = tt
  record_pairs-IsGenuine (pair ∷ pairs) conflicts (h, hs) =
      All-append IsGenuine (record_pair texts pair conflicts).1 _
        (record_pair-IsGenuine pair conflicts h)
        (record_pairs-IsGenuine pairs (record_pair texts pair conflicts).0 hs)

module _ (texts : Texts) where
  -- Every conflict that a detection creates is of two long-term memories of the workspace that have
  -- its subject, belong to different coworkers and have different contents; the row has their ids in
  -- order, each with its content.
  pub detect_memory_conflicts-IsGenuine :
      (workspace : ℕ) (rows : List Memory) (conflicts : List Conflict)
      → All
          (IsGenuine texts (IsDetected workspace rows))
          (detect_memory_conflicts texts workspace rows conflicts).1
  unfolding detect_memory_conflicts
  detect_memory_conflicts-IsGenuine workspace rows conflicts =
      record_pairs-IsGenuine texts (IsDetected workspace rows) _ conflicts (
        pairs_of-IsPair texts (IsDetected workspace rows) _ (
          group_memories-IsGroup texts (IsDetected workspace rows)
            (coworker_memories workspace rows) [] (coworker_memories-IsDetected workspace rows) tt))
