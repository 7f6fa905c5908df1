-- ===== src/ModelRouter/Assembled.antt =====
-- What the chunks of a stream hold of its events
-- (services/app/ai/model_router/adapters/deepseek_cloud.py).
use deep_foundry.Base.{
  ℕ, ◌<◌, String, Bool, Option, none, some, List, [], ◌∷◌, map, ◌==◌, leb, keep, All, if◌then◌else◌,
  ◌≡◌, ◌≢◌, refl, sym, ap, ◌∙◌, arith, Bool-cases, inl, inr,
}
use deep_foundry.Base.Dict.{get_or_default}
use deep_foundry.Base.Sorting.{All-map, insert_by, sort_by, All-insert_by}
use deep_foundry.Base.Text.{append_text, concat_texts, append-nil, append_assoc}
use deep_foundry.ModelRouter.{given}
use deep_foundry.ModelRouter.Streams.{
  Fragment, Slot, Slots, empty_slot, take_fragment, accumulate, accumulate_all, index_le,
}

-- The slot of an index.
abbrev pub slot_at : ℕ → Slots → Option Slot
slot_at i [] = none
slot_at i ((j, slot) ∷ slots) = let rest = slot_at i slots in if i == j then some slot else rest

-- The last text of a list that is not empty.
abbrev pub last_given : String → List (Option String) → String
last_given text [] = text
last_given text (t ∷ ts) = last_given (get_or_default text (given t)) ts

-- The fragments of one index put together: the last id and name that are given, and all arguments
-- one after another.
abbrev pub assembled : Slot → List Fragment → Slot
assembled slot fragments = record {
  id = last_given slot.id (map (λ (f : Fragment). f.id) fragments);
  name = last_given slot.name (map (λ (f : Fragment). f.name) fragments);
  arguments =
      append_text slot.arguments
        (concat_texts (map (λ (f : Fragment). get_or_default "" (given f.arguments)) fragments));
}

abbrev pub at_index : ℕ → Fragment → Bool
at_index i fragment = i == fragment.index

-- An index has a slot if it had one or a fragment has that index.
abbrev pub slot_after : Option Slot → List Fragment → Option Slot
slot_after (some slot) fragments = some (assembled slot fragments)
slot_after none [] = none
slot_after none (f ∷ fragments) = some (assembled empty_slot (f ∷ fragments))

pub slot_at-accumulate :
    (i : ℕ) (fragment : Fragment) (slots : Slots)
    → slot_at i (accumulate fragment slots) ≡ (
        if i == fragment.index
        then some (take_fragment fragment (get_or_default empty_slot (slot_at i slots)))
        else slot_at i slots)
slot_at-accumulate i fragment [] = ground arith
slot_at-accumulate i fragment ((j, slot) ∷ slots) =
    ground (arith, slot_at-accumulate i fragment slots)

assembled-take_fragment :
    (fragment : Fragment) (slot : Slot) (fragments : List Fragment)
    → assembled (take_fragment fragment slot) fragments ≡ assembled slot (fragment ∷ fragments)
unfolding take_fragment
assembled-take_fragment fragment slot fragments =
    rw (append_assoc slot.arguments (get_or_default "" (given fragment.arguments)) _) refl

slot_after-take_fragment :
    (slot : Option Slot) (fragment : Fragment) (fragments : List Fragment)
    → slot_after (some (take_fragment fragment (get_or_default empty_slot slot))) fragments
      ≡ slot_after slot (fragment ∷ fragments)
slot_after-take_fragment none fragment fragments =
    ap some (assembled-take_fragment fragment empty_slot fragments)
slot_after-take_fragment (some slot) fragment fragments =
    ap some (assembled-take_fragment fragment slot fragments)

slot_after-nil : (slot : Option Slot) → slot_after slot [] ≡ slot
slot_after-nil none = refl
slot_after-nil (some slot) = rw (append-nil slot.arguments) refl

pub slot_at-accumulate_all :
    (i : ℕ) (fragments : List Fragment) (slots : Slots)
    → slot_at i (accumulate_all fragments slots)
      ≡ slot_after (slot_at i slots) (keep (at_index i) fragments)
slot_at-accumulate_all i [] slots = sym (slot_after-nil (slot_at i slots))
slot_at-accumulate_all i (f ∷ fragments) slots = elim (Bool-cases (i == f.index)) [
  | inl e ↦
      rw (slot_at-accumulate_all i fragments (accumulate f slots), slot_at-accumulate i f slots, e)
        (slot_after-take_fragment (slot_at i slots) f (keep (at_index i) fragments))
  | inr e ↦
      rw (slot_at-accumulate_all i fragments (accumulate f slots), slot_at-accumulate i f slots, e)
        refl
]

-- No index has two slots.
abbrev pub Unique : Slots → Type 0
Unique [] = Unit
Unique ((j, slot) ∷ slots) = (slot_at j slots ≡ none) × Unique slots

accumulate-Unique : (f : Fragment) (slots : Slots) → Unique slots → Unique (accumulate f slots)
accumulate-Unique f [] h = (refl, tt)
accumulate-Unique f ((j, slot) ∷ slots) (fresh, h) = elim (Bool-cases (f.index == j)) [
  | inl e ↦ rw e (fresh, h)
  | inr e ↦ rw e (ground (arith, slot_at-accumulate j f slots), accumulate-Unique f slots h)
]

pub accumulate_all-Unique :
    (fragments : List Fragment) (slots : Slots)
    → Unique slots
    → Unique (accumulate_all fragments slots)
accumulate_all-Unique [] slots h = h
accumulate_all-Unique (f ∷ fragments) slots h =
    accumulate_all-Unique fragments (accumulate f slots) (accumulate-Unique f slots h)

-- The indexes go up.
abbrev pub IsAscending : Slots → Type 0
IsAscending [] = Unit
IsAscending (a ∷ slots) = All (λ b. a.0 < b.0) slots × IsAscending slots

slot_at-none :
    (j k : ℕ) (t : Slot) (slots : Slots)
    → slot_at j ((k, t) ∷ slots) ≡ none
    → (j ≢ k) × (slot_at j slots ≡ none)
slot_at-none j k t slots h = ground arith

slot_at-insert_by :
    (i j : ℕ) (slot : Slot) (slots : Slots)
    → slot_at j slots ≡ none
    → slot_at i (insert_by index_le (j, slot) slots) ≡ slot_at i ((j, slot) ∷ slots)
slot_at-insert_by i j slot [] fresh = refl
slot_at-insert_by i j slot ((k, t) ∷ slots) fresh =
    let (apart, rest) = slot_at-none j k t slots fresh in
    ground (arith, slot_at-insert_by i j slot slots rest)

insert_by-IsAscending :
    (j : ℕ) (slot : Slot) (slots : Slots)
    → slot_at j slots ≡ none
    → IsAscending slots
    → IsAscending (insert_by index_le (j, slot) slots)
insert_by-IsAscending j slot [] fresh h = (tt, tt)
insert_by-IsAscending j slot ((k, t) ∷ slots) fresh (above, h) =
    let (apart, rest) = slot_at-none j k t slots fresh in
    elim (Bool-cases (leb j k)) [
      | inl e ↦
          let below : j < k = ground arith in
          rw e ((below, All-map _ _ slots (λ b q. omega (arith, q, below)) above), (above, h))
      | inr e ↦ rw e (
        All-insert_by index_le (λ b. k < b.0) (j, slot) slots (ground arith) above,
        insert_by-IsAscending j slot slots rest h,
      )
    ]

pub slot_at-sort_by :
    (i : ℕ) (slots : Slots) → Unique slots → slot_at i (sort_by index_le slots) ≡ slot_at i slots
slot_at-sort_by i [] h = refl
slot_at-sort_by i ((j, slot) ∷ slots) (fresh, h) =
    let fresh' = slot_at-sort_by j slots h ∙ fresh in
    rw (slot_at-insert_by i j slot (sort_by index_le slots) fresh', slot_at-sort_by i slots h) refl

pub sort_by-IsAscending : (slots : Slots) → Unique slots → IsAscending (sort_by index_le slots)
sort_by-IsAscending [] h = tt
sort_by-IsAscending ((j, slot) ∷ slots) (fresh, h) =
    insert_by-IsAscending j slot (sort_by index_le slots) (slot_at-sort_by j slots h ∙ fresh)
      (sort_by-IsAscending slots h)
