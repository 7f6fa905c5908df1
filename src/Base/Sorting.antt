-- ===== src/Base/Sorting.antt =====
-- Stable insertion sort by a Boolean order, for the rows that a query orders, and the search for the
-- first row that passes a test.
use Prim.Native.Nat.{ℕ, ◌+◌}
use mathlib.Core.Path.{◌≡◌, refl, subst, sym}
use mathlib.Core.Logic.{inl, inr, ◌↔◌}
use mathlib.Core.Bool.{Bool, true, false}
use mathlib.Core.Option.{none, some}
use mathlib.Core.List.{List, [], ◌∷◌, Memᴰ}
use native.Mathlib.Omega.{arith}
use deep_foundry.Base.Tests.{if◌then◌else◌, Bool-cases}
use deep_foundry.Base.Lists.{All, find, keep, count_if}

module _ {ℓ} {A : Type ℓ} where
  pub All-map : (P Q : A → Type 0) (xs : List A) → ((x : A) → P x → Q x) → All P xs → All Q xs
  All-map P Q [] f h = tt
  All-map P Q (x ∷ xs) f h = (f x h.0, All-map P Q xs f h.1)

  pub All-zip : (P Q : A → Type 0) (xs : List A) → All P xs → All Q xs → All (λ x. P x × Q x) xs
  All-zip P Q [] h k = tt
  All-zip P Q (x ∷ xs) h k = ((h.0, k.0), All-zip P Q xs h.1 k.1)

  pub everywhere : (P : A → Type 0) (xs : List A) → ((x : A) → P x) → All P xs
  everywhere P [] f = tt
  everywhere P (x ∷ xs) f = (f x, everywhere P xs f)

module _ {A : Type 0} where
  pub All-Memᴰ : (xs : List A) → All (λ x. Memᴰ x xs) xs
  All-Memᴰ [] = tt
  All-Memᴰ (x ∷ xs) = (
    Memᴰ.head refl,
    All-map (λ y. Memᴰ y xs) (λ y. Memᴰ y (x ∷ xs)) xs (λ y m. Memᴰ.tail m) (All-Memᴰ xs),
  )

module _ {A : Type 0} where
  pub All-at : (P : A → Type 0) {x : A} {xs : List A} → Memᴰ x xs → All P xs → P x
  All-at P {xs = []} m h = elim m [ ]
  All-at P {xs = y ∷ ys} (Memᴰ.head e) h = rw e h.0
  All-at P {xs = y ∷ ys} (Memᴰ.tail m) h = All-at P m h.1

module _ {A : Type 0} (p : A → Bool) where
  -- What `find` returns passes the test, and satisfies what every element does.
  pub find_sound :
      (P : A → Type 0) (xs : List A) (x : A) → find p xs ≡ some x → All P xs → (p x ≡ true) × P x
  find_sound P [] x e h = cc
  find_sound P (y ∷ xs) x e h = elim (Bool-cases (p y)) [
    | inl passes ↦ let same : y ≡ x = ground arith in rw (← same) (passes, h.0)
    | inr fails ↦ find_sound P xs x (rw fails at e) h.1
  ]

  -- If nothing is found, every element fails the test.
  pub find-none : (xs : List A) → find p xs ≡ none → All (λ x. p x ≡ false) xs
  find-none [] e = tt
  find-none (y ∷ xs) e = elim (Bool-cases (p y)) [
    | inl passes ↦ cc (rw passes at e)
    | inr fails ↦ (fails, find-none xs (rw fails at e))
  ]

module _ {A : Type 0} (le : A → A → Bool) where
  abbrev pub insert_by : A → List A → List A
  insert_by a [] = a ∷ []
  insert_by a (x ∷ xs) = if le a x then a ∷ x ∷ xs else x ∷ insert_by a xs

  -- Rows that compare equal keep their order.
  abbrev pub sort_by : List A → List A
  sort_by [] = []
  sort_by (x ∷ xs) = insert_by x (sort_by xs)

  -- Each element comes before or at every later one.
  abbrev pub IsOrdered : List A → Type 0
  IsOrdered [] = Unit
  IsOrdered (x ∷ xs) = All (λ y. le x y ≡ true) xs × IsOrdered xs

  module _ (P : A → Type 0) where
    pub All-insert_by : (a : A) (xs : List A) → P a → All P xs → All P (insert_by a xs)
    All-insert_by a [] h hs = (h, tt)
    All-insert_by a (x ∷ xs) h hs = elim (Bool-cases (le a x)) [
      | inl e ↦ rw e (h, hs)
      | inr e ↦ rw e (hs.0, All-insert_by a xs h hs.1)
    ]

    pub All-sort_by : (xs : List A) → All P xs → All P (sort_by xs)
    All-sort_by [] h = tt
    All-sort_by (x ∷ xs) h = All-insert_by x (sort_by xs) h.0 (All-sort_by xs h.1)

    All-of_insert_by : (a : A) (xs : List A) → All P (insert_by a xs) → P a × All P xs
    All-of_insert_by a [] h = h
    All-of_insert_by a (x ∷ xs) h = elim (Bool-cases (le a x)) [
      | inl e ↦ rw e at h
      | inr e ↦
          let h' : P x × All P (insert_by a xs) = rw e at h in
          let (ha, hs) = All-of_insert_by a xs h'.1 in (ha, (h'.0, hs))
    ]

    pub All-of_sort_by : (xs : List A) → All P (sort_by xs) → All P xs
    All-of_sort_by [] h = tt
    All-of_sort_by (x ∷ xs) h =
        let (hx, hs) = All-of_insert_by x (sort_by xs) h in (hx, All-of_sort_by xs hs)

  module _ (total : (a b : A) → le a b ≡ false → le b a ≡ true)
      (trans : (a b c : A) → le a b ≡ true → le b c ≡ true → le a c ≡ true) where
    insert_by-IsOrdered : (a : A) (xs : List A) → IsOrdered xs → IsOrdered (insert_by a xs)
    insert_by-IsOrdered a [] h = (tt, tt)
    insert_by-IsOrdered a (x ∷ xs) h = elim (Bool-cases (le a x)) [
      | inl e ↦ rw e ((e, All-map _ _ xs (λ y q. trans a x y e q) h.0), h)
      | inr e ↦
          rw e (
            All-insert_by (λ y. le x y ≡ true) a xs (total a x e) h.0,
            insert_by-IsOrdered a xs h.1,
          )
    ]

    pub sort_by-IsOrdered : (xs : List A) → IsOrdered (sort_by xs)
    sort_by-IsOrdered [] = tt
    sort_by-IsOrdered (x ∷ xs) = insert_by-IsOrdered x (sort_by xs) (sort_by-IsOrdered xs)

  -- In an ordered list the first that passes comes before or at every other that passes.
  pub find-least :
      (p : A → Bool) (same : (a : A) → le a a ≡ true) (xs : List A) (x : A)
      → IsOrdered xs
      → find p xs ≡ some x
      → All (λ y. p y ≡ true → le x y ≡ true) xs
  find-least p same [] x h e = tt
  find-least p same (y ∷ xs) x h e = elim (Bool-cases (p y)) [
    | inl passes ↦
        let same' : y ≡ x = ground arith in
        subst (λ z. All (λ w. p w ≡ true → le z w ≡ true) (y ∷ xs)) same'
          ((λ _. same y), All-map _ _ xs (λ z q _. q) h.0)
    | inr fails ↦ ((λ q. cc), find-least p same xs x h.1 (rw fails at e))
  ]

module _ {A : Type 0} (q : A → Bool) (P : A → Type 0) where
  -- What holds of every row, given that it is selected, holds of the selected rows.
  pub All-keep : (xs : List A) → All (λ x. q x ≡ true → P x) xs → All P (keep q xs)
  All-keep [] h = tt
  All-keep (x ∷ xs) h = elim (Bool-cases (q x)) [
    | inl e ↦ rw e (h.0 e, All-keep xs h.1)
    | inr e ↦ rw e (All-keep xs h.1)
  ]

  pub All-of_keep : (xs : List A) → All P (keep q xs) → All (λ x. q x ≡ true → P x) xs
  All-of_keep [] h = tt
  All-of_keep (x ∷ xs) h = elim (Bool-cases (q x)) [
    | inl e ↦ let h' : P x × All P (keep q xs) = rw e at h in ((λ _. h'.0), All-of_keep xs h'.1)
    | inr e ↦ ((λ t. cc), All-of_keep xs (rw e at h))
  ]

-- The first element of a list with a property.
pub data First {A : Type 0} (P : A → Type 0) (x : A) : List A → Type 0 where
  here : (xs : List A) → P x → First P x (x ∷ xs)
  later : (y : A) (xs : List A) → (P y → ⊥) → First P x xs → First P x (y ∷ xs)

-- So many elements of a list have a property.
pub data Counted {A : Type 0} (P : A → Type 0) : List A → ℕ → Type 0 where
  none_left : Counted P [] 0
  has : (x : A) (xs : List A) (n : ℕ) → P x → Counted P xs n → Counted P (x ∷ xs) (1 + n)
  lacks : (x : A) (xs : List A) (n : ℕ) → (P x → ⊥) → Counted P xs n → Counted P (x ∷ xs) (0 + n)

module _ {A : Type 0} (p : A → Bool) (P : A → Type 0) (decides : (x : A) → (p x ≡ true) ↔ P x) where
  pub find-First : (xs : List A) (x : A) → find p xs ≡ some x → First P x xs
  find-First [] x e = cc
  find-First (y ∷ xs) x e = elim (Bool-cases (p y)) [
    | inl passes ↦
        let same : y ≡ x = ground arith in
        subst (λ z. First P x (z ∷ xs)) (sym same) (here xs (subst P same ((decides y).0 passes)))
    | inr fails ↦ later y xs (λ h. cc ((decides y).1 h)) (find-First xs x (rw fails at e))
  ]

  pub First-find : (xs : List A) (x : A) → First P x xs → find p xs ≡ some x
  First-find [] x h = elim h [ ]
  First-find (y ∷ xs) x (here _ h) = rw ((decides x).1 h) refl
  First-find (y ∷ xs) x (later _ _ fails h) = elim (Bool-cases (p y)) [
    | inl passes ↦ absurd (fails ((decides y).0 passes))
    | inr e ↦ rw e (First-find xs x h)
  ]

  -- If nothing is found, no element has the property.
  pub find-none_has : (xs : List A) → find p xs ≡ none → All (λ x. P x → ⊥) xs
  find-none_has [] e = tt
  find-none_has (y ∷ xs) e = elim (Bool-cases (p y)) [
    | inl passes ↦ cc (rw passes at e)
    | inr fails ↦ ((λ h. cc ((decides y).1 h)), find-none_has xs (rw fails at e))
  ]

  pub count_if-Counted : (xs : List A) → Counted P xs (count_if p xs)
  count_if-Counted [] = none_left
  count_if-Counted (y ∷ xs) = elim (Bool-cases (p y)) [
    | inl passes ↦ rw passes (has y xs _ ((decides y).0 passes) (count_if-Counted xs))
    | inr fails ↦ rw fails (lacks y xs _ (λ h. cc ((decides y).1 h)) (count_if-Counted xs))
  ]
