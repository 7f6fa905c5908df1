-- ===== src/Base/Lists.antt =====
-- Lists measured and indexed by native numbers, under the library's names, and the predicates on
-- lists that the components share.
use Prim.Native.Nat.{ℕ, zero, suc, ◌+◌, ◌-◌, ◌≤◌, ◌<◌, min}
use mathlib.Core.Path.{◌≡◌, refl, ap}
use mathlib.Core.Logic.{◌≢◌, ◌⊎◌, inl, inr}
use mathlib.Core.Bool.{Bool, true, false, ◌&&◌, ◌||◌}
use mathlib.Core.List.{List, [], ◌∷◌, ◌++◌}
use mathlib.Core.Option.{Option, none, some}
use native.Mathlib.Omega.{arith}
use deep_foundry.Base.Tests.{if◌then◌else◌}

module _ {ℓ} {A : Type ℓ} where
  abbrev pub length : List A → ℕ
  length [] = 0
  length (x ∷ xs) = suc (length xs)

  abbrev pub get_elem? : List A → ℕ → Option A
  get_elem? [] i = none
  get_elem? (x ∷ xs) zero = some x
  get_elem? (x ∷ xs) (suc i) = get_elem? xs i

  -- A write out of bounds changes nothing.
  abbrev pub set : List A → ℕ → A → List A
  set [] i v = []
  set (x ∷ xs) zero v = v ∷ xs
  set (x ∷ xs) (suc i) v = x ∷ set xs i v

  abbrev pub take : ℕ → List A → List A
  take zero xs = []
  take (suc n) [] = []
  take (suc n) (x ∷ xs) = x ∷ take n xs

  abbrev pub drop : ℕ → List A → List A
  drop zero xs = xs
  drop (suc n) [] = []
  drop (suc n) (x ∷ xs) = drop n xs

  abbrev pub any : (A → Bool) → List A → Bool
  any p [] = false
  any p (x ∷ xs) = p x || any p xs

  abbrev pub all : (A → Bool) → List A → Bool
  all p [] = true
  all p (x ∷ xs) = p x && all p xs

  -- the elements that pass a test, in order
  abbrev pub keep : (A → Bool) → List A → List A
  keep p [] = []
  keep p (x ∷ xs) = let rest = keep p xs in if p x then x ∷ rest else rest

  -- Python's `next((x for x in xs if p(x)), None)` and Django's `filter(...).first()`
  abbrev pub find : (A → Bool) → List A → Option A
  find p [] = none
  find p (x ∷ xs) = let rest = find p xs in if p x then some x else rest

  abbrev pub count_if : (A → Bool) → List A → ℕ
  count_if p [] = 0
  count_if p (x ∷ xs) = (if p x then 1 else 0) + count_if p xs

module _ {ℓ} {A : Type ℓ} where
  pub length-append : (xs ys : List A) → length (xs ++ ys) ≡ length xs + length ys
  length-append [] ys = omega arith
  length-append (x ∷ xs) ys = omega (arith, length-append xs ys)

  pub length-set : (xs : List A) (i : ℕ) (v : A) → length (set xs i v) ≡ length xs
  length-set [] i v = refl
  length-set (x ∷ xs) zero v = refl
  length-set (x ∷ xs) (suc i) v = ap suc (length-set xs i v)

  pub get_elem?-set_self :
      (xs : List A) (i : ℕ) (v : A) → i < length xs → get_elem? (set xs i v) i ≡ some v
  get_elem?-set_self [] i v h = elim h [ ]
  get_elem?-set_self (x ∷ xs) zero v h = refl
  get_elem?-set_self (x ∷ xs) (suc i) v h = get_elem?-set_self xs i v (omega arith)

  pub get_elem?-set_ne :
      (xs : List A) (i j : ℕ) (v : A) → i ≢ j → get_elem? (set xs i v) j ≡ get_elem? xs j
  get_elem?-set_ne [] i j v h = refl
  get_elem?-set_ne (x ∷ xs) zero zero v h = absurd (h refl)
  get_elem?-set_ne (x ∷ xs) zero (suc j) v h = refl
  get_elem?-set_ne (x ∷ xs) (suc i) zero v h = refl
  get_elem?-set_ne (x ∷ xs) (suc i) (suc j) v h = get_elem?-set_ne xs i j v (λ e. h (ap suc e))

  pub get_elem?-lt : (xs : List A) (i : ℕ) (v : A) → get_elem? xs i ≡ some v → i < length xs
  get_elem?-lt [] i v h = cc
  get_elem?-lt (x ∷ xs) zero v h = omega arith
  get_elem?-lt (x ∷ xs) (suc i) v h = omega (arith, get_elem?-lt xs i v h)

  pub get_elem?-append_left :
      (xs ys : List A) (i : ℕ) (v : A) → get_elem? xs i ≡ some v → get_elem? (xs ++ ys) i ≡ some v
  get_elem?-append_left [] ys i v h = cc
  get_elem?-append_left (x ∷ xs) ys zero v h = h
  get_elem?-append_left (x ∷ xs) ys (suc i) v h = get_elem?-append_left xs ys i v h

  -- An element of a list with one more at its end is of the list, or it is that one.
  pub get_elem?-append_cases :
      (xs : List A) (y : A) (i : ℕ) (v : A)
      → get_elem? (xs ++ (y ∷ [])) i ≡ some v
      → (get_elem? xs i ≡ some v) ⊎ ((i ≡ length xs) × (y ≡ v))
  get_elem?-append_cases [] y zero v h = inr (refl, cc h)
  get_elem?-append_cases [] y (suc i) v h = cc
  get_elem?-append_cases (x ∷ xs) y zero v h = inl h
  get_elem?-append_cases (x ∷ xs) y (suc i) v h = elim (get_elem?-append_cases xs y i v h) [
    | inl old ↦ inl old
    | inr (e, same) ↦ inr (ap suc e, same)
  ]

  -- An element of a list in which one is replaced is another of the list, or it is the new one.
  pub get_elem?-set_cases :
      (xs : List A) (i j : ℕ) (y v : A)
      → get_elem? (set xs i y) j ≡ some v
      → ((i ≢ j) × (get_elem? xs j ≡ some v)) ⊎ ((i ≡ j) × (y ≡ v))
  get_elem?-set_cases [] i j y v h = cc
  get_elem?-set_cases (x ∷ xs) zero zero y v h = inr (refl, cc h)
  get_elem?-set_cases (x ∷ xs) zero (suc j) y v h = inl ((λ e. omega (arith, e)), h)
  get_elem?-set_cases (x ∷ xs) (suc i) zero y v h = inl ((λ e. omega (arith, e)), h)
  get_elem?-set_cases (x ∷ xs) (suc i) (suc j) y v h = elim (get_elem?-set_cases xs i j y v h) [
    | inl (other, old) ↦ inl ((λ e. other (omega (arith, e))), old)
    | inr (e, same) ↦ inr (ap suc e, same)
  ]

  pub any-at :
      (p : A → Bool) (xs : List A) (i : ℕ) (v : A)
      → any p xs ≡ false
      → get_elem? xs i ≡ some v
      → p v ≡ false
  any-at p [] i v h e = cc
  any-at p (x ∷ xs) zero v h e = let same : x ≡ v = cc e in rw (← same) (ground (arith, h))
  any-at p (x ∷ xs) (suc i) v h e = any-at p xs i v (ground (arith, h)) e

  pub count_if-le-length : (p : A → Bool) (xs : List A) → count_if p xs ≤ length xs
  count_if-le-length p [] = omega arith
  count_if-le-length p (x ∷ xs) = ground (arith, count_if-le-length p xs)

  pub length-take : (n : ℕ) (xs : List A) → length (take n xs) ≡ min n (length xs)
  length-take zero xs = omega arith
  length-take (suc n) [] = omega arith
  length-take (suc n) (x ∷ xs) = omega (arith, length-take n xs)

  pub length-drop : (n : ℕ) (xs : List A) → length (drop n xs) ≡ length xs - n
  length-drop zero xs = omega arith
  length-drop (suc n) [] = omega arith
  length-drop (suc n) (x ∷ xs) = omega (arith, length-drop n xs)

-- A predicate of every element, by recursion, so that it computes to a tuple.
abbrev pub All {ℓ κ} : {A : Type ℓ} → (A → Type κ) → List A → Type κ
All P [] = Unit
All P (x ∷ xs) = P x × All P xs
