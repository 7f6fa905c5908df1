-- ===== src/Json.antt =====
-- The JSON values that Django's JSON columns and Python's `json` module hold, with Python's `==`,
-- truth value and dictionary lookup on them.
use deep_foundry.Base.{
  ℕ, ◌+◌, ◌*◌, ◌^◌, String, str_eq, Bool, true, false, ◌&&◌, not, Option, none, some, List, [], ◌∷◌,
  ◌==◌, leb, length,
}
use deep_foundry.Base.Int.{ℤ, pos, pos_part, neg_part}
use deep_foundry.Base.Dict.{Dict, lookup}

-- `number m p` is m / 10 ^ p, an int or a decimal fraction as it is written in JSON text.
mutual
  pub data Json : Type 0 where
    null : Json
    boolean : Bool → Json
    number : ℤ → ℕ → Json
    text : String → Json
    array : Items → Json
    object : Fields → Json

  pub data Items : Type 0 where
    nil : Items
    cons : Json → Items → Items

  pub data Fields : Type 0 where
    end : Fields
    field : String → Json → Fields → Fields

-- The elements of an array, and the entries of an object.
abbrev pub elements : Items → List Json
elements nil = []
elements (cons v vs) = v ∷ elements vs

abbrev pub entries : Fields → Dict Json
entries end = []
entries (field k v fs) = (k, v) ∷ entries fs

-- `value.get(key)` on a dict, and `None` on every other value
abbrev pub get : String → Json → Option Json
get key (object fs) = lookup key (entries fs)
get key _ = none

-- Numbers compare by value, whatever their number of places.
abbrev pub same_number : ℤ → ℕ → ℤ → ℕ → Bool
same_number a p b q =
    (pos_part a * 10 ^ q == pos_part b * 10 ^ p) && (neg_part a * 10 ^ q == neg_part b * 10 ^ p)

abbrev pub le_number : ℤ → ℕ → ℤ → ℕ → Bool
le_number a p b q =
    leb (pos_part a * 10 ^ q + neg_part b * 10 ^ p) (pos_part b * 10 ^ p + neg_part a * 10 ^ q)

-- Python counts `True` as 1 and `False` as 0.
abbrev pub as_int : Bool → ℤ
as_int true = pos 1
as_int false = pos 0

-- What `==` asks of an entry under a key: that the other dict has one, and it is equal.
abbrev found_equal : (Json → Bool) → Option Json → Bool
found_equal test none = false
found_equal test (some w) = test w

unfoldable mutual
  -- Python's `==`. Two dicts are equal if they have as many entries, and each entry of one is
  -- found in the other.
  pub json_eq : Json → Json → Bool
  json_eq null null = true
  json_eq (boolean a) (boolean b) = same_number (as_int a) 0 (as_int b) 0
  json_eq (boolean a) (number n p) = same_number (as_int a) 0 n p
  json_eq (number m p) (boolean b) = same_number m p (as_int b) 0
  json_eq (number m p) (number n q) = same_number m p n q
  json_eq (text s) (text t) = str_eq s t
  json_eq (array vs) (array ws) = items_eq vs (elements ws)
  json_eq (object fs) (object gs) =
      (length (entries fs) == length (entries gs)) && fields_in fs (entries gs)
  json_eq _ _ = false

  pub items_eq : Items → List Json → Bool
  items_eq nil [] = true
  items_eq (cons v vs) (w ∷ ws) = json_eq v w && items_eq vs ws
  items_eq _ _ = false

  pub fields_in : Fields → Dict Json → Bool
  fields_in end d = true
  fields_in (field k v fs) d = found_equal (json_eq v) (lookup k d) && fields_in fs d

-- Python's `bool(value)`.
abbrev pub truthy : Json → Bool
truthy null = false
truthy (boolean b) = b
truthy (number n p) = not (same_number n p (pos 0) 0)
truthy (text s) = not (str_eq s "")
truthy (array nil) = false
truthy (array (cons _ _)) = true
truthy (object end) = false
truthy (object (field _ _ _)) = true

-- `value is not None`, and `.get(key)` without its distinction of `None` and no entry
abbrev pub or_null : Option Json → Json
or_null none = null
or_null (some v) = v

abbrev pub is_null : Json → Bool
is_null null = true
is_null _ = false

abbrev pub is_text : String → Json → Bool
is_text s (text t) = str_eq s t
is_text s _ = false
