-- ===== src/Base/Text.antt =====
-- Texts taken apart: Python's `str.split` on one character and `str.startswith`.
use Prim.Native.Char.{Char, code}
use Prim.Native.String.{String}
pub use Prim.Native.String.{◌++◌ as append_text}
pub use text.Mathlib.TextLemmas.{nil-append, append-nil, append_assoc}
use mathlib.Core.Bool.{Bool, ◌||◌}
use text.Mathlib.Text.{starts_with}
use mathlib.Core.List.{List, [], ◌∷◌}
use Prim.Native.Nat.{ℕ}
use deep_foundry.Base.Tests.{if◌then◌else◌, ◌==◌}

abbrev push_front : Char → List String → List String
push_front c [] = String.◌∷◌ c String.[] ∷ []
push_front c (w ∷ ws) = String.◌∷◌ c w ∷ ws

-- `s.split(sep)` for the separator with that code; the empty text splits into one empty text.
unfoldable pub split_on : ℕ → String → List String
split_on sep String.[] = "" ∷ []
split_on sep (String.◌∷◌ c s) =
    let rest = split_on sep s in if code c == sep then "" ∷ rest else push_front c rest

-- `part in s` on texts.
unfoldable pub contains_text : String → String → Bool
contains_text part String.[] = starts_with "" part
contains_text part (String.◌∷◌ c s) = starts_with (String.◌∷◌ c s) part || contains_text part s

-- The texts of a list, one after another.
abbrev pub concat_texts : List String → String
concat_texts [] = ""
concat_texts (s ∷ ss) = append_text s (concat_texts ss)
