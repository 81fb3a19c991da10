-- ===== src/Base/Text.antt =====
-- The functions of package strings that the source calls. A Go string is a text of code points:
-- one that is not valid UTF-8 is not modelled. An ASCII byte of a text is a character of its own,
-- so a search for it by bytes or by characters finds the same place.
use Prim.Native.Nat.{ℕ}
use Prim.Native.Char.{Char, code}
use Prim.Native.String
use Prim.Native.String.{String, [], ◌∷◌}
use mathlib.Core.List.{List, [], ◌∷◌}
use griffino_go.Base.Tests.{eqb, if◌then◌else◌}

infixr 66 ◌<>◌
abbrev pub ◌<>◌ : String → String → String
s <> t = String.◌++◌ s t

abbrev pub single : Char → String
single c = c ∷ []

-- `strings.Split(s, sep)` for a separator of one byte
module _ (sep : ℕ) where
  abbrev pub cons_part : Char → List String → List String
  cons_part c [] = single c ∷ []
  cons_part c (p ∷ ps) = (c ∷ p) ∷ ps

  unfoldable pub split : String → List String
  split [] = [] ∷ []
  split (c ∷ s) = let parts = split s in if eqb (code c) sep then [] ∷ parts else cons_part c parts
