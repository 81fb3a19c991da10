-- ===== src/Strings.antt =====
-- More of package strings, on the same texts as Base.Text: what cuts a text and trims it.
pub mod Split
pub mod Trim
pub mod Chars
pub mod Numerals
use Prim.Native.Char.{Char, code}
use Prim.Native.String.{[], ◌∷◌}
use mathlib.Core.List.{List, [], ◌∷◌}
use griffino_go.Base.{ℕ, String, Bool, ◌||◌, ◌&&◌, Option, none, some, eqb, leb, if◌then◌else◌}
use griffino_go.Base.Text.{◌<>◌}

-- `unicode.IsSpace`: the code points with the property White_Space
unfoldable pub is_space : Char → Bool
is_space c =
    (leb 9 (code c) && leb (code c) 13)
    || eqb (code c) 0x20
    || eqb (code c) 0x85
    || eqb (code c) 0xA0
    || eqb (code c) 0x1680
    || (leb 0x2000 (code c) && leb (code c) 0x200A)
    || eqb (code c) 0x2028
    || eqb (code c) 0x2029
    || eqb (code c) 0x202F
    || eqb (code c) 0x205F
    || eqb (code c) 0x3000

unfoldable pub trim_left : String → String
trim_left [] = []
trim_left (c ∷ s) = let rest = trim_left s in if is_space c then rest else c ∷ s

abbrev pub trim_onto : Char → String → String
trim_onto c [] = if is_space c then [] else c ∷ []
trim_onto c (d ∷ s) = c ∷ d ∷ s

unfoldable pub trim_right : String → String
trim_right [] = []
trim_right (c ∷ s) = trim_onto c (trim_right s)

-- `strings.TrimSpace`
unfoldable pub trim_space : String → String
unfolding trim_left trim_right
trim_space s = trim_left (trim_right s)

abbrev pub put_front : Char → Option (String × String) → Option (String × String)
put_front c none = none
put_front c (some (before, after)) = some (c ∷ before, after)

-- `i := strings.IndexByte(s, sep)` with `s[:i]` and `s[i+1:]`; `none` is a negative index
unfoldable pub cut : (sep : ℕ) → String → Option (String × String)
cut sep [] = none
cut sep (c ∷ s) =
    let rest = cut sep s in if eqb (code c) sep then some ([], s) else put_front c rest

-- `strings.Join`
unfoldable pub join : (sep : String) → List String → String
join sep [] = ""
join sep (p ∷ []) = p
join sep (p ∷ q ∷ ps) = p <> sep <> join sep (q ∷ ps)
