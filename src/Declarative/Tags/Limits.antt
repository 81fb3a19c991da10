-- ===== src/Declarative/Tags/Limits.antt =====
-- Bounds that are printed as the documentation of `ParseConfigModel` says.
use Prim.Native.Char.{Char, code}
use mathlib.Core.List.{[], ◌∷◌}
use text.Mathlib.TextLemmas.{append-eq-nil_iff}
use griffino_go.Base.{
  String, true, Option, some, List, ◌≡◌, ◌≢◌, ◌⊎◌, refl, arith, map, All, All-map, test_of_ne,
}
use griffino_go.Base.Int.{ℤ, IsInt64}
use griffino_go.Base.Number.{itoa, is_digit}
use griffino_go.Base.Number.Decimal.{atoi-itoa}
use griffino_go.Base.Maps.{insert}
use griffino_go.Base.Text.{◌<>◌, split}
use griffino_go.Strings.{trim_space, trim_left, trim_right, join, is_space}
use griffino_go.Strings.Split.{Lacks, split-join, cut-append, Lacks-append}
use griffino_go.Strings.Trim.{trim_space-append, trim_right_of_trim_space}
use griffino_go.Strings.Numerals.{trim_space-itoa, Lacks-itoa}
use griffino_go.Json.{Object, int}
use griffino_go.Errors.{ok}
use griffino_go.Declarative.Tags.{
  parse_validation, parse_number, bound_key, nil_if_empty, add_items, add_item,
}

-- The names of a bound.
pub data LimitName : Type 0 where
  min : LimitName
  minimum : LimitName
  max : LimitName
  maximum : LimitName

abbrev pub name_text : LimitName → String
name_text min = "min"
name_text minimum = "minimum"
name_text max = "max"
name_text maximum = "maximum"

-- The key in the schema.
abbrev pub schema_key : LimitName → String
schema_key min = "minimum"
schema_key minimum = "minimum"
schema_key max = "maximum"
schema_key maximum = "maximum"

-- name:number
abbrev pub print_limit : LimitName × ℤ → String
print_limit (name, z) = name_text name <> ":" <> itoa z

unfoldable pub print_limits : List (LimitName × ℤ) → String
print_limits limits = join ";" (map print_limit limits)

-- The object that the limits make, later ones over earlier ones.
abbrev pub put_limits : List (LimitName × ℤ) → Object → Object
put_limits [] m = m
put_limits ((name, z) ∷ limits) m = put_limits limits (insert (schema_key name) (int z) m)

abbrev pub IsLimit : LimitName × ℤ → Type 0
IsLimit limit = IsInt64 (limit.1)

bound_key-name_text : (name : LimitName) → bound_key (name_text name) ≡ some (schema_key name)
unfolding bound_key
bound_key-name_text min = refl
bound_key-name_text minimum = refl
bound_key-name_text max = refl
bound_key-name_text maximum = refl

trim_space-name_text : (name : LimitName) → trim_space (name_text name) ≡ name_text name
unfolding trim_space trim_left trim_right is_space
trim_space-name_text min = refl
trim_space-name_text minimum = refl
trim_space-name_text max = refl
trim_space-name_text maximum = refl

name_text-ne : (name : LimitName) → name_text name ≢ ""
name_text-ne min e = cc
name_text-ne minimum e = cc
name_text-ne max e = cc
name_text-ne maximum e = cc

Lacks-name_text : (name : LimitName) → Lacks b':' (name_text name) × Lacks b';' (name_text name)
Lacks-name_text min = ground arith
Lacks-name_text minimum = ground arith
Lacks-name_text max = ground arith
Lacks-name_text maximum = ground arith

not_semicolon : (c : Char) → (is_digit c ≡ true) ⊎ (code c ≡ b'-') → code c ≢ b';'
not_semicolon c h = ground arith

print_limit-Lacks : (limit : LimitName × ℤ) → Lacks b';' (print_limit limit)
print_limit-Lacks (name, z) =
    Lacks-append b';' (name_text name) _ ((Lacks-name_text name).1)
      (Lacks-append b';' ":" (itoa z) (omega arith) (Lacks-itoa b';' z not_semicolon))

trim_space-print_limit :
    (limit : LimitName × ℤ) → trim_space (print_limit limit) ≡ print_limit limit
trim_space-print_limit (name, z) =
    trim_space-append (name_text name) ":" (itoa z) (trim_space-name_text name) (name_text-ne name)
      (unfold is_space in refl) (trim_right_of_trim_space (itoa z) (trim_space-itoa z))

module _ (parse_float : String → Option String) (field_name : String) where
  parse_number-itoa : (z : ℤ) → IsInt64 z → parse_number parse_float (itoa z) ≡ int z
  unfolding parse_number
  parse_number-itoa z h = rw (atoi-itoa z h)

  add_item-print_limit :
      (name : LimitName) (z : ℤ) (m : Object)
      → IsInt64 z
      → add_item parse_float field_name (print_limit (name, z)) m
        ≡ ok (insert (schema_key name) (int z) m)
  add_item-print_limit name z m h =
      let filled : print_limit (name, z) ≢ "" =
        λ e. name_text-ne name ((append-eq-nil_iff.0 e).0) in
      rw (
        test_of_ne (print_limit (name, z)) "" filled,
        cut-append b':' ":" refl (name_text name) (itoa z) ((Lacks-name_text name).0),
        trim_space-name_text name,
        bound_key-name_text name,
        trim_space-itoa z,
        parse_number-itoa z h,
      )

  add_items-print_limit :
      (limits : List (LimitName × ℤ)) (m : Object)
      → All IsLimit limits
      → add_items parse_float field_name (map print_limit limits) m ≡ ok (put_limits limits m)
  unfolding add_items
  add_items-print_limit [] m h = refl
  add_items-print_limit ((name, z) ∷ limits) m (h, hs) =
      rw (trim_space-print_limit (name, z), add_item-print_limit name z m h)
        (add_items-print_limit limits (insert (schema_key name) (int z) m) hs)

  -- Bounds in the range of an int, printed with their names, are parsed into the object that holds
  -- each of them under its key in the schema, and into no object when there are none.
  pub parse_validation-print_limits :
      (limits : List (LimitName × ℤ))
      → All IsLimit limits
      → parse_validation parse_float field_name (print_limits limits)
        ≡ ok (nil_if_empty (put_limits limits []))
  unfolding parse_validation print_limits
  parse_validation-print_limits [] h =
      unfold join split trim_space trim_left trim_right add_items in refl
  parse_validation-print_limits (limit ∷ limits) h = rw (
    split-join b';' ";" refl (print_limit limit) (map print_limit limits)
        (All-map IsLimit (Lacks b';') print_limit (λ l h. print_limit-Lacks l) (limit ∷ limits) h),
    add_items-print_limit (limit ∷ limits) [] h,
  )
