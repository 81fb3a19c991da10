-- ===== src/Declarative/Tags.antt =====
-- declarative_parse.go: what stands in a struct tag, as texts. `parse_float` is
-- `strconv.ParseFloat(s, 64)`, with the number as the text of its literal.
pub mod Attributes
pub mod Options
pub mod Bounds
pub mod Limits
use Prim.Native.Nat.{ℕ}
use mathlib.Core.List.{[], ◌∷◌}
use griffino_go.Base.{String, ◌==◌, Bool, ◌||◌, Option, none, some, List, if◌then◌else◌}
use griffino_go.Base.Int.{ℤ}
use griffino_go.Base.Number.{atoi, parse_bool}
use griffino_go.Base.Maps.{Map, lookup, insert}
use griffino_go.Base.Text.{split}
use griffino_go.Strings.{trim_space, cut}
use griffino_go.Json.{Json, Object, bool, int, float, str}
use griffino_go.Errors.{Result, ok, err, ◌>>=◌, config_error}
use griffino_go.Declarative.{
  ConfigFieldType, config_type_string, config_type_int, config_type_float, config_type_boolean,
  config_type_password, config_type_options, config_type_multiline_string, ConfigOption,
}
use griffino_go.Declarative.Reflect.{StructField, Kind, kind_text}

abbrev pub comma : ℕ
comma = b','

-- one pair of the tag, split at its first '='
abbrev pub add_attr : (pair : String) → Map String → Option (String × String) → Result (Map String)
add_attr pair attrs none =
    err (config_error "invalid tag segment %q: expected attr=value" (pair ∷ []))
add_attr pair attrs (some (key, value)) =
    if trim_space key == ""
    then err (config_error "invalid tag segment %q: empty attribute name" (pair ∷ []))
    else ok (insert (trim_space key) value attrs)

abbrev pub add_pair : (pair : String) → Map String → Result (Map String)
add_pair pair attrs = if pair == "" then ok attrs else add_attr pair attrs (cut b'=' pair)

unfoldable pub add_pairs : (pairs : List String) → Map String → Result (Map String)
add_pairs [] attrs = ok attrs
add_pairs (pair ∷ pairs) attrs = add_pair (trim_space pair) attrs >>= λ more. add_pairs pairs more

unfoldable pub parse_tag_attrs : (tag : String) → Result (Map String)
unfolding add_pairs
parse_tag_attrs tag = add_pairs (split comma tag) []

abbrev pub is_field_type : ConfigFieldType → Bool
is_field_type t =
    t == config_type_string
    || t == config_type_int
    || t == config_type_float
    || t == config_type_boolean
    || t == config_type_password
    || t == config_type_options
    || t == config_type_multiline_string

abbrev pub explicit_type : StructField → (raw : String) → Result ConfigFieldType
explicit_type sf raw =
    if is_field_type (trim_space raw)
    then ok (trim_space raw)
    else err (config_error "config field %s: unknown type %q" (sf.name ∷ raw ∷ []))

-- The type that goes with the kind of a field; `none` where there is none.
unfoldable pub inferred_type : Kind → Option ConfigFieldType
inferred_type Kind.string = some config_type_string
inferred_type Kind.int = some config_type_int
inferred_type Kind.int8 = some config_type_int
inferred_type Kind.int16 = some config_type_int
inferred_type Kind.int32 = some config_type_int
inferred_type Kind.int64 = some config_type_int
inferred_type Kind.float32 = some config_type_float
inferred_type Kind.float64 = some config_type_float
inferred_type Kind.bool = some config_type_boolean
inferred_type _ = none

abbrev pub or_no_type : StructField → Option ConfigFieldType → Result ConfigFieldType
or_no_type sf (some t) = ok t
or_no_type sf none = err (
    config_error
      "config field %s: cannot infer config field type from Go type %s; set type=... explicitly"
      (sf.name ∷ kind_text sf.kind ∷ []))

abbrev pub resolved : StructField → Option String → Result ConfigFieldType
resolved sf (some raw) = explicit_type sf raw
resolved sf none = or_no_type sf (inferred_type sf.kind)

unfoldable pub resolve_field_type : StructField → (attrs : Map String) → Result ConfigFieldType
resolve_field_type sf attrs = resolved sf (lookup "type" attrs)

abbrev pub option_of : (item : String) → Option (String × String) → ConfigOption
option_of item none = record { value = item; display = item }
option_of item (some (value, display)) = record {
  value = trim_space value;
  display = trim_space display;
}

unfoldable pub value_items : List String → List ConfigOption
value_items [] = []
value_items (raw ∷ raws) =
    let rest = value_items raws in
    if trim_space raw == ""
    then rest
    else option_of (trim_space raw) (cut b':' (trim_space raw)) ∷ rest

unfoldable pub parse_values : (raw : String) → List ConfigOption
unfolding value_items
parse_values raw = value_items (split b'|' raw)

-- "minimum" and "maximum", under their short names as well
unfoldable pub bound_key : String → Option String
bound_key key =
    if key == "min" || key == "minimum"
    then some "minimum"
    else if key == "max" || key == "maximum"
    then some "maximum"
    else none

-- the map, or nil when it is empty
abbrev pub nil_if_empty : Object → Option Object
nil_if_empty [] = none
nil_if_empty (bound ∷ bounds) = some (bound ∷ bounds)

module _ (parse_float : String → Option String) where
  abbrev pub float_or_text : (s : String) → Option String → Json
  float_or_text s (some f) = float f
  float_or_text s none = str s

  abbrev pub number_or : (s : String) → Option ℤ → Json
  number_or s (some i) = int i
  number_or s none = float_or_text s (parse_float s)

  unfoldable pub parse_number : String → Json
  parse_number s = number_or s (atoi s)

  abbrev pub put_bound : (field_name key value : String) → Object → Option String → Result Object
  put_bound field_name key value validation none =
      err (config_error "config field %s: unknown validation key %q" (field_name ∷ key ∷ []))
  put_bound field_name key value validation (some bound) =
      ok (insert bound (parse_number (trim_space value)) validation)

  abbrev pub add_bound :
      (field_name item : String) → Object → Option (String × String) → Result Object
  add_bound field_name item validation none = err (
      config_error "config field %s: invalid validation segment %q: expected key:value"
        (field_name ∷ item ∷ []))
  add_bound field_name item validation (some (key, value)) =
      put_bound field_name (trim_space key) value validation (bound_key (trim_space key))

  abbrev pub add_item : (field_name item : String) → Object → Result Object
  add_item field_name item validation =
      if item == "" then ok validation else add_bound field_name item validation (cut b':' item)

  unfoldable pub add_items : (field_name : String) (items : List String) → Object → Result Object
  add_items field_name [] validation = ok validation
  add_items field_name (item ∷ items) validation =
      add_item field_name (trim_space item) validation >>= λ more. add_items field_name items more

  unfoldable pub parse_validation : (field_name raw : String) → Result (Option Object)
  unfolding add_items
  parse_validation field_name raw = do
    validation ← add_items field_name (split b';' raw) []
    ok (nil_if_empty validation)
