-- ===== src/Declarative/Fields.antt =====
-- declarative_parse.go: one field of a configuration struct with its tag.
pub mod Types
pub mod WellFormed
pub mod Printed
use mathlib.Core.List.{[], ◌∷◌}
use griffino_go.Base.{String, ◌==◌, Bool, true, false, Option, none, some, List, if◌then◌else◌}
use griffino_go.Base.Int.{ℤ}
use griffino_go.Base.Number.{atoi, parse_bool}
use griffino_go.Base.Maps.{Map, lookup}
use griffino_go.Strings.{trim_space}
use griffino_go.Json.{Json, Object, null, bool, int, float, str}
use griffino_go.Errors.{Result, ok, err, ◌>>=◌, config_error}
use griffino_go.Declarative.{
  ConfigFieldType, config_type_int, config_type_float, config_type_boolean, ConfigField,
  ConfigOption,
}
use griffino_go.Declarative.Reflect.{StructField}
use griffino_go.Declarative.Tags.{
  parse_tag_attrs, resolve_field_type, parse_values, parse_validation,
}

-- A required attribute: `allow_empty` tells whether an empty one will do.
abbrev pub required :
    StructField → (allow_empty : Bool) (message : String) → Option String → Result String
required sf allow_empty message none = err (config_error message (sf.name ∷ []))
required sf true message (some value) = ok value
required sf false message (some value) =
    if value == "" then err (config_error message (sf.name ∷ [])) else ok value

abbrev pub optional_or : StructField → (raw : String) → Option Bool → Result Bool
optional_or sf raw (some b) = ok b
optional_or sf raw none =
    err (config_error "config field %s: invalid optional value %q" (sf.name ∷ raw ∷ []))

abbrev pub optional_attr : StructField → Option String → Result Bool
optional_attr sf none = ok false
optional_attr sf (some raw) = optional_or sf raw (parse_bool (trim_space raw))

abbrev pub or_empty : Option String → String
or_empty none = ""
or_empty (some group) = group

abbrev pub values_attr : Option String → List ConfigOption
values_attr none = []
values_attr (some raw) = parse_values raw

abbrev pub int_default : StructField → (raw : String) → Option ℤ → Result Json
int_default sf raw (some n) = ok (int n)
int_default sf raw none =
    err (config_error "config field %s: default %q is not an integer" (sf.name ∷ raw ∷ []))

abbrev pub float_default : StructField → (raw : String) → Option String → Result Json
float_default sf raw (some f) = ok (float f)
float_default sf raw none =
    err (config_error "config field %s: default %q is not a float" (sf.name ∷ raw ∷ []))

abbrev pub boolean_default : StructField → (raw : String) → Option Bool → Result Json
boolean_default sf raw (some b) = ok (bool b)
boolean_default sf raw none =
    err (config_error "config field %s: default %q is not a boolean" (sf.name ∷ raw ∷ []))

module _ (parse_float : String → Option String) where
  unfoldable pub convert_default : StructField → ConfigFieldType → (raw : String) → Result Json
  convert_default sf type raw =
      if type == config_type_int
      then int_default sf raw (atoi (trim_space raw))
      else if type == config_type_float
      then float_default sf raw (parse_float (trim_space raw))
      else if type == config_type_boolean
      then boolean_default sf raw (parse_bool (trim_space raw))
      else ok (str raw)

  abbrev pub validation_attr : StructField → Option String → Result (Option Object)
  validation_attr sf none = ok none
  validation_attr sf (some raw) = parse_validation parse_float sf.name raw

  -- The two fields `HasDefault` and `Default`.
  abbrev pub default_attr : StructField → ConfigFieldType → Option String → Result (Bool × Json)
  default_attr sf type none = ok (false, null)
  default_attr sf type (some raw) = do value ← convert_default sf type raw; ok (true, value)

  unfoldable pub parse_field_tag : StructField → (tag : String) → Result ConfigField
  parse_field_tag sf tag = do
    attrs ← parse_tag_attrs tag
    key ←
        required sf false "config field %s: missing required tag attribute \"key\""
          (lookup "key" attrs)
    name ←
        required sf false "config field %s: missing required tag attribute \"name\""
          (lookup "name" attrs)
    description ←
        required sf true "config field %s: missing required tag attribute \"description\""
          (lookup "description" attrs)
    optional ← optional_attr sf (lookup "optional" attrs)
    type ← resolve_field_type sf attrs
    validation ← validation_attr sf (lookup "validation" attrs)
    default ← default_attr sf type (lookup "default" attrs)
    ok (record {
      key = key;
      type = type;
      name = name;
      description = description;
      optional = optional;
      has_default = default.0;
      default = default.1;
      validation = validation;
      group = or_empty (lookup "group" attrs);
      values = values_attr (lookup "values" attrs);
    })
