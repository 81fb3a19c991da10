-- ===== src/Declarative/Fields/Printed.antt =====
-- Tags that are printed as the documentation of `ParseConfigModel` says.
use mathlib.Core.List.{[]}
use griffino_go.Base.{
  String, Bool, true, false, Option, none, some, List, ◌≡◌, ◌≢◌, refl, All, OneOf, test_of_ne, inl,
  inr,
}
use griffino_go.Base.Int.{ℤ, IsInt64}
use griffino_go.Base.Number.{itoa, parse_bool}
use griffino_go.Base.Number.Decimal.{atoi-itoa}
use griffino_go.Base.Maps.{Map, lookup}
use griffino_go.Strings.{trim_space, trim_left, trim_right, is_space}
use griffino_go.Strings.Numerals.{trim_space-itoa}
use griffino_go.Json.{Json, Object, null, bool, int, float, str}
use griffino_go.Errors.{ok}
use griffino_go.Declarative.{
  ConfigFieldType, config_type_int, config_type_float, config_type_boolean, ConfigField,
  ConfigOption,
}
use griffino_go.Declarative.Reflect.{StructField}
use griffino_go.Declarative.Tags.{
  resolve_field_type, resolved, is_field_type, inferred_type, nil_if_empty,
}
use griffino_go.Declarative.Tags.Attributes.{
  print_attrs, IsAttr, Distinct, parse_tag_attrs-print_attrs,
}
use griffino_go.Declarative.Tags.Options.{IsOption, print_options, parse_values-print_options}
use griffino_go.Declarative.Tags.Limits.{
  LimitName, IsLimit, print_limits, put_limits, parse_validation-print_limits,
}
use griffino_go.Declarative.Fields.{
  parse_field_tag, optional_attr, values_attr, validation_attr, default_attr, convert_default,
  or_empty,
}
use griffino_go.Declarative.Fields.Types.{field_types}

abbrev pub bool_text : Bool → String
bool_text true = "true"
bool_text false = "false"

-- What an attribute, if it is there, gives for a field.
pub data GivesOptional (o : Option String) (b : Bool) : Type 0 where
  omitted : o ≡ none → b ≡ false → GivesOptional o b
  printed : o ≡ some (bool_text b) → GivesOptional o b

pub data GivesType (sf : StructField) (o : Option String) (t : ConfigFieldType) : Type 0 where
  inferred : o ≡ none → inferred_type sf.kind ≡ some t → GivesType sf o t
  printed : o ≡ some t → OneOf t field_types → GivesType sf o t

pub data GivesValues (o : Option String) (options : List ConfigOption) : Type 0 where
  omitted : o ≡ none → options ≡ [] → GivesValues o options
  printed : o ≡ some (print_options options) → All IsOption options → GivesValues o options

pub data GivesValidation (o : Option String) (v : Option Object) : Type 0 where
  omitted : o ≡ none → v ≡ none → GivesValidation o v
  printed :
      (limits : List (LimitName × ℤ))
      → All IsLimit limits
      → o ≡ some (print_limits limits)
      → v ≡ nil_if_empty (put_limits limits [])
      → GivesValidation o v

optional_attr-GivesOptional :
    (sf : StructField) (o : Option String) (b : Bool)
    → GivesOptional o b
    → optional_attr sf o ≡ ok b
optional_attr-GivesOptional sf o b (GivesOptional.omitted e i) = rw (e, i)
optional_attr-GivesOptional sf o true (GivesOptional.printed e) =
    rw e (unfold trim_space trim_left trim_right is_space parse_bool in refl)
optional_attr-GivesOptional sf o false (GivesOptional.printed e) =
    rw e (unfold trim_space trim_left trim_right is_space parse_bool in refl)

values_attr-GivesValues :
    (o : Option String) (options : List ConfigOption)
    → GivesValues o options
    → values_attr o ≡ options
values_attr-GivesValues o options (GivesValues.omitted e i) = rw (e, i)
values_attr-GivesValues o options (GivesValues.printed e h) =
    rw e (parse_values-print_options options h)

abbrev IsKnown : ConfigFieldType → Type 0
IsKnown t = (is_field_type t ≡ true) × (trim_space t ≡ t)

OneOf-IsKnown : (t : ConfigFieldType) → OneOf t field_types → IsKnown t
unfolding trim_space trim_left trim_right is_space
OneOf-IsKnown t (inl e) = rw e (refl, refl)
OneOf-IsKnown t (inr (inl e)) = rw e (refl, refl)
OneOf-IsKnown t (inr (inr (inl e))) = rw e (refl, refl)
OneOf-IsKnown t (inr (inr (inr (inl e)))) = rw e (refl, refl)
OneOf-IsKnown t (inr (inr (inr (inr (inl e))))) = rw e (refl, refl)
OneOf-IsKnown t (inr (inr (inr (inr (inr (inl e)))))) = rw e (refl, refl)
OneOf-IsKnown t (inr (inr (inr (inr (inr (inr (inl e))))))) = rw e (refl, refl)
OneOf-IsKnown t (inr (inr (inr (inr (inr (inr (inr x))))))) = elim x [ ]

resolved-GivesType :
    (sf : StructField) (o : Option String) (t : ConfigFieldType)
    → GivesType sf o t
    → resolved sf o ≡ ok t
resolved-GivesType sf o t (GivesType.inferred e i) = rw (e, i)
resolved-GivesType sf o t (GivesType.printed e h) =
    let (known, trimmed) = OneOf-IsKnown t h in rw (e, trimmed, known)

module _ (parse_float : String → Option String) where
  pub data GivesDefault (t : ConfigFieldType) (o : Option String) (has : Bool) (v : Json)
      : Type 0 where
    omitted : o ≡ none → has ≡ false → v ≡ null → GivesDefault t o has v
    an_int :
        (z : ℤ)
        → IsInt64 z
        → t ≡ config_type_int
        → o ≡ some (itoa z)
        → has ≡ true
        → v ≡ int z
        → GivesDefault t o has v
    a_float :
        (raw f : String)
        → t ≡ config_type_float
        → parse_float (trim_space raw) ≡ some f
        → o ≡ some raw
        → has ≡ true
        → v ≡ float f
        → GivesDefault t o has v
    a_boolean :
        (b : Bool)
        → t ≡ config_type_boolean
        → o ≡ some (bool_text b)
        → has ≡ true
        → v ≡ bool b
        → GivesDefault t o has v
    a_text :
        (raw : String)
        → t ≢ config_type_int
        → t ≢ config_type_float
        → t ≢ config_type_boolean
        → o ≡ some raw
        → has ≡ true
        → v ≡ str raw
        → GivesDefault t o has v

  -- The attributes say of a field what it holds.
  pub record Describes (sf : StructField) (attrs : Map String) (f : ConfigField) : Type 0 where
    pub key_printed : lookup "key" attrs ≡ some f.key
    pub key_ne : f.key ≢ ""
    pub name_printed : lookup "name" attrs ≡ some f.name
    pub name_ne : f.name ≢ ""
    pub description_printed : lookup "description" attrs ≡ some f.description
    pub optional_given : GivesOptional (lookup "optional" attrs) f.optional
    pub type_given : GivesType sf (lookup "type" attrs) f.type
    pub validation_given : GivesValidation (lookup "validation" attrs) f.validation
    pub default_given : GivesDefault f.type (lookup "default" attrs) f.has_default f.default
    pub group_given : or_empty (lookup "group" attrs) ≡ f.group
    pub values_given : GivesValues (lookup "values" attrs) f.values

  validation_attr-GivesValidation :
      (sf : StructField) (o : Option String) (v : Option Object)
      → GivesValidation o v
      → validation_attr parse_float sf o ≡ ok v
  validation_attr-GivesValidation sf o v (GivesValidation.omitted e i) = rw (e, i)
  validation_attr-GivesValidation sf o v (GivesValidation.printed limits h e i) =
      rw (e, i) (parse_validation-print_limits parse_float sf.name limits h)

  boolean-trimmed : (b : Bool) → parse_bool (trim_space (bool_text b)) ≡ some b
  unfolding trim_space trim_left trim_right is_space parse_bool
  boolean-trimmed true = refl
  boolean-trimmed false = refl

  default_attr-GivesDefault :
      (sf : StructField) (t : ConfigFieldType) (o : Option String) (has : Bool) (v : Json)
      → GivesDefault t o has v
      → default_attr parse_float sf t o ≡ ok (has, v)
  unfolding convert_default
  default_attr-GivesDefault sf t o has v (GivesDefault.omitted e h i) = rw (e, h, i)
  default_attr-GivesDefault sf t o has v (GivesDefault.an_int z r k e h i) =
      rw (e, h, i, k, trim_space-itoa z, atoi-itoa z r)
  default_attr-GivesDefault sf t o has v (GivesDefault.a_float raw f k p e h i) = rw (e, h, i, k, p)
  default_attr-GivesDefault sf t o has v (GivesDefault.a_boolean b k e h i) =
      rw (e, h, i, k, boolean-trimmed b)
  default_attr-GivesDefault sf t o has v (GivesDefault.a_text raw m n k e h i) = rw (
    e,
    h,
    i,
    test_of_ne t config_type_int m,
    test_of_ne t config_type_float n,
    test_of_ne t config_type_boolean k,
  )

  -- parseFieldTag of a tag that is printed from distinct attributes gives the very field that they
  -- describe. The attributes may stand in any order. They say key and name, not empty, and the
  -- description; optional, type, default, validation, group and values may be left out, the type if
  -- it can be inferred. Types, booleans, int64 numbers, options and bounds are printed in the
  -- documented grammar, a float is any text that parse_float reads once it is trimmed, another
  -- default is its own text. Names and values hold nothing that would end them early in the tag or
  -- be trimmed away.
  pub parse_field_tag-print_attrs :
      (sf : StructField) (attrs : Map String) (f : ConfigField)
      → All IsAttr attrs
      → Distinct attrs
      → Describes sf attrs f
      → parse_field_tag parse_float sf (print_attrs attrs) ≡ ok f
  unfolding parse_field_tag resolve_field_type
  parse_field_tag-print_attrs sf attrs f h d g = rw (
    parse_tag_attrs-print_attrs attrs h d,
    g.key_printed,
    test_of_ne f.key "" g.key_ne,
    g.name_printed,
    test_of_ne f.name "" g.name_ne,
    g.description_printed,
    optional_attr-GivesOptional sf (lookup "optional" attrs) f.optional g.optional_given,
    resolved-GivesType sf (lookup "type" attrs) f.type g.type_given,
    validation_attr-GivesValidation sf (lookup "validation" attrs) f.validation g.validation_given,
    default_attr-GivesDefault sf f.type (lookup "default" attrs) f.has_default f.default
        g.default_given,
    g.group_given,
    values_attr-GivesValues (lookup "values" attrs) f.values g.values_given,
  )
