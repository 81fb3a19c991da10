-- ===== src/Tests/FieldTags.antt =====
-- The tag of a field.
use mathlib.Core.List.{[], ◌∷◌}
use griffino_go.Base.{String, some, true, ◌≡◌, ◌≢◌, refl, inl, inr, All, arith, ne_of_test}
use griffino_go.Base.Int.{pos, negsuc}
use griffino_go.Base.Number.{itoa}
use griffino_go.Base.Maps.{Map, lookup, insert}
use griffino_go.Strings.{is_space, trim_left, trim_right, trim_space, join}
use griffino_go.Strings.Split.{Lacks}
use griffino_go.Json.{int}
use griffino_go.Errors.{ok}
use griffino_go.Declarative.{ConfigField}
use griffino_go.Declarative.Reflect.{StructField, Kind}
use griffino_go.Declarative.Tags.{comma}
use griffino_go.Declarative.Tags.Attributes.{print_attrs, IsAttr}
use griffino_go.Declarative.Tags.Options.{print_options, IsOption}
use griffino_go.Declarative.Tags.Limits.{print_limits, min, maximum}
use griffino_go.Declarative.Fields.{parse_field_tag}
use griffino_go.Declarative.Fields.Printed.{
  GivesOptional, GivesType, GivesValidation, GivesDefault, GivesValues, parse_field_tag-print_attrs,
}
use griffino_go.Tests.Samples.{only_one}

abbrev port_field : StructField
port_field = record { name = "Port"; pkg_path = ""; tags = []; kind = Kind.string }

abbrev port_attrs : Map String
port_attrs =
    ("name", "The = port")
    ∷ ("key", "PORT")
    ∷ ("description", " where it listens")
    ∷ ("optional", "true")
    ∷ ("type", "int")
    ∷ ("validation", "min:-1;maximum:65535")
    ∷ ("default", "8080")
    ∷ ("values", "80:HTTP: plain|8080:proxy")
    ∷ []

abbrev described : ConfigField
described = record {
  key = "PORT";
  type = "int";
  name = "The = port";
  description = " where it listens";
  optional = true;
  has_default = true;
  default = int (pos 8080);
  validation = some (("minimum", int (negsuc 0)) ∷ ("maximum", int (pos 65535)) ∷ []);
  group = "";
  values =
      record { value = "80"; display = "HTTP: plain" }
      ∷ record { value = "8080"; display = "proxy" }
      ∷ [];
}

attr :
    (name value : String)
    → (name ≢ "") × (trim_space name ≡ name) × (trim_right value ≡ value)
    → Lacks b'=' name × Lacks comma name × Lacks comma value
    → IsAttr (name, value)
attr name value (filled, name_trimmed, value_trimmed) (equals, name_comma, value_comma) = record {
  name_ne = filled;
  name_trimmed = name_trimmed;
  name_equals = equals;
  name_comma = name_comma;
  value_comma = value_comma;
  value_trimmed = value_trimmed;
}

port_attrs-IsAttr : All IsAttr port_attrs
unfolding trim_space trim_left trim_right is_space
port_attrs-IsAttr = (
  attr "name" "The = port" (ne_of_test "name" "" refl, refl, refl) (omega arith),
  (
    attr "key" "PORT" (ne_of_test "key" "" refl, refl, refl) (omega arith),
    (
      attr "description" " where it listens" (ne_of_test "description" "" refl, refl, refl)
          (omega arith),
      (
        attr "optional" "true" (ne_of_test "optional" "" refl, refl, refl) (omega arith),
        (
          attr "type" "int" (ne_of_test "type" "" refl, refl, refl) (omega arith),
          (
            attr "validation" "min:-1;maximum:65535" (ne_of_test "validation" "" refl, refl, refl)
                (omega arith),
            (
              attr "default" "8080" (ne_of_test "default" "" refl, refl, refl) (omega arith),
              (
                attr "values" "80:HTTP: plain|8080:proxy" (ne_of_test "values" "" refl, refl, refl)
                    (omega arith),
                tt,
              ),
            ),
          ),
        ),
      ),
    ),
  ),
)

described-IsOption : All IsOption described.values
unfolding trim_space trim_left trim_right is_space
described-IsOption = (
  record {
    value_ne = ne_of_test "80" "" refl;
    value_trimmed = refl;
    value_colon = omega arith;
    value_bar = omega arith;
    display_trimmed = refl;
    display_bar = omega arith;
  },
  (
    record {
      value_ne = ne_of_test "8080" "" refl;
      value_trimmed = refl;
      value_colon = omega arith;
      value_bar = omega arith;
      display_trimmed = refl;
      display_bar = omega arith;
    },
    tt,
  ),
)

parse_field_tag-print_attrs_example :
    parse_field_tag only_one port_field (print_attrs port_attrs) ≡ ok described
unfolding lookup insert itoa join print_limits print_options
parse_field_tag-print_attrs_example =
    parse_field_tag-print_attrs only_one port_field port_attrs described port_attrs-IsAttr
      (refl, (refl, (refl, (refl, (refl, (refl, (refl, (refl, tt))))))))
      (record {
        key_printed = refl;
        key_ne = ne_of_test "PORT" "" refl;
        name_printed = refl;
        name_ne = ne_of_test "The = port" "" refl;
        description_printed = refl;
        optional_given = GivesOptional.printed refl;
        type_given = GivesType.printed refl (inr (inl refl));
        validation_given =
            GivesValidation.printed ((min, negsuc 0) ∷ (maximum, pos 65535) ∷ []) (omega arith) refl
              refl;
        default_given = GivesDefault.an_int (pos 8080) (omega arith) refl refl refl refl;
        group_given = refl;
        values_given = GivesValues.printed refl described-IsOption;
      })
