-- ===== src/Generator/Configs/Parsed.antt =====
-- From a struct with tags to the entries of a file, and back.
use mathlib.Core.List.{List, [], ◌∷◌, map}
use griffino_go.Base.{String, Bool, true, false, Option, some, ◌≡◌, refl, All}
use griffino_go.Errors.{ok}
use griffino_go.Json.{Json, null}
use griffino_go.Declarative.{ConfigField, ConfigFieldType, ConfigKind, ConfigModelDefinition}
use griffino_go.Declarative.Reflect.{GoType}
use griffino_go.Declarative.Fields.Types.{FitsDefault}
use griffino_go.Declarative.Fields.WellFormed.{IsWellFormed}
use griffino_go.Declarative.Models.{parse_config_model}
use griffino_go.Declarative.Models.Order.{parse_config_model-All-IsWellFormed}
use griffino_go.Generator.Configs.{build_config_field_entry, config_field_entries}
use griffino_go.Generator.Configs.Entries.{read_entry, read_entry-build_config_field_entry}

null_of_FitsDefault :
    (t : ConfigFieldType) (has : Bool) (v : Json) → FitsDefault t has v → has ≡ false → v ≡ null
null_of_FitsDefault t true v h e = cc
null_of_FitsDefault t false v h e = h

map-read_entry :
    (fs : List ConfigField)
    → All IsWellFormed fs
    → map read_entry (map build_config_field_entry fs) ≡ fs
map-read_entry [] h = refl
map-read_entry (f ∷ fs) (h, hs) = rw (
  read_entry-build_config_field_entry f
      (null_of_FitsDefault f.type f.has_default f.default h.default),
  map-read_entry fs hs,
)

-- The entries that are generated for a model that was parsed hold all of its fields: reading the
-- members of each entry back gives the fields of the definition, in their order.
pub read_entry-parse_config_model :
    (parse_float : String → Option String) (t : GoType) (kind : ConfigKind)
    (d : ConfigModelDefinition)
    → parse_config_model parse_float (some t) kind ≡ ok d
    → map read_entry (config_field_entries d) ≡ d.fields
read_entry-parse_config_model parse_float t kind d e =
    map-read_entry d.fields (parse_config_model-All-IsWellFormed parse_float t kind d e)
