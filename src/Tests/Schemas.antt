-- ===== src/Tests/Schemas.antt =====
-- Configuration models.
use mathlib.Core.List.{map}
use griffino_go.Base.{some, ◌≡◌, ◌↔◌, refl, All}
use griffino_go.Base.Maps.{lookup, insert}
use griffino_go.Base.Number.{atoi, parse_bool}
use griffino_go.Base.Text.{split}
use griffino_go.Strings.{is_space, trim_left, trim_right, trim_space, cut}
use griffino_go.Errors.{ok, configuration}
use griffino_go.Errors.Classified.{Classified}
use griffino_go.Declarative.{config_kind_boot}
use griffino_go.Declarative.Reflect.{other, Kind}
use griffino_go.Declarative.Tags.{
  parse_tag_attrs, resolve_field_type, parse_validation, parse_values, bound_key, parse_number,
}
use griffino_go.Declarative.Fields.{parse_field_tag, convert_default}
use griffino_go.Declarative.Fields.WellFormed.{IsWellFormed}
use griffino_go.Declarative.Models.{parse_config_model}
use griffino_go.Declarative.Models.Order.{
  IsReadFrom, parse_config_model_iff, parse_config_model-All-IsWellFormed,
}
use griffino_go.Declarative.Models.Failures.{parse_config_model-Classified}
use griffino_go.Generator.Configs.{config_field_entries}
use griffino_go.Generator.Configs.Entries.{read_entry}
use griffino_go.Generator.Configs.Parsed.{read_entry-parse_config_model}
use griffino_go.Tests.Samples.{port_model, port_definition, only_one}

parse_config_model_iff_example :
    (parse_config_model only_one (some port_model) config_kind_boot ≡ ok port_definition)
    ↔ IsReadFrom only_one port_model config_kind_boot port_definition
parse_config_model_iff_example =
    parse_config_model_iff only_one port_model config_kind_boot port_definition

port_model-parsed :
    parse_config_model only_one (some port_model) config_kind_boot ≡ ok port_definition
unfolding parse_config_model parse_field_tag parse_tag_attrs resolve_field_type parse_validation
    parse_values convert_default split trim_space trim_left trim_right is_space cut lookup insert
    atoi parse_bool bound_key parse_number
port_model-parsed = refl

parse_config_model-All-IsWellFormed_example : All IsWellFormed port_definition.fields
parse_config_model-All-IsWellFormed_example =
    parse_config_model-All-IsWellFormed only_one port_model config_kind_boot port_definition
      port_model-parsed

parse_config_model-Classified_example :
    Classified configuration (parse_config_model only_one (some (other Kind.map)) config_kind_boot)
parse_config_model-Classified_example =
    parse_config_model-Classified only_one (some (other Kind.map)) config_kind_boot

read_entry-parse_config_model_example :
    map read_entry (config_field_entries port_definition) ≡ port_definition.fields
read_entry-parse_config_model_example =
    read_entry-parse_config_model only_one port_model config_kind_boot port_definition
      port_model-parsed
