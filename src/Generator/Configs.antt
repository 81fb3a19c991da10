-- ===== src/Generator/Configs.antt =====
-- The data of config.boot.json and config.user.json.
pub mod Entries
pub mod Parsed
use mathlib.Core.List.{List, [], ◌∷◌, map}
use mathlib.Core.Option
use griffino_go.Base.{String, ◌==◌, Bool, true, false, Option, none, some, if◌then◌else◌}
use griffino_go.Base.Maps.{insert}
use griffino_go.Json.{Json, Object, bool, str, object}
use griffino_go.Models.{PluginMetadata}
use griffino_go.Declarative.{ConfigField, ConfigOption, ConfigModelDefinition}
use griffino_go.Generator.{object_list, insert_text, insert_list, insert_some}

abbrev pub option_entry : ConfigOption → Object
option_entry o = ("value", str o.value) ∷ ("display", str o.display) ∷ []

-- the default, if `HasDefault` says that there is one
abbrev pub default_or_none : (has : Bool) → Json → Option Json
default_or_none true v = some v
default_or_none false v = none

unfoldable pub build_config_field_entry : ConfigField → Object
build_config_field_entry field =
    let m₀ =
      ("key", str field.key)
      ∷ ("type", str field.type)
      ∷ ("name", str field.name)
      ∷ ("description", str field.description)
      ∷ ("optional", bool field.optional)
      ∷ [] in
    let m₁ = insert_some "default" (default_or_none field.has_default field.default) m₀ in
    let m₂ = insert_some "validation" (Option.map object field.validation) m₁ in
    let m₃ = insert_text "group" field.group m₂ in
    insert_list "values" (map option_entry field.values) m₃

abbrev pub config_field_entries : ConfigModelDefinition → List Object
config_field_entries def = map build_config_field_entry def.fields

abbrev pub main_service : PluginMetadata → String
main_service meta = if meta.main_service_id == "" then "main-service" else meta.main_service_id

unfoldable pub generate_boot_config : PluginMetadata → ConfigModelDefinition → Object
generate_boot_config meta def =
    let service =
      ("id", str (main_service meta)) ∷ ("configs", object_list (config_field_entries def)) ∷ [] in
    let payload =
      ("GriffinoPluginConfigVersion", str "1.0")
      ∷ ("pluginId", str meta.id)
      ∷ ("pluginVersion", str meta.version)
      ∷ ("name", str meta.name.default)
      ∷ ("site", str meta.site)
      ∷ ("services", object_list (service ∷ []))
      ∷ [] in
    insert_text "tutorial" meta.tutorial (insert_text "$schema" meta.boot_config_schema payload)

unfoldable pub generate_user_config : PluginMetadata → ConfigModelDefinition → Object
generate_user_config meta def =
    let payload =
      ("GriffinoPluginConfigVersion", str "1.0")
      ∷ ("pluginId", str meta.id)
      ∷ ("pluginVersion", str meta.version)
      ∷ ("name", str meta.name.default)
      ∷ ("site", str meta.site)
      ∷ ("configs", object_list (config_field_entries def))
      ∷ [] in
    insert_text "tutorial" meta.tutorial (insert_text "$schema" meta.user_config_schema payload)
