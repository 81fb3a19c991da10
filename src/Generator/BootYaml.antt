-- ===== src/Generator/BootYaml.antt =====
-- The data of plugin.boot.yml and the environment of its main service.
pub mod Environment
use mathlib.Core.List.{List, [], ◌∷◌, ◌++◌, map}
use griffino_go.Base.{String, ◌==◌, Bool, true, false, ◌||◌, Option, none, some, if◌then◌else◌}
use griffino_go.Json.{Json, Object, str, arr, nil, object}
use griffino_go.Errors.{Result, ok, err, config_error}
use griffino_go.Models.{PluginMetadata}
use griffino_go.Strings.{cut}
use griffino_go.Declarative.{ConfigModelDefinition, ConfigField, config_kind_boot}
use griffino_go.Generator.{text_list}

abbrev pub system_environment_variables : List String
system_environment_variables =
    "RABBITMQ_HOST={{system.rabbitmq.host}}" ∷ "RABBITMQ_PORT={{system.rabbitmq.port}}"
    ∷ "RABBITMQ_USER={{system.rabbitmq.user}}" ∷ "RABBITMQ_PASSWORD={{system.rabbitmq.password}}"
    ∷ "REDIS_HOST={{system.redis.host}}" ∷ "REDIS_PORT={{system.redis.port}}"
    ∷ "REDIS_USER={{system.redis.user}}" ∷ "REDIS_PASSWORD={{system.redis.password}}" ∷ []

abbrev pub field_key : ConfigField → String
field_key field = field.key

-- The environment of the main service, before the file is written.
abbrev pub declared_environment : ConfigModelDefinition → List String
declared_environment def = system_environment_variables ++ map field_key def.fields

abbrev pub service_data : List String → Object
service_data environment =
    ("image", str "")
    ∷ ("environment", text_list environment)
    ∷ ("ports", arr nil)
    ∷ ("volumes", arr nil)
    ∷ []

abbrev pub boot_yaml_data : PluginMetadata → ConfigModelDefinition → Object
boot_yaml_data meta def =
    ("pluginBootSpecVersion", str "1.0")
    ∷ ("pluginId", str meta.id)
    ∷ ("pluginVersion", str meta.version)
    ∷ ("mainServiceId", str meta.main_service_id)
    ∷ (
      "services",
      object ((meta.main_service_id, object (service_data (declared_environment def))) ∷ []),
    )
    ∷ []

unfoldable pub generate_boot_yaml_data : PluginMetadata → ConfigModelDefinition → Result Object
generate_boot_yaml_data meta def =
    if meta.main_service_id == ""
    then err (config_error "MainServiceID is required to generate plugin.boot.yml" [])
    else if def.kind == config_kind_boot
    then ok (boot_yaml_data meta def)
    else err (config_error "plugin.boot.yml requires a boot config model" [])

abbrev before_equals : (entry : String) → Option (String × String) → String
before_equals entry none = entry
before_equals entry (some (key, rest)) = key

-- the name of an entry, in front of its '='
unfoldable pub env_key : (entry : String) → String
env_key entry = before_equals entry (cut b'=' entry)

-- The set of names; `systemKeys[key]` asks whether it holds one.
abbrev pub system_env_keys : List String
system_env_keys = map env_key system_environment_variables

abbrev pub has_key : (keys : List String) (key : String) → Bool
has_key [] key = false
has_key (k ∷ keys) key = k == key || has_key keys key

unfoldable pub plugin_entries : (environment : List String) → List String
plugin_entries [] = []
plugin_entries (entry ∷ environment) =
    let rest = plugin_entries environment in
    if has_key system_env_keys (env_key entry) then rest else entry ∷ rest

unfoldable pub build_boot_yaml_environment : (environment : List String) → List String
unfolding plugin_entries
build_boot_yaml_environment environment = system_environment_variables ++ plugin_entries environment
