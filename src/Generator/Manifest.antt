-- ===== src/Generator/Manifest.antt =====
-- The data of plugin.manifest.json.
pub mod Members
use mathlib.Core.List.{List, [], ◌∷◌, ◌++◌, map}
use mathlib.Core.Option
use griffino_go.Base.{String, ◌==◌, Bool, true, false, ◌&&◌, Option, none, some, if◌then◌else◌}
use griffino_go.Base.Int.{ℤ}
use griffino_go.Base.Maps.{Map, insert}
use griffino_go.Base.Text.{◌<>◌}
use griffino_go.Json.{Json, Object, null, bool, int, str, object}
use griffino_go.Models.{
  I18nString, CapabilitySlot, ProviderRegistration, ConsumerCapabilityRegistration,
  ActionRegistration, PluginPermission, PluginInternationalization, PluginMetadata,
}
use griffino_go.Generator.{
  texts, text_list, object_list, translated, insert_text, insert_list, insert_some,
}

abbrev slot_object : CapabilitySlot → Object
slot_object slot =
    ("id", str slot.id)
    ∷ ("name", translated slot.name)
    ∷ ("description", translated slot.description)
    ∷ []

abbrev pub slots_to_manifest : List CapabilitySlot → List Object
slots_to_manifest slots = map slot_object slots

abbrev pub topic_pattern : (plugin_id capability_id : String) → String
topic_pattern plugin_id capability_id = "invoke." <> plugin_id <> "." <> capability_id <> ".v1"

-- the name of a provider, which falls back on its id
abbrev pub provider_name : ProviderRegistration → I18nString
provider_name p =
    if p.name.default == "" && p.name.key == ""
    then record { default = p.capability_id; key = "" }
    else p.name

abbrev provider_base : PluginMetadata → ProviderRegistration → Object
provider_base meta p =
    ("id", str p.capability_id)
    ∷ ("role", str "provider")
    ∷ ("type", str p.capability_type)
    ∷ ("name", translated (provider_name p))
    ∷ ("description", translated p.description)
    ∷ (
      "entryPoint",
      object (
          ("type", str "rabbitmq_topic")
          ∷ (
            "details",
            object (("requestTopicPattern", str (topic_pattern meta.id p.capability_id)) ∷ []),
          )
          ∷ []),
    )
    ∷ []

unfoldable pub provider_capability : PluginMetadata → ProviderRegistration → Object
provider_capability meta p =
    let m₁ = insert_text "standardInterfaceRef" p.standard_interface_ref (provider_base meta p) in
    let m₂ = insert_text "inputSchemaRef" p.input_schema_ref m₁ in
    let m₃ = insert_text "outputSchemaRef" p.output_schema_ref m₂ in
    let m₄ = insert_list "slots" (slots_to_manifest p.slots) m₃ in
    insert_some "defaultTimeoutMilliseconds" (Option.map int p.timeout_ms) m₄

abbrev consumer_base : ConsumerCapabilityRegistration → Object
consumer_base c =
    ("id", str c.capability_id)
    ∷ ("role", str "consumer")
    ∷ ("type", str c.capability_type)
    ∷ ("consumesCapabilityType", str c.capability_type)
    ∷ ("name", translated c.name)
    ∷ ("description", translated c.description)
    ∷ ("optional", bool c.optional)
    ∷ []

unfoldable pub consumer_capability : ConsumerCapabilityRegistration → Object
consumer_capability c = insert_list "slots" (slots_to_manifest c.slots) (consumer_base c)

abbrev pub capabilities :
    PluginMetadata → List ProviderRegistration → List ConsumerCapabilityRegistration → List Object
capabilities meta providers consumers =
    map (provider_capability meta) providers ++ map consumer_capability consumers

unfoldable pub action_entry : ActionRegistration → Object
action_entry a =
    let confirmation =
      insert_some "message" (Option.map translated a.confirmation_message)
        (("required", bool a.confirmation_required) ∷ []) in
    insert_some "cooldownMs" (Option.map int a.cooldown_ms) (
      ("id", str a.action_id)
      ∷ ("name", translated a.name)
      ∷ ("description", translated a.description)
      ∷ ("confirmation", object confirmation)
      ∷ [])

abbrev pub permission_entry : PluginPermission → Object
permission_entry p =
    ("name", str p.name)
    ∷ ("description", translated p.description)
    ∷ ("optional", bool p.optional)
    ∷ []

-- a nil map is null
abbrev pub texts_or_null : Option (Map String) → Json
texts_or_null none = null
texts_or_null (some m) = texts m

abbrev pub languages_entry : PluginInternationalization → Json
languages_entry i = object (
    ("defaultLanguage", str i.default_language)
    ∷ ("supportedLanguages", text_list i.supported_languages)
    ∷ ("localizationFiles", texts_or_null i.localization_files)
    ∷ [])

abbrev pub configuration_files : (has_boot_config has_user_config : Bool) → Map String
configuration_files true true =
    ("bootConfig", "config.boot.json")
    ∷ ("runtimeBoot", "plugin.boot.yml")
    ∷ ("userConfig", "config.user.json")
    ∷ []
configuration_files true false =
    ("bootConfig", "config.boot.json") ∷ ("runtimeBoot", "plugin.boot.yml") ∷ []
configuration_files false true = ("userConfig", "config.user.json") ∷ []
configuration_files false false = []

-- `if len(files) > 0`
abbrev pub files_or_none : Map String → Option Json
files_or_none [] = none
files_or_none (f ∷ fs) = some (texts (f ∷ fs))

unfoldable pub generate_manifest :
    PluginMetadata
    → List ProviderRegistration
    → List ConsumerCapabilityRegistration
    → List ActionRegistration
    → (has_boot_config has_user_config : Bool) → Object
generate_manifest meta providers consumers actions has_boot_config has_user_config =
    let m₀ =
      ("griffinoPluginManifestVersion", str "1.0")
      ∷ ("id", str meta.id)
      ∷ ("pluginVersion", str meta.version)
      ∷ ("name", translated meta.name)
      ∷ ("description", translated meta.description)
      ∷ ("capabilities", object_list (capabilities meta providers consumers))
      ∷ [] in
    let m₁ = insert_list "actions" (map action_entry actions) m₀ in
    let m₂ = insert_text "$schema" meta.manifest_schema m₁ in
    let m₃ = insert_text "author" meta.author m₂ in
    let m₄ = insert "site" (str meta.site) m₃ in
    let m₅ = insert_text "tutorial" meta.tutorial m₄ in
    let m₆ =
      insert_some "internationalization" (Option.map languages_entry meta.internationalization)
        m₅ in
    let m₇ =
      insert_list "permissionsRequested" (map permission_entry meta.permissions_requested) m₆ in
    insert_some "configurationFiles"
      (files_or_none (configuration_files has_boot_config has_user_config)) m₇
