-- ===== src/Models.antt =====
-- models.go and transport.go: handlers, registrations, metadata and requests.
use griffino_go.Base.{String, ◌==◌, Bool, Option, List, [], ◌∷◌, if◌then◌else◌}
use griffino_go.Base.Int.{ℤ}
use griffino_go.Base.Maps.{Map}
use griffino_go.Json.{Object}
use griffino_go.Errors.{Error}
use griffino_go.Context.{HandlerContext}

-- What a call of a handler ends in: its two results, or the value of its panic as text.
pub data Outcome : Type 0 where
  returned : (result : Option Object) → Outcome
  failed : (result : Option Object) → Error → Outcome
  panicked : String → Outcome

-- What a handler gives for a context. A handler that uses the client while it runs, and so changes
-- the transport, is not one of these.
abbrev pub Handler : Type 0
Handler = HandlerContext → Outcome

pub record I18nString : Type 0 where
  pub default : String
  pub key : String

-- the optional key of `I18n` is the head of a list
unfoldable pub i18n : String → List String → I18nString
i18n def [] = record { default = def; key = "" }
i18n def (k ∷ _) = record { default = def; key = k }

unfoldable pub to_manifest : I18nString → Map String
to_manifest s =
    if s.key == ""
    then ("default", s.default) ∷ []
    else ("default", s.default) ∷ ("_i18n_key", s.key) ∷ []

pub record CapabilitySlot : Type 0 where
  pub id : String
  pub name : I18nString
  pub description : I18nString

pub record ProviderRegistration : Type 0 where
  pub capability_id : String
  pub capability_type : String
  pub handler : Handler
  pub name : I18nString
  pub description : I18nString
  pub standard_interface_ref : String
  pub input_schema_ref : String
  pub output_schema_ref : String
  pub timeout_ms : Option ℤ
  pub slots : List CapabilitySlot

pub record ConsumerRegistration : Type 0 where
  pub event : String
  pub handler : Handler

pub record ConsumerCapabilityRegistration : Type 0 where
  pub capability_id : String
  pub capability_type : String
  pub name : I18nString
  pub description : I18nString
  pub optional : Bool
  pub slots : List CapabilitySlot

pub record ActionRegistration : Type 0 where
  pub action_id : String
  pub handler : Handler
  pub name : I18nString
  pub description : I18nString
  pub confirmation_required : Bool
  pub confirmation_message : Option I18nString
  pub cooldown_ms : Option ℤ

pub record PluginPermission : Type 0 where
  pub name : String
  pub description : I18nString
  pub optional : Bool

pub record PluginInternationalization : Type 0 where
  pub default_language : String
  pub supported_languages : List String
  pub localization_files : Option (Map String)

pub record PluginMetadata : Type 0 where
  pub id : String
  pub name : I18nString
  pub version : String
  pub description : I18nString
  pub main_service_id : String
  pub author : String
  pub license : String
  pub site : String
  pub main_system_version : String
  pub required_plugins : List String
  pub permissions_requested : List PluginPermission
  pub tutorial : String
  pub internationalization : Option PluginInternationalization
  pub manifest_schema : String
  pub boot_config_schema : String
  pub user_config_schema : String

pub record InvokeRequest : Type 0 where
  pub capability_type : String
  pub payload : Option Object
  pub user_id : String
  pub plugin_id : String
  pub task_id : String
  pub slot : String
  pub timeout_ms : ℤ

pub record DispatchRequest : Type 0 where
  pub event : String
  pub payload : Option Object
  pub user_id : String
  pub plugin_id : String
  pub task_id : String
