-- ===== src/Client/Interface.antt =====
-- client.go and transport.go: the state of a client, and the transport that it speaks through.
use griffino_go.Base.{Option, none, List, []}
use griffino_go.Config.{Config}
use griffino_go.Json.{Object}
use griffino_go.Errors.{Result}
use griffino_go.Context.{HandlerContext}
use griffino_go.Lifecycle.{Lifecycle}
use griffino_go.Models.{
  Handler, I18nString, ProviderRegistration, ConsumerRegistration, ConsumerCapabilityRegistration,
  ActionRegistration, PluginMetadata, InvokeRequest, DispatchRequest,
}

abbrev pub Runner : Type 0
Runner = Handler → HandlerContext → Result (Option Object)

-- The interface Transport of transport.go. A method takes the state of the transport and gives its
-- result with the new state.
pub record Transport (T : Type 0) : Type 0 where
  pub start : T → Result (Unit {0}) × T
  pub close : T → Result (Unit {0}) × T
  pub invoke : InvokeRequest → T → Result (Option Object) × T
  pub dispatch : DispatchRequest → T → Result (Unit {0}) × T
  pub start_provider_consumers : List ProviderRegistration → Runner → T → Result (Unit {0}) × T
  pub start_event_consumers : List ConsumerRegistration → Runner → T → Result (Unit {0}) × T
  pub start_action_consumers : List ActionRegistration → Runner → T → Result (Unit {0}) × T

pub record Client (T : Type 0) : Type 0 where
  pub metadata : PluginMetadata
  pub config : Config
  pub transport : T
  pub lifecycle : Lifecycle
  pub providers : List ProviderRegistration
  pub consumers : List ConsumerRegistration
  pub consumer_capabilities : List ConsumerCapabilityRegistration
  pub actions : List ActionRegistration

-- The zero value of PluginMetadata.
abbrev pub no_text : I18nString
no_text = record { default = ""; key = "" }

abbrev pub zero_metadata : PluginMetadata
zero_metadata = record {
  id = "";
  name = no_text;
  version = "";
  description = no_text;
  main_service_id = "";
  author = "";
  license = "";
  site = "";
  main_system_version = "";
  required_plugins = [];
  permissions_requested = [];
  tutorial = "";
  internationalization = none;
  manifest_schema = "";
  boot_config_schema = "";
  user_config_schema = "";
}
