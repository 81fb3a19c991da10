-- ===== src/Client/New.antt =====
-- client.go: the options of New, New itself and the registrations.
use griffino_go.Base.{
  String, ◌==◌, Bool, true, false, not, ◌||◌, Option, none, some, List, [], ◌∷◌, ◌++◌,
  if◌then◌else◌,
}
use griffino_go.Config.{Config, Env, config_from_env, placeholder_config, with_defaults}
use griffino_go.Errors.{Result, ok, err}
use griffino_go.Lifecycle.{new_lifecycle}
use griffino_go.Models.{
  Handler, ProviderRegistration, ConsumerCapabilityRegistration, ActionRegistration, PluginMetadata,
}
use griffino_go.Client.Interface.{Client, zero_metadata}

-- A field and its `has…` flag are one `Option`; only `WithMetadata`'s value is also read without
-- its flag.
pub record ClientOptions (T : Type 0) : Type 0 where
  pub metadata : PluginMetadata
  pub has_metadata : Bool
  pub config : Option Config
  pub transport : Option T

pub data ClientOption (T : Type 0) : Type 0 where
  with_metadata : PluginMetadata → ClientOption T
  with_config : Config → ClientOption T
  with_transport : T → ClientOption T

module _ {T : Type 0} where
  abbrev pub set_option : ClientOption T → ClientOptions T → ClientOptions T
  set_option (with_metadata m) o = record o { metadata = m; has_metadata = true }
  set_option (with_config c) o = record o { config = some c }
  set_option (with_transport t) o = record o { transport = some t }

  abbrev pub set_options : List (ClientOption T) → ClientOptions T → ClientOptions T
  set_options [] o = o
  set_options (opt ∷ opts) o = set_options opts (set_option opt o)

abbrev pub no_options : {T : Type 0} → ClientOptions T
no_options = record {
  metadata = zero_metadata;
  has_metadata = false;
  config = none;
  transport = none;
}

-- the placeholder for a failed read of the environment
abbrev pub or_placeholder : Bool → String → Result Config → Result Config
or_placeholder has_metadata id (ok c) = ok c
or_placeholder has_metadata id (err e) =
    if not has_metadata || id == "" then err e else ok (placeholder_config id)

abbrev pub resolve : {T : Type 0} → Env → ClientOptions T → Result Config
resolve env o = elim o.config [
  | some c ↦ ok c
  | none ↦ or_placeholder o.has_metadata o.metadata.id (config_from_env env)
]

abbrev pub with_plugin_id : String → Config → Config
with_plugin_id id c = if c.plugin_id == "" then record c { plugin_id = id } else c

-- `new_transport` makes the RabbitMQ transport
abbrev pub client_of : {T : Type 0} → (Config → T) → ClientOptions T → Config → Client T
client_of new_transport o c =
    let cfg = with_plugin_id o.metadata.id (with_defaults c) in
    record {
      metadata = o.metadata;
      config = cfg;
      transport = elim o.transport [ some t ↦ t | none ↦ new_transport cfg ];
      lifecycle = new_lifecycle;
      providers = [];
      consumers = [];
      consumer_capabilities = [];
      actions = [];
    }

abbrev pub build : {T : Type 0} → (Config → T) → ClientOptions T → Result Config → Result (Client T)
build new_transport o (err e) = err e
build new_transport o (ok c) = ok (client_of new_transport o c)

unfoldable pub new : {T : Type 0} → (Config → T) → Env → List (ClientOption T) → Result (Client T)
new new_transport env opts =
    let o = set_options opts no_options in build new_transport o (resolve env o)

module _ {T : Type 0} where
  abbrev pub provider : ProviderRegistration → Client T → Client T
  provider reg c = record c { providers = c.providers ++ reg ∷ [] }

  abbrev pub consumer : String → Handler → Client T → Client T
  consumer event h c = record c {
    consumers = c.consumers ++ record { event = event; handler = h } ∷ [];
  }

  abbrev pub consumer_capability : ConsumerCapabilityRegistration → Client T → Client T
  consumer_capability reg c = record c {
    consumer_capabilities = c.consumer_capabilities ++ reg ∷ [];
  }

  abbrev pub action : ActionRegistration → Client T → Client T
  action reg c = record c { actions = c.actions ++ reg ∷ [] }
