-- ===== src/Client/Identity.antt =====
-- The configuration, the metadata and the transport of a new client.
use griffino_go.Base.{
  String, ◌==◌, Bool, true, false, Option, none, some, List, [], ◌≡◌, ◌≢◌, inl, inr, refl,
  Bool-cases, ne_of_test, test_of_ne, ap, sym, ◌∙◌, subst,
}
use griffino_go.Config.{Config, Env, config_from_env, placeholder_config, with_defaults}
use griffino_go.Config.Defaults.{IsComplete, with_defaults-IsComplete}
use griffino_go.Config.Environment.{config_from_env-fields}
use griffino_go.Errors.{Result, ok, err}
use griffino_go.Lifecycle.{is_started}
use griffino_go.Models.{PluginMetadata}
use griffino_go.Client.Interface.{Client, zero_metadata}
use griffino_go.Client.New.{
  ClientOptions, ClientOption, set_options, no_options, or_placeholder, resolve, with_plugin_id,
  client_of, build, new,
}
use griffino_go.Client.Requests.{get_or}
use griffino_go.Client.Serve.{is_serving}
use griffino_go.Client.Construction.{
  last_config, last_metadata, last_transport, agreed, Agrees, set_options-config,
  set_options-transport,
}

placeholder_config-plugin_id : (id : String) → (placeholder_config id).plugin_id ≡ id
unfolding placeholder_config
placeholder_config-plugin_id id = (with_defaults-IsComplete _).1

or_placeholder-identified :
    (env : Env) (has : Bool) (id : String) (r : Result Config) {c : Config}
    → config_from_env env ≡ r
    → or_placeholder has id r ≡ ok c
    → c.plugin_id ≢ ""
or_placeholder-identified env has id (ok c') {c} e h = (config_from_env-fields env c (e ∙ h)).2
or_placeholder-identified env false id (err error) e h = cc
or_placeholder-identified env true id (err error) {c} e h = elim (Bool-cases (id == "")) [
  | inl empty ↦ cc (rw empty at h)
  | inr given ↦
      let same : placeholder_config id ≡ c = cc (rw given at h) in
      let named = ap (λ (k : Config). k.plugin_id) same in
      rw (sym named ∙ placeholder_config-plugin_id id) (ne_of_test id "" given)
]

with_plugin_id-ne :
    (id : String) (c : Config) → c.plugin_id ≢ "" → (with_plugin_id id c).plugin_id ≢ ""
with_plugin_id-ne id c h = rw (test_of_ne c.plugin_id "" h) h

with_plugin_id-IsComplete :
    (id : String) (c : Config) → IsComplete c → IsComplete (with_plugin_id id c)
with_plugin_id-IsComplete id c h = elim (Bool-cases (c.plugin_id == "")) [
  | inl e ↦
      simp e (record { port = h.port; timeout = h.timeout; router = h.router; plugin = h.plugin })
  | inr e ↦ rw e h
]

metadata_of_Agrees :
    (has : Bool) (m : PluginMetadata) (given : Option PluginMetadata)
    → Agrees has m given
    → m ≡ get_or given zero_metadata
metadata_of_Agrees has m none a = a.1
metadata_of_Agrees has m (some m') a = a.1

module _ {T : Type 0} where
  -- What a new client has to be, whatever it was made from.
  pub record IsNew (make : Config → T) (opts : List (ClientOption T)) (c : Client T) : Type 0 where
    pub complete : IsComplete c.config
    pub metadata : c.metadata ≡ get_or (last_metadata opts none) zero_metadata
    pub transport : c.transport ≡ get_or (last_transport opts none) (make c.config)
    pub identified : last_config opts none ≡ none → c.config.plugin_id ≢ ""
    pub not_serving : is_serving c ≡ false
    pub nothing_registered :
        (c.providers ≡ []) × (c.consumers ≡ []) × (c.consumer_capabilities ≡ []) × (c.actions ≡ [])

  resolve-identified :
      (env : Env) (o : ClientOptions T) {c : Config}
      → o.config ≡ none
      → resolve env o ≡ ok c
      → c.plugin_id ≢ ""
  resolve-identified env o e h =
      or_placeholder-identified env o.has_metadata o.metadata.id (config_from_env env) refl
        (rw e at h)

  transport_of :
      (o given : Option T) (t : T) → o ≡ given → elim o [ some u ↦ u | none ↦ t ] ≡ get_or given t
  transport_of none given t e = rw (← e) refl
  transport_of (some u) given t e = rw (← e) refl

  client_of-IsNew :
      (make : Config → T) (env : Env) (opts : List (ClientOption T)) (c : Config)
      → resolve env (set_options opts no_options) ≡ ok c
      → IsNew make opts (client_of make (set_options opts no_options) c)
  unfolding is_started
  client_of-IsNew make env opts c h =
      let o = set_options opts no_options in
      let (complete, same_id, _, _) = with_defaults-IsComplete c in
      record {
        complete = with_plugin_id-IsComplete o.metadata.id (with_defaults c) complete;
        metadata =
            metadata_of_Agrees o.has_metadata o.metadata (last_metadata opts none) (agreed opts);
        transport = transport_of o.transport _ _ (set_options-transport opts no_options);
        identified = λ e.
            with_plugin_id-ne o.metadata.id (with_defaults c)
              (rw same_id (resolve-identified env o (set_options-config opts no_options ∙ e) h));
        not_serving = refl;
        nothing_registered = (refl, refl, refl, refl);
      }

  build-eq-ok :
      (make : Config → T) (o : ClientOptions T) (r : Result Config) {c : Client T}
      → build make o r ≡ ok c
      → (cfg : Config) × (r ≡ ok cfg) × (client_of make o cfg ≡ c)
  build-eq-ok make o (ok cfg) h = (cfg, refl, cc)
  build-eq-ok make o (err e) h = cc

  -- A client that New returns has a complete configuration, the last metadata and the last
  -- transport that were given or else the zero metadata and a RabbitMQ transport, nothing
  -- registered, and does not serve yet; unless a configuration was given it has a plugin id.
  pub new-IsNew :
      (make : Config → T) (env : Env) (opts : List (ClientOption T)) (c : Client T)
      → new make env opts ≡ ok c
      → IsNew make opts c
  unfolding new
  new-IsNew make env opts c h =
      let o = set_options opts no_options in
      let (cfg, found, same) = build-eq-ok make o (resolve env o) h in
      subst (IsNew make opts) same (client_of-IsNew make env opts cfg found)
