-- ===== src/Client/Construction.antt =====
-- What New makes of its options and of the environment.
use griffino_go.Base.{
  ◌==◌, Bool, true, false, Option, none, some, List, [], ◌∷◌, ◌≡◌, ◌≢◌, ◌↔◌, ◌⊎◌, inl, inr, refl,
  Bool-cases, ne_of_test, test_of_ne,
}
use griffino_go.Config.{Config, Env, config_from_env, placeholder_config}
use griffino_go.Config.Environment.{IsConfigured, config_from_env_iff}
use griffino_go.Errors.{Result, ok, err}
use griffino_go.Errors.Succeeds.{Succeeds}
use griffino_go.Models.{PluginMetadata}
use griffino_go.Client.Interface.{zero_metadata}
use griffino_go.Client.New.{
  ClientOptions, ClientOption, with_metadata, with_config, with_transport, set_option, set_options,
  no_options, or_placeholder, resolve, build, new,
}

abbrev pub Agrees : Bool → PluginMetadata → Option PluginMetadata → Type 0
Agrees has m none = (has ≡ false) × (m ≡ zero_metadata)
Agrees has m (some m') = (has ≡ true) × (m ≡ m')

-- The metadata that were given, with an id.
abbrev pub HasIdentity : Option PluginMetadata → Type 0
HasIdentity none = ⊥
HasIdentity (some m) = m.id ≢ ""

abbrev pub Given : Option Config → Type 0
Given none = ⊥
Given (some c) = Unit

-- The ways to a configuration.
abbrev pub IsResolvable : Env → Option Config → Option PluginMetadata → Type 0
IsResolvable env config metadata = Given config ⊎ (IsConfigured env ⊎ HasIdentity metadata)

or_placeholder_of :
    (has : Bool) (m : PluginMetadata) (given : Option PluginMetadata) (r : Result Config)
    → Agrees has m given
    → Succeeds r ⊎ HasIdentity given
    → Succeeds (or_placeholder has m.id r)
or_placeholder_of has m given (ok c) a h = (c, refl)
or_placeholder_of has m given (err e) a (inl (c, p)) = cc
or_placeholder_of has m (some m') (err e) a (inr ne) =
    (placeholder_config m.id, rw (a.0, a.1, test_of_ne m'.id "" ne) refl)
or_placeholder_of has m none (err e) a (inr ne) = absurd ne

of_or_placeholder :
    (has : Bool) (m : PluginMetadata) (given : Option PluginMetadata) (r : Result Config)
    → Agrees has m given
    → Succeeds (or_placeholder has m.id r)
    → Succeeds r ⊎ HasIdentity given
of_or_placeholder has m given (ok c) a s = inl (c, refl)
of_or_placeholder has m none (err e) (p, q) (c, s) = cc (rw p at s)
of_or_placeholder has m (some m') (err e) (p, q) (c, s) = elim (Bool-cases (m'.id == "")) [
  | inl t ↦ cc (rw (p, q, t) at s)
  | inr f ↦ inr (ne_of_test m'.id "" f)
]

resolvable :
    (env : Env) (given : Option PluginMetadata)
    → IsResolvable env none given
    → Succeeds (config_from_env env) ⊎ HasIdentity given
resolvable env given (inl none_given) = absurd none_given
resolvable env given (inr (inl c)) = inl ((config_from_env_iff env).1 c)
resolvable env given (inr (inr i)) = inr i

module _ {T : Type 0} where
  -- What the last option of a kind gives, read off the list of options from its end.
  abbrev pub last_config : List (ClientOption T) → Option Config → Option Config
  last_config [] before = before
  last_config (with_config c ∷ opts) before = last_config opts (some c)
  last_config (_ ∷ opts) before = last_config opts before

  abbrev pub last_metadata : List (ClientOption T) → Option PluginMetadata → Option PluginMetadata
  last_metadata [] before = before
  last_metadata (with_metadata m ∷ opts) before = last_metadata opts (some m)
  last_metadata (_ ∷ opts) before = last_metadata opts before

  abbrev pub last_transport : List (ClientOption T) → Option T → Option T
  last_transport [] before = before
  last_transport (with_transport t ∷ opts) before = last_transport opts (some t)
  last_transport (_ ∷ opts) before = last_transport opts before

  pub set_options-metadata :
      (opts : List (ClientOption T)) (o : ClientOptions T) (before : Option PluginMetadata)
      → Agrees o.has_metadata o.metadata before
      → Agrees
          (set_options opts o).has_metadata
          (set_options opts o).metadata
          (last_metadata opts before)
  set_options-metadata [] o before h = h
  set_options-metadata (with_metadata m ∷ opts) o before h =
      set_options-metadata opts (set_option (with_metadata m) o) (some m) (refl, refl)
  set_options-metadata (with_config c ∷ opts) o before h =
      set_options-metadata opts (set_option (with_config c) o) before h
  set_options-metadata (with_transport t ∷ opts) o before h =
      set_options-metadata opts (set_option (with_transport t) o) before h

  pub set_options-config :
      (opts : List (ClientOption T)) (o : ClientOptions T)
      → (set_options opts o).config ≡ last_config opts o.config
  set_options-config [] o = refl
  set_options-config (with_metadata m ∷ opts) o =
      set_options-config opts (set_option (with_metadata m) o)
  set_options-config (with_config c ∷ opts) o =
      set_options-config opts (set_option (with_config c) o)
  set_options-config (with_transport t ∷ opts) o =
      set_options-config opts (set_option (with_transport t) o)

  pub set_options-transport :
      (opts : List (ClientOption T)) (o : ClientOptions T)
      → (set_options opts o).transport ≡ last_transport opts o.transport
  set_options-transport [] o = refl
  set_options-transport (with_metadata m ∷ opts) o =
      set_options-transport opts (set_option (with_metadata m) o)
  set_options-transport (with_config c ∷ opts) o =
      set_options-transport opts (set_option (with_config c) o)
  set_options-transport (with_transport t ∷ opts) o =
      set_options-transport opts (set_option (with_transport t) o)

  pub agreed :
      (opts : List (ClientOption T))
      → Agrees
          (set_options opts no_options).has_metadata
          (set_options opts no_options).metadata
          (last_metadata opts none)
  agreed opts = set_options-metadata opts no_options none (refl, refl)

  resolve_iff :
      (env : Env) (o : ClientOptions T) (config : Option Config) (given : Option PluginMetadata)
      → o.config ≡ config
      → Agrees o.has_metadata o.metadata given
      → Succeeds (resolve env o) ↔ IsResolvable env config given
  resolve_iff env o (some c) given e a = (λ s. inl tt, λ g. (c, rw e refl))
  resolve_iff env o none given e a = (
    λ s.
        let found =
          of_or_placeholder o.has_metadata o.metadata given (config_from_env env) a (rw e at s) in
        elim found [ inl r ↦ inr (inl ((config_from_env_iff env).0 r)) | inr i ↦ inr (inr i) ],
    λ g. rw e (
        or_placeholder_of o.has_metadata o.metadata given (config_from_env env) a
          (resolvable env given g)),
  )

  build_iff :
      (make : Config → T) (o : ClientOptions T) (r : Result Config)
      → Succeeds (build make o r) ↔ Succeeds r
  build_iff make o (ok c) = (λ s. (c, refl), λ s. (_, refl))
  build_iff make o (err e) = (λ s. cc (s.1), λ s. cc (s.1))

  -- New succeeds exactly if it is given a configuration, or the environment configures a plugin, or
  -- it is given metadata with an id, whatever the order of the options; of several options of a
  -- kind the last counts.
  pub new_iff :
      (make : Config → T) (env : Env) (opts : List (ClientOption T))
      → Succeeds (new make env opts)
        ↔ IsResolvable env (last_config opts none) (last_metadata opts none)
  unfolding new
  new_iff make env opts =
      let o = set_options opts no_options in
      let (built, build_it) = build_iff make o (resolve env o) in
      let (to, from) =
        resolve_iff env o (last_config opts none) (last_metadata opts none)
          (set_options-config opts no_options) (agreed opts) in
      (λ s. to (built s), λ g. build_it (from g))
