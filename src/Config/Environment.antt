-- ===== src/Config/Environment.antt =====
-- When the environment gives a configuration, and what an error says.
use griffino_go.Base.{
  String, ◌≡◌, ◌≢◌, ◌↔◌, arith, eq_iff, ◌==◌, Bool-cases, Option-cases, Option, none, some, inl,
  inr, refl, sym, ap, ◌&&◌, ne_of_test, test_of_ne, ◌⊎◌,
}
use griffino_go.Base.Int.{ℤ, pos}
use griffino_go.Base.Number.{atoi}
use griffino_go.Errors.{Result, ok, is, configuration, >>=-eq-ok, config_error}
use griffino_go.Errors.Classified.{Classified, Classified-ok, Classified-bind}
use griffino_go.Config.{
  Config, Env, required_env, int_env, config_from_env, RedisConfig, redis_config_from_env,
  default_rabbitmq_port, with_defaults,
}
use griffino_go.Config.Defaults.{IsComplete, with_defaults-IsComplete, or_default-ne}

-- What RABBITMQ_PORT and its like have to be.
abbrev pub IsNumber : String → Type 0
IsNumber v = (v ≡ "") ⊎ ((n : ℤ) × (atoi v ≡ some n))

-- The environments that configure a plugin.
pub record IsConfigured (env : Env) : Type 0 where
  pub host : env "RABBITMQ_HOST" ≢ ""
  pub port : IsNumber (env "RABBITMQ_PORT")
  pub user : env "RABBITMQ_USER" ≢ ""
  pub password : env "RABBITMQ_PASSWORD" ≢ ""
  pub plugin_id : env "GRIFFINO_PLUGIN_ID" ≢ ""

required_env_of_ne :
    (env : Env) (name : String) → env name ≢ "" → required_env env name ≡ ok (env name)
unfolding required_env
required_env_of_ne env name h = rw (test_of_ne (env name) "" h)

required_env-eq-ok :
    (env : Env) (name : String) {v : String}
    → required_env env name ≡ ok v
    → (env name ≢ "") × (env name ≡ v)
unfolding required_env
required_env-eq-ok env name h = ground (arith, eq_iff (env name) "")

int_env_of_IsNumber :
    (env : Env) (name : String) (def : ℤ)
    → IsNumber (env name)
    → (n : ℤ) × (int_env env name def ≡ ok n)
unfolding int_env
int_env_of_IsNumber env name def (inl e) = (def, rw e)
int_env_of_IsNumber env name def (inr (n, e)) = elim (Bool-cases (env name == "")) [
  | inl t ↦ (def, rw t)
  | inr f ↦ (n, rw (f, e))
]

int_env-eq-ok :
    (env : Env) (name : String) (def : ℤ) {n : ℤ}
    → int_env env name def ≡ ok n
    → IsNumber (env name)
unfolding int_env
int_env-eq-ok env name def {n} h = elim (Bool-cases (env name == "")) [
  | inl t ↦ inl ((eq_iff (env name) "").0 t)
  | inr f ↦ elim (Option-cases (atoi (env name))) [
    | inl missing ↦ cc (rw (f, missing) at h)
    | inr (m, found) ↦ inr (m, found)
  ]
]

abbrev variables : Env → ℤ → Config
variables env port = (record {
  rabbitmq_host = env "RABBITMQ_HOST";
  rabbitmq_port = port;
  rabbitmq_user = env "RABBITMQ_USER";
  rabbitmq_password = env "RABBITMQ_PASSWORD";
  plugin_id = env "GRIFFINO_PLUGIN_ID";
  user_id = env "GRIFFINO_USER_ID";
  invoke_timeout = pos 0;
  router_exchange = "";
  plugin_exchange = "";
})

abbrev gathered : Env → ℤ → Config
gathered env port = with_defaults (variables env port)

config_from_env_of_IsConfigured :
    (env : Env)
    → IsConfigured env
    → (port : ℤ) × (int_env env "RABBITMQ_PORT" default_rabbitmq_port ≡ ok port)
      × (config_from_env env ≡ ok (gathered env port))
unfolding config_from_env
config_from_env_of_IsConfigured env h =
    let (port, given) = int_env_of_IsNumber env "RABBITMQ_PORT" default_rabbitmq_port h.port in
    (
      port,
      given,
      rw (
        required_env_of_ne env "RABBITMQ_HOST" h.host,
        given,
        required_env_of_ne env "RABBITMQ_USER" h.user,
        required_env_of_ne env "RABBITMQ_PASSWORD" h.password,
        required_env_of_ne env "GRIFFINO_PLUGIN_ID" h.plugin_id,
      ),
    )

config_from_env-IsConfigured :
    (env : Env) {c : Config} → config_from_env env ≡ ok c → IsConfigured env
unfolding config_from_env
config_from_env-IsConfigured env h =
    let (host, e₁, h₁) = >>=-eq-ok (required_env env "RABBITMQ_HOST") _ h in
    let (port, e₂, h₂) = >>=-eq-ok (int_env env "RABBITMQ_PORT" default_rabbitmq_port) _ h₁ in
    let (user, e₃, h₃) = >>=-eq-ok (required_env env "RABBITMQ_USER") _ h₂ in
    let (password, e₄, h₄) = >>=-eq-ok (required_env env "RABBITMQ_PASSWORD") _ h₃ in
    let (id, e₅, h₅) = >>=-eq-ok (required_env env "GRIFFINO_PLUGIN_ID") _ h₄ in
    record {
      host = (required_env-eq-ok env "RABBITMQ_HOST" e₁).0;
      port = int_env-eq-ok env "RABBITMQ_PORT" default_rabbitmq_port e₂;
      user = (required_env-eq-ok env "RABBITMQ_USER" e₃).0;
      password = (required_env-eq-ok env "RABBITMQ_PASSWORD" e₄).0;
      plugin_id = (required_env-eq-ok env "GRIFFINO_PLUGIN_ID" e₅).0;
    }

-- The environment gives a configuration exactly when the host, the user, the password and the
-- plugin id are set and the port is unset or an integer.
pub config_from_env_iff :
    (env : Env) → ((c : Config) × (config_from_env env ≡ ok c)) ↔ IsConfigured env
config_from_env_iff env = (
  λ p. config_from_env-IsConfigured env p.1,
  λ h. let (port, _, e) = config_from_env_of_IsConfigured env h in (gathered env port, e),
)

-- A configuration from the environment is complete, and its ids and its host are the variables';
-- the plugin id is not empty.
pub config_from_env-fields :
    (env : Env) (c : Config)
    → config_from_env env ≡ ok c
    → IsComplete c
      × (c.plugin_id ≡ env "GRIFFINO_PLUGIN_ID")
      × (c.plugin_id ≢ "")
      × (c.user_id ≡ env "GRIFFINO_USER_ID")
      × (c.rabbitmq_host ≡ env "RABBITMQ_HOST")
config_from_env-fields env c h =
    let configured = config_from_env-IsConfigured env h in
    let (port, _, e) = config_from_env_of_IsConfigured env configured in
    let same : gathered env port ≡ c = cc (e, h) in
    let (complete, id, user, host) = with_defaults-IsComplete (variables env port) in
    rw (← same) (complete, id, rw id configured.plugin_id, user, host)

required_env-Classified :
    (env : Env) (name : String) → Classified configuration (required_env env name)
unfolding required_env is config_error
required_env-Classified env name = record { at = λ e h. ground arith }

int_env-Classified :
    (env : Env) (name : String) (def : ℤ) → Classified configuration (int_env env name def)
unfolding int_env is config_error
int_env-Classified env name def = record { at = λ e h. ground arith }

-- Every failure to read the configuration from the environment is a configuration error.
pub config_from_env-Classified : (env : Env) → Classified configuration (config_from_env env)
unfolding config_from_env
config_from_env-Classified env =
    search (Classified-ok, Classified-bind, required_env-Classified, int_env-Classified) depth 12

abbrev host_of : Result (Option RedisConfig) → String
host_of (ok (some c)) = c.host
host_of _ = ""

abbrev prefix_of : Result (Option RedisConfig) → String
prefix_of (ok (some c)) = c.key_prefix
prefix_of _ = ""

redis-eq-some :
    (env : Env) {c : RedisConfig}
    → redis_config_from_env env ≡ ok (some c)
    → (c.host ≢ "")
      × (c.key_prefix ≢ "")
      × (c.url ≡ env "REDIS_URL")
      × IsNumber (env "REDIS_PORT")
      × IsNumber (env "REDIS_DB")
unfolding redis_config_from_env
redis-eq-some env {c} h = elim (Bool-cases (env "REDIS_URL" == "" && env "REDIS_HOST" == "")) [
  | inl t ↦ cc (rw t at h)
  | inr f ↦
      let h' = rw f at h in
      let (port, e₁, h₁) = >>=-eq-ok (int_env env "REDIS_PORT" (pos 6379)) _ h' in
      let (db, e₂, h₂) = >>=-eq-ok (int_env env "REDIS_DB" (pos 0)) _ h₁ in
      (
        rw (ap (λ (r : Result (Option RedisConfig)). host_of r) (sym h₂))
            (or_default-ne (env "REDIS_HOST") "localhost" (ne_of_test "localhost" "" refl)),
        rw (ap (λ (r : Result (Option RedisConfig)). prefix_of r) (sym h₂)) (
            or_default-ne (env "GRIFFINO_REDIS_USER_CONFIG_PREFIX") "user"
              (ne_of_test "user" "" refl)),
        cc h₂,
        int_env-eq-ok env "REDIS_PORT" (pos 6379) e₁,
        int_env-eq-ok env "REDIS_DB" (pos 0) e₂,
      )
]

-- Without a Redis address there is no Redis configuration, and that is no error; a Redis
-- configuration has a host and a key prefix, and its port and database are unset or integers.
pub redis_config_from_env-optional :
    (env : Env)
    → ((env "REDIS_URL" ≡ "") → (env "REDIS_HOST" ≡ "") → redis_config_from_env env ≡ ok none)
      × ((c : RedisConfig)
          → redis_config_from_env env ≡ ok (some c)
          → (c.host ≢ "")
            × (c.key_prefix ≢ "")
            × (c.url ≡ env "REDIS_URL")
            × IsNumber (env "REDIS_PORT")
            × IsNumber (env "REDIS_DB"))
unfolding redis_config_from_env
redis_config_from_env-optional env = (λ p q. rw (p, q), λ c h. redis-eq-some env h)
