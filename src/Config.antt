-- ===== src/Config.antt =====
-- config.go: the configuration, its defaults, and what the environment gives.
pub mod Defaults
pub mod Environment
pub mod Numbers
use griffino_go.Base.{
  ℕ, ◌*◌, ◌^◌, String, ◌==◌, Bool, true, false, ◌&&◌, Option, none, some, if◌then◌else◌,
}
use griffino_go.Base.Int.{ℤ, pos, is_zero}
use griffino_go.Base.Number.{atoi}
use griffino_go.Errors.{Result, ok, err, ◌>>=◌, config_error}
use mathlib.Core.List.{[], ◌∷◌}

abbrev pub default_router_exchange : String
default_router_exchange = "griffino.router"

abbrev pub default_plugin_exchange : String
default_plugin_exchange = "griffino.plugins"

-- a duration in nanoseconds
abbrev pub default_invoke_timeout : ℤ
default_invoke_timeout = pos (60 * 10 ^ 9)

abbrev pub default_rabbitmq_port : ℤ
default_rabbitmq_port = pos 5672

pub record Config : Type 0 where
  pub rabbitmq_host : String
  pub rabbitmq_port : ℤ
  pub rabbitmq_user : String
  pub rabbitmq_password : String
  pub plugin_id : String
  pub user_id : String
  pub invoke_timeout : ℤ
  pub router_exchange : String
  pub plugin_exchange : String

abbrev pub or_default : String → String → String
or_default s d = if s == "" then d else s

unfoldable pub with_defaults : Config → Config
with_defaults c = record c {
  rabbitmq_port = if is_zero c.rabbitmq_port then default_rabbitmq_port else c.rabbitmq_port;
  invoke_timeout = if is_zero c.invoke_timeout then default_invoke_timeout else c.invoke_timeout;
  router_exchange = or_default c.router_exchange default_router_exchange;
  plugin_exchange = or_default c.plugin_exchange default_plugin_exchange;
}

-- `os.Getenv`: "" for a variable that is not set
abbrev pub Env : Type 0
Env = String → String

unfoldable pub required_env : Env → String → Result String
required_env env name =
    if env name == ""
    then err (config_error "missing required environment variable: %s" (name ∷ []))
    else ok (env name)

abbrev parsed : String → Option ℤ → Result ℤ
parsed name none = err (config_error "environment variable %s must be an integer" (name ∷ []))
parsed name (some n) = ok n

unfoldable pub int_env : Env → String → ℤ → Result ℤ
int_env env name def = if env name == "" then ok def else parsed name (atoi (env name))

unfoldable pub config_from_env : Env → Result Config
config_from_env env = do
  host ← required_env env "RABBITMQ_HOST"
  port ← int_env env "RABBITMQ_PORT" default_rabbitmq_port
  user ← required_env env "RABBITMQ_USER"
  password ← required_env env "RABBITMQ_PASSWORD"
  id ← required_env env "GRIFFINO_PLUGIN_ID"
  ok (
      with_defaults (record {
        rabbitmq_host = host;
        rabbitmq_port = port;
        rabbitmq_user = user;
        rabbitmq_password = password;
        plugin_id = id;
        user_id = env "GRIFFINO_USER_ID";
        invoke_timeout = pos 0;
        router_exchange = "";
        plugin_exchange = "";
      }))

unfoldable pub placeholder_config : String → Config
placeholder_config id = with_defaults (record {
  rabbitmq_host = "";
  rabbitmq_port = pos 0;
  rabbitmq_user = "";
  rabbitmq_password = "";
  plugin_id = id;
  user_id = "";
  invoke_timeout = pos 0;
  router_exchange = "";
  plugin_exchange = "";
})

pub record RedisConfig : Type 0 where
  pub url : String
  pub host : String
  pub port : ℤ
  pub db : ℤ
  pub username : String
  pub password : String
  pub key_prefix : String

abbrev pub default_redis_key_prefix : String
default_redis_key_prefix = "user"

-- `none` is `ok == false` with no error
unfoldable pub redis_config_from_env : Env → Result (Option RedisConfig)
redis_config_from_env env = if env "REDIS_URL" == "" && env "REDIS_HOST" == "" then ok none else do
  port ← int_env env "REDIS_PORT" (pos 6379)
  db ← int_env env "REDIS_DB" (pos 0)
  ok (
      some (record {
        url = env "REDIS_URL";
        host = or_default (env "REDIS_HOST") "localhost";
        port = port;
        db = db;
        username = env "REDIS_USER";
        password = env "REDIS_PASSWORD";
        key_prefix = or_default (env "GRIFFINO_REDIS_USER_CONFIG_PREFIX") default_redis_key_prefix;
      }))
