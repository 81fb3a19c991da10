-- ===== src/Redis.antt =====
-- internal/redisstore/store.go over the client of go-redis and the decoder of encoding/json, which
-- are parameters.
pub mod Keys
pub mod Reading
use mathlib.Core.List.{[], ◌∷◌}
use griffino_go.Base.{String, ◌==◌, Bool, true, false, Option, none, some, if◌then◌else◌}
use griffino_go.Base.Int.{ℤ, is_zero}
use griffino_go.Base.Number.{itoa}
use griffino_go.Base.Text.{◌<>◌}
use griffino_go.Json.{Object}
use griffino_go.Errors.{Error, wrapped, Result, ok, err, ◌>>=◌}

abbrev pub default_key_prefix : String
default_key_prefix = "user"

-- `Config` of this package
pub record StoreConfig : Type 0 where
  pub url : String
  pub host : String
  pub port : ℤ
  pub db : ℤ
  pub username : String
  pub password : String
  pub key_prefix : String

-- `redis.Options`; `O` stands for the options that the source never names.
pub record RedisOptions (O : Type 0) : Type 0 where
  pub addr : String
  pub username : String
  pub password : String
  pub db : ℤ
  pub others : O

-- What `Get(...).Result()` ends in: the value, an error for which `errors.Is(err, redis.Nil)` holds,
-- another error.
pub data Reply : Type 0 where
  stored : (payload : String) → Reply
  no_key : Reply
  broken : Error → Reply

-- The packages. `unmarshal` decodes into a `map[string]any`, where the literal null gives a nil map;
-- `quote` is the verb %q.
pub record Driver (O C : Type 0) : Type 0 where
  pub parse_url : String → Result (RedisOptions O)
  pub zero_others : O
  pub new_client : RedisOptions O → C
  pub get : C → (key : String) → Reply
  pub close : C → Result (Unit {0}) × C
  pub unmarshal : String → Result (Option Object)
  pub quote : String → String

pub record Store (C : Type 0) : Type 0 where
  pub client : C
  pub plugin_id : String
  pub key_prefix : String

unfoldable pub config_key : (prefix user_id plugin_id : String) → String
config_key prefix user_id plugin_id =
    prefix <> ":" <> user_id <> ":plugin:" <> plugin_id <> ":config"

-- `if s != "" { … = s }`
abbrev pub override : (given old : String) → String
override given old = if given == "" then old else given

abbrev pub wrap : {A : Type 0} → (text : String) → Result A → Result A
wrap text (ok a) = ok a
wrap text (err e) = err (wrapped text e)

abbrev pub or_empty : Option Object → Object
or_empty none = []
or_empty (some m) = m

module _ {O C : Type 0} (driver : Driver O C) where
  abbrev pub overridden : StoreConfig → RedisOptions O → RedisOptions O
  overridden cfg opts = record opts {
    username = override cfg.username opts.username;
    password = override cfg.password opts.password;
    db = if is_zero cfg.db then opts.db else cfg.db;
  }

  unfoldable pub build_options : StoreConfig → Result (RedisOptions O)
  build_options cfg =
      if cfg.url == ""
      then ok (record {
        addr = cfg.host <> ":" <> itoa cfg.port;
        username = cfg.username;
        password = cfg.password;
        db = cfg.db;
        others = driver.zero_others;
      })
      else (do
        opts ← wrap "redisstore: invalid redis URL" (driver.parse_url cfg.url)
        ok (overridden cfg opts))

  unfoldable pub new : (plugin_id : String) → StoreConfig → Result (Store C)
  unfolding build_options
  new plugin_id cfg = do
    opts ← build_options cfg
    ok (record {
      client = driver.new_client opts;
      plugin_id = plugin_id;
      key_prefix = override cfg.key_prefix default_key_prefix;
    })

  unfoldable pub decode_values : (payload : String) → Result Object
  decode_values payload = if payload == "" then ok [] else (do
    decoded ←
        wrap "redisstore: user config payload must decode to a JSON object"
          (driver.unmarshal payload)
    ok (or_empty decoded))

  abbrev pub read_reply : (key : String) → Reply → Result Object
  read_reply key (stored payload) = decode_values payload
  read_reply key no_key = ok []
  read_reply key (broken e) = err (wrapped ("redisstore: get " <> driver.quote key) e)

  abbrev pub key_of : Store C → (user_id : String) → String
  key_of s user_id = config_key s.key_prefix user_id s.plugin_id

  unfoldable pub get_values : Store C → (user_id : String) → Result Object
  unfolding config_key decode_values
  get_values s user_id = read_reply (key_of s user_id) (driver.get s.client (key_of s user_id))

  unfoldable pub close : Store C → Result (Unit {0}) × Store C
  close s = let (r, c) = driver.close s.client in (r, record s { client = c })
