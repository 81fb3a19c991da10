-- ===== src/Tests/Stores.antt =====
-- What a Redis store reads, from a database that is a map.
use mathlib.Core.List.{[], ◌∷◌}
use griffino_go.Base.{String, Option, none, some, ◌≡◌, ◌↔◌, refl, arith}
use griffino_go.Base.Maps.{Map, lookup}
use griffino_go.Base.Int.{pos}
use griffino_go.Base.Number.{itoa}
use griffino_go.Errors.{Error, foreign, ok, err}
use griffino_go.Redis.{
  Driver, Reply, stored, no_key, StoreConfig, Store, config_key, get_values, new, build_options,
}
use griffino_go.Redis.Keys.{config_key-injective}
use griffino_go.Redis.Reading
use griffino_go.Redis.Reading.{get_values_iff}

abbrev prefix : String
prefix = "user"

abbrev someone : String
someone = "u1"

abbrev plugin : String
plugin = "acme:echo"

config_key-injective_example : (prefix ≡ prefix) × (someone ≡ someone) × (plugin ≡ plugin)
config_key-injective_example =
    config_key-injective prefix prefix someone someone plugin plugin (omega arith) (omega arith)
      (omega arith) (omega arith) refl

abbrev no_error : Error
no_error = foreign "no address"

-- A database is a map.
abbrev reply_of : Option String → Reply
reply_of none = no_key
reply_of (some payload) = stored payload

abbrev driver : Driver (Unit {0}) (Map String)
driver = record {
  parse_url = λ url. err no_error;
  zero_others = tt;
  new_client = λ opts. ("user:u1:plugin:acme.echo:config", "{}") ∷ [];
  get = λ db key. reply_of (lookup key db);
  close = λ db. (ok tt, db);
  unmarshal = λ text. ok (some []);
  quote = λ text. text;
}

abbrev store_config : StoreConfig
store_config = record {
  url = "";
  host = "localhost";
  port = pos 6379;
  db = pos 0;
  username = "";
  password = "";
  key_prefix = "";
}

abbrev store : Store (Map String)
store = record {
  client = ("user:u1:plugin:acme.echo:config", "{}") ∷ [];
  plugin_id = "acme.echo";
  key_prefix = "user";
}

get_values_iff_example :
    (get_values driver store "u1" ≡ ok [])
    ↔ Reading.Holds driver (driver.get store.client (config_key "user" "u1" "acme.echo")) []
unfolding new build_options itoa
get_values_iff_example = get_values_iff driver "acme.echo" "u1" store_config store [] refl
