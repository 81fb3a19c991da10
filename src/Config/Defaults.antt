-- ===== src/Config/Defaults.antt =====
-- What `withDefaults` fills in.
use griffino_go.Base.{
  String, ◌≡◌, ◌≢◌, arith, eq_iff, ◌==◌, false, Bool-cases, inl, inr, refl, if◌then◌else◌,
  ne_of_test,
}
use griffino_go.Base.Int.{ℤ, is_zero}
use griffino_go.Config.{
  Config, with_defaults, or_default, default_router_exchange, default_plugin_exchange,
  default_rabbitmq_port, default_invoke_timeout,
}

-- A configuration that a transport can run on.
pub record IsComplete (c : Config) : Type 0 where
  pub port : is_zero c.rabbitmq_port ≡ false
  pub timeout : is_zero c.invoke_timeout ≡ false
  pub router : c.router_exchange ≢ ""
  pub plugin : c.plugin_exchange ≢ ""

pub or_default-ne : (s d : String) → d ≢ "" → or_default s d ≢ ""
or_default-ne s d h = elim (Bool-cases (s == "")) [
  | inl e ↦ rw e h
  | inr e ↦ rw e (ne_of_test s "" e)
]

is_zero_default : (n d : ℤ) → is_zero d ≡ false → is_zero (if is_zero n then d else n) ≡ false
is_zero_default n d h = elim (Bool-cases (is_zero n)) [ inl e ↦ rw e h | inr e ↦ rw e e ]

-- After the defaults the port and the timeout are not 0 and both exchanges have names, whatever
-- the configuration was; the credentials and the two ids are those that were given.
pub with_defaults-IsComplete :
    (c : Config)
    → IsComplete (with_defaults c)
      × ((with_defaults c).plugin_id ≡ c.plugin_id)
      × ((with_defaults c).user_id ≡ c.user_id)
      × ((with_defaults c).rabbitmq_host ≡ c.rabbitmq_host)
unfolding with_defaults
with_defaults-IsComplete c = (
  record {
    port = is_zero_default c.rabbitmq_port default_rabbitmq_port refl;
    timeout = is_zero_default c.invoke_timeout default_invoke_timeout refl;
    router = or_default-ne c.router_exchange _ (ne_of_test default_router_exchange "" refl);
    plugin = or_default-ne c.plugin_exchange _ (ne_of_test default_plugin_exchange "" refl);
  },
  refl,
  refl,
  refl,
)

-- A complete configuration is left as it is.
pub with_defaults_of_IsComplete : (c : Config) → IsComplete c → with_defaults c ≡ c
unfolding with_defaults
with_defaults_of_IsComplete c h =
    ground (arith, eq_iff c.router_exchange "", eq_iff c.plugin_exchange "")

-- Filling in the defaults a second time, as New and newRabbitMQTransport do, changes nothing.
pub with_defaults_idem : (c : Config) → with_defaults (with_defaults c) ≡ with_defaults c
with_defaults_idem c = with_defaults_of_IsComplete (with_defaults c) (with_defaults-IsComplete c).0
