-- ===== src/Rabbit/Consumers/Promised.antt =====
-- What the documentation of the transport promises for each queue that the SDK consumes, with the
-- names of the queues and the calls to the broker written out.
use griffino_go.Base.{ℕ, String, Option}
use griffino_go.Base.Text.{◌<>◌}
use griffino_go.Base.Maps.{Map}
use griffino_go.Models.{ProviderRegistration, ActionRegistration}
use griffino_go.Rabbit.Broker.{queue_declare_passive, run_provider_consumer, run_action_consumer}
use griffino_go.Rabbit.Consumers.{Setup}

-- The queue of a capability is looked for, not made, and a loop serves the registration on it.
abbrev pub provider_service :
    (ch : ℕ) (plugin_id : String) (ctx : Option ℕ) → ProviderRegistration → Setup
provider_service ch plugin_id ctx reg = record {
  queue = "plugin." <> plugin_id <> "." <> reg.capability_id;
  declare = queue_declare_passive ch ("plugin." <> plugin_id <> "." <> reg.capability_id);
  declare_text = "failed to declare provider queue %q";
  consume_text = "failed to consume provider queue %q";
  routine = run_provider_consumer ctx reg ("plugin." <> plugin_id <> "." <> reg.capability_id);
}

-- The one queue of the actions is looked for, not made, and a loop serves all of them on it.
abbrev pub action_service :
    (ch : ℕ) (plugin_id : String) (ctx : Option ℕ) → Map ActionRegistration → Setup
action_service ch plugin_id ctx by_id = record {
  queue = "action." <> plugin_id;
  declare = queue_declare_passive ch ("action." <> plugin_id);
  declare_text = "failed to declare action queue %q";
  consume_text = "failed to consume action queue %q";
  routine = run_action_consumer ctx by_id ("action." <> plugin_id);
}
