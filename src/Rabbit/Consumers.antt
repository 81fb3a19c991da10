-- ===== src/Rabbit/Consumers.antt =====
-- StartProviderConsumers, StartEventConsumers and StartActionConsumers of rabbitmq.go. The loops over
-- the registrations prepare one queue after another; a `Setup` holds what differs between them.
pub mod ById
pub mod Promised
pub mod Serving
use griffino_go.Base.{ℕ, String, false, Option, some, List, [], ◌∷◌, ◌++◌, map}
use griffino_go.Base.Maps.{Map, insert}
use griffino_go.Config.{Config}
use griffino_go.Errors.{transport_error}
use griffino_go.Models.{ProviderRegistration, ConsumerRegistration, ActionRegistration}
use griffino_go.RoutingKeys.{provider_queue_name, consumer_queue_name, action_queue_name}
use griffino_go.Rabbit.Broker.{
  World, Call, queue_declare_passive, queue_declare, consume, Externals, Routine,
  run_provider_consumer, run_event_consumer, run_action_consumer, Step, ◌>>=◌, ◌>>◌, pure, fail,
  get, modify, catch, ask,
}
use griffino_go.Rabbit.Connection.{start}
use griffino_go.Rabbit.Requests.{channel_or_fail}

pub record Setup : Type 0 where
  pub queue : String
  pub declare : Call
  pub declare_text : String
  pub consume_text : String
  pub routine : Routine

abbrev pub provider_setup : ℕ → Config → Option ℕ → ProviderRegistration → Setup
provider_setup ch cfg ctx reg =
    let queue = provider_queue_name cfg.plugin_id reg.capability_id in
    record {
      queue = queue;
      declare = queue_declare_passive ch queue;
      declare_text = "failed to declare provider queue %q";
      consume_text = "failed to consume provider queue %q";
      routine = run_provider_consumer ctx reg queue;
    }

abbrev pub event_setup : ℕ → Config → Option ℕ → ConsumerRegistration → Setup
event_setup ch cfg ctx reg =
    let queue = consumer_queue_name cfg.plugin_id reg.event in
    record {
      queue = queue;
      declare = queue_declare ch queue;
      declare_text = "failed to declare consumer queue %q";
      consume_text = "failed to consume consumer queue %q";
      routine = run_event_consumer ctx reg queue;
    }

abbrev pub action_setup : ℕ → Config → Option ℕ → Map ActionRegistration → Setup
action_setup ch cfg ctx by_id =
    let queue = action_queue_name cfg.plugin_id in
    record {
      queue = queue;
      declare = queue_declare_passive ch queue;
      declare_text = "failed to declare action queue %q";
      consume_text = "failed to consume action queue %q";
      routine = run_action_consumer ctx by_id queue;
    }

-- the loop that fills `byID`
abbrev pub add_by_id : List ActionRegistration → Map ActionRegistration → Map ActionRegistration
add_by_id [] by_id = by_id
add_by_id (reg ∷ regs) by_id = add_by_id regs (insert reg.action_id reg by_id)

-- `go`
abbrev pub spawn : Routine → World → World
spawn r w = record w { routines = w.routines ++ r ∷ [] }

module _ (x : Externals) where
  abbrev pub ask_or_fail : Call → String → String → Step Unit
  ask_or_fail c text queue = catch (ask x c) λ e. fail (transport_error (some e) text (queue ∷ []))

  unfoldable pub consume_queue : ℕ → Setup → Step Unit
  consume_queue ch s = do
    ask_or_fail s.declare s.declare_text s.queue
    ask_or_fail (consume ch s.queue false) s.consume_text s.queue
    modify (spawn s.routine)

  unfoldable pub consume_each : ℕ → List Setup → Step Unit
  consume_each ch [] = pure tt
  consume_each ch (s ∷ ss) = do consume_queue ch s; consume_each ch ss

  -- the context is that of the transport's consumers
  abbrev pub consume_all : (ℕ → Config → Option ℕ → List Setup) → Step Unit
  consume_all setups = do
    start x
    w ← get
    ch ← channel_or_fail w.ch
    consume_each ch (setups ch w.cfg w.consumer_ctx)

  unfoldable pub start_provider_consumers : List ProviderRegistration → Step Unit
  start_provider_consumers regs = consume_all λ ch cfg ctx. map (provider_setup ch cfg ctx) regs

  unfoldable pub start_event_consumers : List ConsumerRegistration → Step Unit
  start_event_consumers regs = consume_all λ ch cfg ctx. map (event_setup ch cfg ctx) regs

  unfoldable pub start_action_consumers : List ActionRegistration → Step Unit
  start_action_consumers [] = pure tt
  start_action_consumers (reg ∷ regs) =
      consume_all λ ch cfg ctx. action_setup ch cfg ctx (add_by_id (reg ∷ regs) []) ∷ []
