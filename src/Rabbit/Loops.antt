-- ===== src/Rabbit/Loops.antt =====
-- The loops that the goroutines of the consumers run. What their select takes is given, one after
-- another; a list that ends before the loop returns is one that still waits.
pub mod Served
use griffino_go.Base.{ℕ, Option, none, some, List, [], ◌∷◌}
use griffino_go.Base.Maps.{Map}
use griffino_go.Models.{ProviderRegistration, ConsumerRegistration, ActionRegistration}
use griffino_go.Rabbit.Broker.{World, Delivery, Externals, Step, ◌>>=◌, ◌>>◌, pure, quietly}
use griffino_go.Rabbit.Deliveries.{
  Runner, handle_provider_delivery, handle_event_delivery, handle_action_delivery,
}

-- A case of the select: the context is done, the channel of the deliveries is closed, or a delivery.
pub data Taken : Type 0 where
  done : Taken
  no_more : Taken
  delivered : Delivery → Taken

unfoldable pub consumer_loop : (handle : Delivery → Step Unit) → List Taken → Step Unit
consumer_loop handle [] = pure tt
consumer_loop handle (done ∷ later) = pure tt
consumer_loop handle (no_more ∷ later) = pure tt
consumer_loop handle (delivered d ∷ later) = do quietly (handle d); consumer_loop handle later

module _ (x : Externals) (run : Runner) where
  unfoldable pub run_provider_consumer : ProviderRegistration → List Taken → Step Unit
  unfolding consumer_loop
  run_provider_consumer reg = consumer_loop (handle_provider_delivery x run reg)

  unfoldable pub run_event_consumer : ConsumerRegistration → List Taken → Step Unit
  unfolding consumer_loop
  run_event_consumer reg = consumer_loop (handle_event_delivery x run reg)

  unfoldable pub run_action_consumer : Map ActionRegistration → List Taken → Step Unit
  unfolding consumer_loop
  run_action_consumer by_id = consumer_loop (handle_action_delivery x run by_id)
