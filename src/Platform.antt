-- ===== src/Platform.antt =====
-- transport.go and rabbitmq.go: the RabbitMQ transport as the Transport of a client. The runner that
-- a client hands over is the one that the loops call for each delivery.
pub mod Consuming
pub mod Serving
use griffino_go.Rabbit.Broker.{World, Externals}
use griffino_go.Rabbit.Connection.{start, close}
use griffino_go.Rabbit.Requests.{Wakeup, invoke, dispatch}
use griffino_go.Rabbit.Consumers.{
  start_provider_consumers, start_event_consumers, start_action_consumers,
}
use griffino_go.Client.Interface.{Transport}

abbrev pub rabbit_transport : Externals → Wakeup → Transport World
rabbit_transport x wakeup = record {
  start = start x;
  close = close x;
  invoke = λ req. invoke x req wakeup;
  dispatch = dispatch x;
  start_provider_consumers = λ regs run. start_provider_consumers x regs;
  start_event_consumers = λ regs run. start_event_consumers x regs;
  start_action_consumers = λ regs run. start_action_consumers x regs;
}
