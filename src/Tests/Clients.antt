-- ===== src/Tests/Clients.antt =====
-- Clients over a transport whose every call succeeds and is counted.
use griffino_go.Base.{true, ℕ, ◌+◌, none, some, List, [], ◌∷◌, ◌≡◌, ◌↔◌, refl}
use griffino_go.Config.{Env}
use griffino_go.Errors.{Result, ok}
use griffino_go.Errors.Succeeds.{Succeeds}
use griffino_go.Lifecycle.{new_lifecycle}
use griffino_go.Lifecycle.Waiting.{new_lifecycle-IsValid}
use griffino_go.Client.Interface.{Transport, Client, zero_metadata}
use griffino_go.Client.New.{ClientOption, with_config, with_transport, new, client_of, no_options}
use griffino_go.Client.Construction.{IsResolvable, last_config, last_metadata, new_iff}
use griffino_go.Client.Identity.{IsNew, new-IsNew}
use griffino_go.Client.Serve.{start, close}
use griffino_go.Client.Serving.{IsShutDown, close-IsShutDown, Ended, run-Ended}
use griffino_go.Rabbit.Broker.{World, new_world}
use griffino_go.Rabbit.Connection
use griffino_go.Rabbit.Connection.{connect}
use griffino_go.Rabbit.Connection.Balance.{new_world-IsValid}
use griffino_go.Rabbit.Connection.Closing.{IsClosed}
use griffino_go.Rabbit.Requests.{timer}
use griffino_go.Platform.{rabbit_transport}
use griffino_go.Platform.Consuming.{IsUp, start-IsUp}
use griffino_go.Platform.Serving.{LeavesValid, start-LeavesValid, close-Disconnects}
use griffino_go.Lifecycle.{is_started, is_closed}
use griffino_go.Base.Int.{pos}
use griffino_go.Client.Requests.{InvokeOption, with_user_id, with_timeout}
use griffino_go.Tests.Samples.{settings, broker, echo_provider, echo_consumer, echo_action}

abbrev counter : Transport ℕ
counter = record {
  start = λ n. (ok tt, n + 1);
  close = λ n. (ok tt, n + 1);
  invoke = λ req n. (ok none, n + 1);
  dispatch = λ req n. (ok tt, n + 1);
  start_provider_consumers = λ regs run n. (ok tt, n + 1);
  start_event_consumers = λ regs run n. (ok tt, n + 1);
  start_action_consumers = λ regs run n. (ok tt, n + 1);
}

abbrev echo_client : Client ℕ
echo_client = record {
  metadata = zero_metadata;
  config = settings;
  transport = 0;
  lifecycle = new_lifecycle;
  providers = [];
  consumers = [];
  consumer_capabilities = [];
  actions = [];
}

close-IsShutDown_example :
    (r : Result (Unit {0})) × (c' : Client ℕ) × (close counter echo_client ≡ some (r, c'))
    × IsShutDown counter c'
close-IsShutDown_example = close-IsShutDown counter echo_client new_lifecycle-IsValid

run-Ended_example : Ended counter echo_client (λ c. c)
run-Ended_example = run-Ended counter echo_client (λ c. c) new_lifecycle-IsValid (λ d v. v)

abbrev options : List (ClientOption ℕ)
options = with_config settings ∷ with_transport 5 ∷ []

abbrev no_env : Env
no_env name = ""

new_iff_example :
    Succeeds (new (λ cfg. 0) no_env options)
    ↔ IsResolvable no_env (last_config options none) (last_metadata options none)
new_iff_example = new_iff (λ cfg. 0) no_env options

abbrev made_client : Client ℕ
made_client =
    client_of (λ cfg. 0) (record no_options { config = some settings; transport = some 5 }) settings

new-IsNew_example : IsNew (λ cfg. 0) options made_client
unfolding new
new-IsNew_example = new-IsNew (λ cfg. 0) no_env options made_client refl

abbrev platform : Transport World
platform = rabbit_transport broker timer

abbrev plugin_client : Client World
plugin_client = record {
  metadata = zero_metadata;
  config = settings;
  transport = new_world settings;
  lifecycle = new_lifecycle;
  providers = echo_provider ∷ [];
  consumers = echo_consumer ∷ [];
  consumer_capabilities = [];
  actions = echo_action ∷ [];
}

start-LeavesValid_example : LeavesValid broker (start platform plugin_client)
unfolding is_started
start-LeavesValid_example =
    start-LeavesValid broker timer plugin_client refl (new_world-IsValid broker settings)

abbrev connected_client : Client World
connected_client = record plugin_client {
  transport = (Connection.start broker (new_world settings)).1;
}

connected : Connection.start broker (new_world settings) ≡ (ok tt, connected_client.transport)
unfolding Connection.start connect new_world
connected = refl

connected_client-IsUp : IsUp broker connected_client.transport
connected_client-IsUp =
    rw connected at
      ((start-IsUp broker).at (new_world settings) (new_world-IsValid broker settings))

close-Disconnects_example :
    (r : Result (Unit {0})) × (c' : Client World) × (close platform connected_client ≡ some (r, c'))
    × IsClosed broker connected_client.transport c'.transport
    × (is_closed c'.lifecycle ≡ true)
unfolding is_closed
close-Disconnects_example =
    close-Disconnects broker timer connected_client new_lifecycle-IsValid refl connected_client-IsUp

abbrev slow_call : List InvokeOption
slow_call = with_user_id "u2" ∷ with_timeout (pos 2000000) ∷ with_user_id "u3" ∷ []
