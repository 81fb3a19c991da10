-- ===== src/Tests/Broker.antt =====
-- The transport's connection and its requests.
use griffino_go.Base.{some, String, true, [], ◌∷◌, ◌≡◌, refl}
use griffino_go.Base.Maps.{Map, lookup}
use griffino_go.Errors.{Error, ok, err, is, transport}
use griffino_go.Rabbit.Broker.{World, new_world}
use griffino_go.Rabbit.Triple.{Post}
use griffino_go.Rabbit.Connection.{start, connect, close}
use griffino_go.Rabbit.Connection.Balance.{new_world-IsValid}
use griffino_go.Rabbit.Connection.Starting.{IsRunning, IsStopped, start-IsValid}
use griffino_go.Rabbit.Connection.Closing.{IsClosed, close-IsClosed}
use griffino_go.Rabbit.Consumers.{start_provider_consumers, start_action_consumers}
use griffino_go.Rabbit.Consumers.ById.{last_with}
use griffino_go.Rabbit.Consumers.Promised.{provider_service, action_service}
use griffino_go.Models.{ActionRegistration}
use griffino_go.Rabbit.Consumers.Serving.{
  serving, StopsWithin, start_provider_consumers-serves, start_action_consumers-serves,
}
use griffino_go.Tests.Samples.{settings, broker, running_world, echo_provider, echo_action}

start-IsValid_example :
    Post
      (λ _. IsRunning broker (new_world settings).cfg (new_world settings).pending)
      (λ e w'. IsStopped broker (new_world settings) w' × (is e transport ≡ true))
      (start broker (new_world settings))
start-IsValid_example =
    start-IsValid broker (new_world settings) (new_world-IsValid broker settings)

abbrev opened_world : World
opened_world = (start broker (new_world settings)).1

opens : start broker (new_world settings) ≡ (ok tt, opened_world)
unfolding start connect new_world
opens = refl

opened_world-IsRunning :
    IsRunning broker (new_world settings).cfg (new_world settings).pending opened_world
opened_world-IsRunning =
    rw opens at (start-IsValid broker (new_world settings) (new_world-IsValid broker settings))

close-IsClosed_example :
    IsClosed broker opened_world (close broker opened_world).1
    × ((error : Error) → (close broker opened_world).0 ≡ err error → is error transport ≡ true)
close-IsClosed_example =
    close-IsClosed broker opened_world opened_world-IsRunning.valid opened_world-IsRunning.started

start_provider_consumers-serves_example :
    Post
      (λ _ w'.
        w' ≡ serving 1 (provider_service 1 "acme.echo" (some 2) echo_provider ∷ []) running_world)
      (StopsWithin (provider_service 1 "acme.echo" (some 2) echo_provider ∷ []) running_world)
      (start_provider_consumers broker (echo_provider ∷ []) running_world)
start_provider_consumers-serves_example =
    start_provider_consumers-serves broker 1 (echo_provider ∷ []) running_world refl refl

start_action_consumers-serves_example :
    (start_action_consumers broker [] running_world ≡ (ok tt, running_world))
    × (by_id : Map ActionRegistration) × ((id : String)
        → lookup id by_id ≡ last_with id (echo_action ∷ []))
    × Post
        (λ _ w'. w' ≡ serving 1 (action_service 1 "acme.echo" (some 2) by_id ∷ []) running_world)
        (StopsWithin (action_service 1 "acme.echo" (some 2) by_id ∷ []) running_world)
        (start_action_consumers broker (echo_action ∷ []) running_world)
start_action_consumers-serves_example =
    start_action_consumers-serves broker 1 echo_action [] running_world refl refl
