-- ===== src/Tests/Deliveries.antt =====
-- Deliveries.
use griffino_go.Base.{String, List, [], ◌∷◌, ◌≡◌, refl, ne_of_test}
use griffino_go.Base.Maps.{Map, lookup}
use griffino_go.Errors.{foreign, ok, err}
use griffino_go.Codec.{encode_json, trim_newlines, decode_json}
use griffino_go.Context.{context_from_message, optional_string}
use griffino_go.Models.{ActionRegistration}
use griffino_go.Rabbit.Broker.{publish, ack}
use griffino_go.Rabbit.Deliveries.Promised.{json_message}
use griffino_go.Rabbit.Deliveries.{Runner, decode_context, handle_provider_delivery}
use griffino_go.Rabbit.Deliveries.Acknowledged.{
  Acknowledges, runs, handle_provider_delivery-Acknowledges,
}
use griffino_go.Rabbit.Deliveries.Answers.{
  handle_provider_delivery-reply, handle_provider_delivery-error_hidden,
}
use griffino_go.Rabbit.Loops.{
  Taken, delivered, no_more, run_provider_consumer, run_event_consumer, run_action_consumer,
}
use griffino_go.Rabbit.Loops.Served.{
  Serves, provider_runs, event_runs, registered_runs, consumers-Serve,
}
use griffino_go.Client.Serve.{run_handler}
use griffino_go.Tests.Samples.{
  task_context, echo_provider, echo_consumer, echo_action, broker, running_world, request_delivery,
  task_delivery, action_delivery,
}

handle_provider_delivery-Acknowledges_example :
    Acknowledges broker task_delivery
      (runs echo_provider.handler (decode_context broker "acme.echo" task_delivery))
      running_world
      (handle_provider_delivery broker run_handler echo_provider task_delivery running_world).1
handle_provider_delivery-Acknowledges_example =
    handle_provider_delivery-Acknowledges broker run_handler echo_provider task_delivery
      running_world

abbrev by_id : Map ActionRegistration
by_id = ("run", echo_action) ∷ []

abbrev taken : List Taken
taken = delivered task_delivery ∷ delivered action_delivery ∷ no_more ∷ delivered task_delivery ∷ []

consumers-Serve_example :
    Serves
      (provider_runs broker run_handler echo_provider)
      (task_delivery ∷ action_delivery ∷ [])
      running_world
      (run_provider_consumer broker run_handler echo_provider taken running_world).1
    × Serves
        (event_runs broker run_handler echo_consumer)
        (task_delivery ∷ action_delivery ∷ [])
        running_world
        (run_event_consumer broker run_handler echo_consumer taken running_world).1
    × Serves
        (registered_runs broker run_handler by_id)
        (task_delivery ∷ action_delivery ∷ [])
        running_world
        (run_action_consumer broker run_handler by_id taken running_world).1
consumers-Serve_example =
    consumers-Serve broker run_handler echo_provider echo_consumer by_id taken running_world

requested : decode_context broker "acme.echo" request_delivery ≡ ok task_context
unfolding decode_context decode_json context_from_message optional_string lookup
requested = refl

handle_provider_delivery-reply_example :
    (handle_provider_delivery broker run_handler echo_provider request_delivery
      running_world).1.calls
    ≡ publish 1 "" "replies" (json_message "m1" "" (123 ∷ 125 ∷ [])) ∷ ack 7 ∷ []
unfolding encode_json trim_newlines
handle_provider_delivery-reply_example =
    handle_provider_delivery-reply broker run_handler echo_provider request_delivery running_world
      requested (ne_of_test "replies" "" refl) refl refl

abbrev failing : String → Runner
failing text h hc = err (foreign text)

handle_provider_delivery-error_hidden_example :
    handle_provider_delivery broker
      (failing "no such file")
      echo_provider
      request_delivery
      running_world
    ≡ handle_provider_delivery broker
        (failing "disk full")
        echo_provider
        request_delivery
        running_world
handle_provider_delivery-error_hidden_example =
    handle_provider_delivery-error_hidden broker (failing "no such file") (failing "disk full")
      echo_provider request_delivery running_world task_context (foreign "no such file")
      (foreign "disk full") requested (ne_of_test "replies" "" refl) refl refl
