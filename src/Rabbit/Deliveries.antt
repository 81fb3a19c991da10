-- ===== src/Rabbit/Deliveries.antt =====
-- What the consumer goroutines do with one delivery. `run` is the HandlerRunner, over handlers that
-- do not use the client while they run.
pub mod Acknowledged
pub mod Promised
pub mod Answers
use griffino_go.Base.{
  ℕ, String, ◌==◌, Bool, true, false, not, ◌&&◌, ◌++◌, Option, none, some, List, [], ◌∷◌,
  if◌then◌else◌,
}
use griffino_go.Base.Maps.{Map, lookup}
use griffino_go.Json.{Object, object}
use griffino_go.Errors.{Error, error_text, Result, ok, err, transport_error}
use griffino_go.Envelopes.{build_node_result_envelope, build_provider_error}
use griffino_go.Codec.{Bytes, encode_json, decode_json}
use griffino_go.Context.{HandlerContext, or_empty, context_from_message}
use griffino_go.Models.{Handler, ProviderRegistration, ConsumerRegistration, ActionRegistration}
use griffino_go.RoutingKeys.{node_result_routing_key, action_id_from_routing_key}
use griffino_go.Rabbit.Broker.{
  World, Publishing, Delivery, publish, ack, Externals, Step, ◌>>=◌, ◌>>◌, pure, get, modify,
  finally, quietly, ask, draw,
}
use griffino_go.Rabbit.Requests.{event_publishing}

-- HandlerRunner
abbrev pub Runner : Type 0
Runner = Handler → HandlerContext → Result (Option Object)

abbrev pub reply_publishing : Delivery → Bytes → Publishing
reply_publishing d body = record {
  content_type = "application/json";
  correlation_id = d.correlation_id;
  message_id = "";
  reply_to = "";
  expiration = "";
  persistent = true;
  body = body;
}

-- the body of a reply to a synchronous invocation
abbrev pub reply_object : Result (Option Object) → Object
reply_object (err e) = build_provider_error "provider_execution_failed"
reply_object (ok result) = or_empty result

abbrev pub with_action : String → Result HandlerContext → Result HandlerContext
with_action id (err e) = err e
with_action id (ok hc) = ok (record hc { action_id = id })

module _ (x : Externals) where
  abbrev pub wrap {ℓ} : {A : Type ℓ} → String → Result A → Result A
  wrap text (ok a) = ok a
  wrap text (err e) = err (transport_error (some e) text [])

  abbrev pub build_context : String → Result Object → Result HandlerContext
  build_context plugin_id (err e) = err e
  build_context plugin_id (ok msg) =
      wrap "failed to build handler context" (context_from_message msg plugin_id)

  unfoldable pub decode_context : String → Delivery → Result HandlerContext
  decode_context plugin_id d =
      build_context plugin_id
        (wrap "failed to decode incoming message" (decode_json x.codec d.body))

  -- an encoded body is published if there is a channel; whatever fails is only logged
  abbrev pub publish_encoded :
      (ch : Option ℕ) (exchange key : String) → (Bytes → Publishing) → Result Bytes → Step Unit
  publish_encoded none exchange key make body = pure tt
  publish_encoded (some ch) exchange key make (err e) = pure tt
  publish_encoded (some ch) exchange key make (ok body) =
      quietly (ask x (publish ch exchange key (make body)))

  unfoldable pub publish_reply : Delivery → Object → Step Unit
  publish_reply d payload = if d.reply_to == "" then pure tt else do
    w ← get
    publish_encoded w.ch "" d.reply_to (reply_publishing d) (encode_json x.codec (object payload))

  -- an id is drawn only if there is a channel
  abbrev pub node_result_on : Option ℕ → HandlerContext → Bool → Object → String → Step Unit
  node_result_on none hc done output fail_reason = pure tt
  node_result_on (some ch) hc done output fail_reason = do
    w ← get
    id ← draw x
    publish_encoded (some ch) w.cfg.router_exchange (node_result_routing_key hc.user_id)
        (event_publishing id)
        (encode_json x.codec (
          object (
            build_node_result_envelope hc.task_id id hc.user_id w.cfg.plugin_id hc.node_id done
              output fail_reason)))

  unfoldable pub dispatch_node_result : HandlerContext → Bool → Object → String → Step Unit
  dispatch_node_result hc done output fail_reason = do
    w ← get
    node_result_on w.ch hc done output fail_reason

  module _ (run : Runner) where
    abbrev pub run_handler : Handler → HandlerContext → Step (Result (Option Object))
    run_handler h hc w = (ok (run h hc), record w { handled = w.handled ++ (h, hc) ∷ [] })

    -- Path B, and what it reports
    abbrev pub report_node : HandlerContext → Result (Option Object) → Step Unit
    report_node hc (err e) = dispatch_node_result hc false [] (error_text x.sprintf e)
    report_node hc (ok result) = dispatch_node_result hc true (or_empty result) ""

    abbrev pub is_task_node : Delivery → HandlerContext → Bool
    is_task_node d hc = d.reply_to == "" && not (hc.node_id == "")

    abbrev pub provide : Handler → Delivery → Result HandlerContext → Step Unit
    provide h d (err e) = pure tt
    provide h d (ok hc) =
        if is_task_node d hc
        then (do result ← run_handler h hc; report_node hc result)
        else (do result ← run_handler h hc; publish_reply d (reply_object result))

    unfoldable pub handle_provider_delivery : ProviderRegistration → Delivery → Step Unit
    handle_provider_delivery reg d =
        finally (do w ← get; provide reg.handler d (decode_context w.cfg.plugin_id d))
          (ask x (ack d.tag))

    abbrev pub run_on : Handler → Result HandlerContext → Step Unit
    run_on h (err e) = pure tt
    run_on h (ok hc) = quietly (run_handler h hc)

    unfoldable pub handle_event_delivery : ConsumerRegistration → Delivery → Step Unit
    handle_event_delivery reg d =
        finally (do w ← get; run_on reg.handler (decode_context w.cfg.plugin_id d))
          (ask x (ack d.tag))

    abbrev pub act : String → Option ActionRegistration → Delivery → Step Unit
    act id none d = pure tt
    act id (some reg) d = do
      w ← get
      run_on reg.handler (with_action id (decode_context w.cfg.plugin_id d))

    unfoldable pub handle_action_delivery : Map ActionRegistration → Delivery → Step Unit
    handle_action_delivery by_id d =
        let id = action_id_from_routing_key d.routing_key in
        finally (act id (lookup id by_id) d) (ask x (ack d.tag))
