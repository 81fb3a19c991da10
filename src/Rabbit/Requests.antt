-- ===== src/Rabbit/Requests.antt =====
-- Invoke and Dispatch of rabbitmq.go. What ends the wait of Invoke is given, a `Wakeup`.
pub mod Exchange
use griffino_go.Base.{ℕ, String, true, Option, none, some, [], ◌∷◌}
use griffino_go.Base.Maps.{insert, delete}
use griffino_go.Base.Number.{itoa}
use griffino_go.Json.{Object, object}
use griffino_go.Errors.{Error, Result, ok, err, transport_error, timeout_error}
use griffino_go.Envelopes.{build_invoke_envelope, build_dispatch_envelope}
use griffino_go.Codec.{Bytes, encode_json}
use griffino_go.Models.{InvokeRequest, DispatchRequest}
use griffino_go.RoutingKeys.{invoke_routing_key, dispatch_routing_key}
use griffino_go.Rabbit.Broker.{
  World, Publishing, publish, Externals, Step, ◌>>=◌, ◌>>◌, pure, fail, get, modify, create, catch,
  finally, ask, draw,
}
use griffino_go.Rabbit.Connection.{start, reply_queue_name}

-- What the select of Invoke takes: a value from the waiter (nil from a closed one), the timer, or
-- the cancelled context. Which of them a waiter allows is `Takes` of Rabbit/Replies.
pub data Wakeup : Type 0 where
  reply : Option Object → Wakeup
  timer : Wakeup
  context_done : Error → Wakeup

abbrev pub woken : Wakeup → Result (Option Object)
woken (reply r) = ok r
woken timer = err (timeout_error none "provider_timeout" [])
woken (context_done e) = err (transport_error (some e) "invoke canceled" [])

abbrev pub lift : {A : Type 0} → Result A → Step A
lift r w = (r, w)

-- the test on `t.ch`
abbrev pub channel_or_fail : Option ℕ → Step ℕ
channel_or_fail none = fail (transport_error none "RabbitMQ transport is not initialized" [])
channel_or_fail (some ch) = pure ch

abbrev pub current_channel : Step ℕ
current_channel = do w ← get; channel_or_fail w.ch

abbrev pub invoke_publishing : String → InvokeRequest → Bytes → Publishing
invoke_publishing id req body = record {
  content_type = "application/json";
  correlation_id = id;
  message_id = id;
  reply_to = reply_queue_name;
  expiration = itoa req.timeout_ms;
  persistent = true;
  body = body;
}

abbrev pub event_publishing : String → Bytes → Publishing
event_publishing id body = record {
  content_type = "application/json";
  correlation_id = id;
  message_id = id;
  reply_to = "";
  expiration = "";
  persistent = true;
  body = body;
}

abbrev pub register : String → ℕ → World → World
register id waiter w = record w { pending = insert id waiter w.pending }

abbrev pub unregister : String → World → World
unregister id w = record w { pending = delete id w.pending }

abbrev pub invoke_envelope : String → InvokeRequest → Object
invoke_envelope id req =
    build_invoke_envelope req.task_id id req.user_id req.plugin_id req.payload req.slot

abbrev pub dispatch_envelope : String → DispatchRequest → Object
dispatch_envelope id req =
    build_dispatch_envelope req.task_id id req.user_id req.plugin_id req.event req.payload

module _ (x : Externals) where
  abbrev pub publish_or_fail : (ch : ℕ) (exchange key : String) → Publishing → String → Step Unit
  publish_or_fail ch exchange key pub_ text =
      catch (ask x (publish ch exchange key pub_)) λ e. fail (transport_error (some e) text [])

  -- from the registration of the waiter on; the deferred function removes it
  unfoldable pub await_reply : ℕ → String → InvokeRequest → Bytes → Wakeup → Step (Option Object)
  await_reply ch id req body wakeup = do
    w ← get
    waiter ← create
    modify (register id waiter)
    finally
        (do
          publish_or_fail ch w.cfg.router_exchange
              (invoke_routing_key req.user_id req.capability_type) (invoke_publishing id req body)
              "failed to publish invoke request"
          lift (woken wakeup))
        (modify (unregister id))

  unfoldable pub invoke : InvokeRequest → Wakeup → Step (Option Object)
  invoke req wakeup = do
    start x
    ch ← current_channel
    id ← draw x
    body ←
        catch (lift (encode_json x.codec (object (invoke_envelope id req))))
          λ e. fail (transport_error (some e) "failed to encode invoke envelope" [])
    await_reply ch id req body wakeup

  unfoldable pub dispatch : DispatchRequest → Step Unit
  dispatch req = do
    start x
    ch ← current_channel
    w ← get
    id ← draw x
    body ←
        catch (lift (encode_json x.codec (object (dispatch_envelope id req))))
          λ e. fail (transport_error (some e) "failed to encode dispatch envelope" [])
    publish_or_fail ch w.cfg.router_exchange (dispatch_routing_key req.user_id req.event)
        (event_publishing id body) "failed to publish dispatch event"
