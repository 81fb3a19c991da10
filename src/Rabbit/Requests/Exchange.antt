-- ===== src/Rabbit/Requests/Exchange.antt =====
-- What Invoke and Dispatch ask of the broker, what they return, and what becomes of the waiter.
use griffino_go.Base.{ℕ, String, true, Option, none, some, [], ◌∷◌, ◌++◌, ◌≡◌, refl}
use griffino_go.Base.Number.{itoa}
use griffino_go.Base.Text.{◌<>◌}
use griffino_go.Json.{Object, object}
use griffino_go.Errors.{Error, Result, ok, err, transport_error, timeout_error}
use griffino_go.Codec.{Bytes, encode_json}
use griffino_go.Models.{InvokeRequest, DispatchRequest}
use griffino_go.RoutingKeys.{invoke_routing_key, dispatch_routing_key}
use griffino_go.Rabbit.Broker.{World, Call, publish, Externals}
use griffino_go.Rabbit.Connection.Starting.{start_of_started}
use griffino_go.Rabbit.Requests.{
  Wakeup, reply, timer, context_done, invoke_publishing, event_publishing, dispatch_envelope,
  dispatch,
}

-- the result of a request whose publication was answered so
abbrev pub answered : {A : Type 0} → Option Error → String → Result A → Result A
answered none text r = r
answered (some e) text r = err (transport_error (some e) text [])

module _ (x : Externals) where
  abbrev pub invoke_call : ℕ → String → InvokeRequest → Bytes → World → Call
  invoke_call ch id req body w =
      publish ch w.cfg.router_exchange (invoke_routing_key req.user_id req.capability_type)
        (invoke_publishing id req body)

  abbrev pub dispatch_call : ℕ → String → DispatchRequest → Bytes → World → Call
  dispatch_call ch id req body w =
      publish ch w.cfg.router_exchange (dispatch_routing_key req.user_id req.event)
        (event_publishing id body)

  -- What Invoke returns after its publication was answered so: the error of the broker as a transport
  -- error; or else the reply, the timeout or the cancellation that ended the wait.
  abbrev pub Returns : Option Error → Wakeup → Result (Option Object) → Type 0
  Returns (some e) wakeup r =
      r ≡ err (transport_error (some e) "failed to publish invoke request" [])
  Returns none (reply v) r = r ≡ ok v
  Returns none timer r = r ≡ err (timeout_error none "provider_timeout" [])
  Returns none (context_done e) r = r ≡ err (transport_error (some e) "invoke canceled" [])

  -- The one message of an Invoke: to the router, for the user and the capability, under its own id
  -- as message id and correlation id, to be answered on the direct reply queue, with the time limit
  -- as its expiration.
  abbrev pub request_call : ℕ → String → InvokeRequest → Bytes → (exchange : String) → Call
  request_call ch id req body exchange =
      publish ch exchange
        ("invoke.griffino.router." <> req.user_id <> "." <> req.capability_type <> ".v1")
        (record {
          content_type = "application/json";
          correlation_id = id;
          message_id = id;
          reply_to = "amq.rabbitmq.reply-to";
          expiration = itoa req.timeout_ms;
          persistent = true;
          body = body;
        })

  dispatch_answered :
      (ch : ℕ) (req : DispatchRequest) (body : Bytes) (w : World) (a : Option Error)
      → w.started ≡ true
      → w.ch ≡ some ch
      → encode_json x.codec (object (dispatch_envelope (x.message_id w.drawn) req)) ≡ ok body
      → x.answer w.calls (dispatch_call ch (x.message_id w.drawn) req body w) ≡ a
      → ((dispatch x req w).1.calls
          ≡ w.calls ++ dispatch_call ch (x.message_id w.drawn) req body w ∷ [])
        × ((dispatch x req w).1.pending ≡ w.pending)
        × ((dispatch x req w).0 ≡ answered a "failed to publish dispatch event" (ok tt))
  unfolding dispatch
  dispatch_answered ch req body w none s c e h =
      rw (start_of_started x w s, c, e, h) (refl, refl, refl)
  dispatch_answered ch req body w (some error) s c e h =
      rw (start_of_started x w s, c, e, h) (refl, refl, refl)

  -- On a started transport with a channel, for an event that can be encoded, Dispatch asks one
  -- thing of the broker, the publication of the event on the router exchange, succeeds exactly if
  -- that does, and awaits no reply.
  pub dispatch-publishes :
      (ch : ℕ) (req : DispatchRequest) (body : Bytes) (w : World)
      → w.started ≡ true
      → w.ch ≡ some ch
      → encode_json x.codec (object (dispatch_envelope (x.message_id w.drawn) req)) ≡ ok body
      → ((dispatch x req w).1.calls
          ≡ w.calls ++ dispatch_call ch (x.message_id w.drawn) req body w ∷ [])
        × ((dispatch x req w).1.pending ≡ w.pending)
        × ((dispatch x req w).0
            ≡ answered
                (x.answer w.calls (dispatch_call ch (x.message_id w.drawn) req body w))
                "failed to publish dispatch event"
                (ok tt))
  dispatch-publishes ch req body w s c e =
      dispatch_answered ch req body w
        (x.answer w.calls (dispatch_call ch (x.message_id w.drawn) req body w)) s c e refl
