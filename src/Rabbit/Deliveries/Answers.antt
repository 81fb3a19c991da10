-- ===== src/Rabbit/Deliveries/Answers.antt =====
-- What a provider's delivery is answered with, on each of its two paths.
use griffino_go.Base.{ℕ, ◌++◌, Option, none, some, [], ◌∷◌, ◌≡◌, ◌≢◌, refl, test_of_ne}
use griffino_go.Json.{Object, object}
use griffino_go.Errors.{Error, Result, ok, err}
use griffino_go.Envelopes.{build_provider_error}
use griffino_go.Codec.{Bytes, encode_json}
use griffino_go.Context.{HandlerContext}
use griffino_go.Models.{ProviderRegistration}
use griffino_go.Rabbit.Broker.{World, Delivery, publish, ack, Externals}
use griffino_go.Rabbit.Deliveries.{
  Runner, publish_reply, reply_object, decode_context, handle_provider_delivery,
}
use griffino_go.Rabbit.Deliveries.Promised.{promised_reply, json_message, promised_node_result}

reply_object-promised_reply :
    (result : Result (Option Object)) → reply_object result ≡ promised_reply result
unfolding build_provider_error
reply_object-promised_reply (ok (some r)) = refl
reply_object-promised_reply (ok none) = refl
reply_object-promised_reply (err e) = refl

module _ (x : Externals) (run : Runner) where
  abbrev pub promised_body : Result (Option Object) → HandlerContext → World → Object
  promised_body result hc w =
      promised_node_result x.sprintf (x.message_id w.drawn) w.cfg.plugin_id hc result

module _ (x : Externals) (run : Runner) (reg : ProviderRegistration) (d : Delivery) (w : World)
    {hc : HandlerContext} (decoded : decode_context x w.cfg.plugin_id d ≡ ok hc) where
  -- A delivery with a reply queue is a synchronous invocation, also where it names a node: if there
  -- is a channel, the answer can be encoded and the handler does not use the client while it runs,
  -- the handler's result, or {} for none, or the fixed provider error goes to that queue on the
  -- default exchange under the correlation id of the request.
  pub handle_provider_delivery-reply :
      {c : ℕ} {body : Bytes}
      → d.reply_to ≢ ""
      → w.ch ≡ some c
      → encode_json x.codec (object (promised_reply (run reg.handler hc))) ≡ ok body
      → (handle_provider_delivery x run reg d w).1.calls
        ≡ (w.calls ++ publish c "" d.reply_to (json_message d.correlation_id "" body) ∷ [])
          ++ ack d.tag ∷ []
  unfolding handle_provider_delivery publish_reply
  handle_provider_delivery-reply ne there encoded =
      rw
        (
          decoded,
          test_of_ne d.reply_to "" ne,
          reply_object-promised_reply (run reg.handler hc),
          there,
          encoded,
        )
        refl

  -- With neither a reply queue nor a node the handler runs, and its result is dropped.
  pub handle_provider_delivery-dropped :
      d.reply_to ≡ ""
      → hc.node_id ≡ ""
      → ((handle_provider_delivery x run reg d w).1.calls ≡ w.calls ++ ack d.tag ∷ [])
        × ((handle_provider_delivery x run reg d w).1.handled ≡ w.handled ++ (reg.handler, hc) ∷ [])
  unfolding handle_provider_delivery publish_reply
  handle_provider_delivery-dropped none_to none_node = rw (decoded, none_to, none_node) (refl, refl)

-- With a reply queue the whole effect of a decoded delivery on the transport is the same for every
-- error of the handler: the invoker cannot tell one failure from another.
pub handle_provider_delivery-error_hidden :
    (x : Externals) (run run' : Runner) (reg : ProviderRegistration) (d : Delivery) (w : World)
    (hc : HandlerContext) (e e' : Error)
    → decode_context x w.cfg.plugin_id d ≡ ok hc
    → d.reply_to ≢ ""
    → run reg.handler hc ≡ err e
    → run' reg.handler hc ≡ err e'
    → handle_provider_delivery x run reg d w ≡ handle_provider_delivery x run' reg d w
unfolding handle_provider_delivery
handle_provider_delivery-error_hidden x run run' reg d w hc e e' decoded ne h h' =
    rw (decoded, test_of_ne d.reply_to "" ne, h, h') refl
