-- ===== src/Rabbit/Deliveries/Acknowledged.antt =====
-- Every delivery is acknowledged once, last, and answered at most once.
use griffino_go.Base.{
  ℕ, String, ◌==◌, Bool, true, false, ◌++◌, Option, none, some, List, [], ◌∷◌, ◌≡◌, refl,
  Bool-cases, inl, inr, append-nil, sym, ap, ◌∙◌, ◌+◌,
}
use griffino_go.Base.Maps.{Map, lookup}
use griffino_go.Json.{Object}
use griffino_go.Errors.{Result, ok, err}
use griffino_go.Codec.{Bytes}
use griffino_go.Context.{HandlerContext, or_empty}
use griffino_go.Models.{Handler, ProviderRegistration, ConsumerRegistration, ActionRegistration}
use griffino_go.RoutingKeys.{action_id_from_routing_key}
use griffino_go.Rabbit.Broker.{ask, World, Publishing, Delivery, Call, publish, ack, Externals}
use griffino_go.Rabbit.Deliveries.{
  Runner, node_result_on, reply_object, publish_encoded, publish_reply, dispatch_node_result,
  report_node, provide, run_on, act, with_action, decode_context, handle_provider_delivery,
  handle_event_delivery, handle_action_delivery, is_task_node,
}

-- What a step asks of the broker beyond what was asked before: nothing, or one publication.
pub data SaysAtMostOne (before after : List Call) : Type 0 where
  nothing : after ≡ before → SaysAtMostOne before after
  one :
      (ch : ℕ) (exchange key : String) (p : Publishing)
      → after ≡ before ++ publish ch exchange key p ∷ []
      → SaysAtMostOne before after

-- Handlers that ran on a context, if there was one.
abbrev pub runs : Handler → Result HandlerContext → List (Handler × HandlerContext)
runs h (err e) = []
runs h (ok hc) = (h, hc) ∷ []

abbrev pub action_runs :
    String → Option ActionRegistration → Result HandlerContext → List (Handler × HandlerContext)
action_runs id none context = []
action_runs id (some reg) context = runs reg.handler (with_action id context)

-- From `before` to `after` at most one message is published, and exactly `ran` has run; the
-- configuration stays.
pub record Handles (ran : List (Handler × HandlerContext)) (before after : World) : Type 0 where
  pub says : SaysAtMostOne before.calls after.calls
  pub ran_these : after.handled ≡ before.handled ++ ran
  pub same_cfg : after.cfg ≡ before.cfg

pub silent : (w : World) → Handles [] w w
silent w = record { says = nothing refl; ran_these = sym (append-nil w.handled); same_cfg = refl }

module _ (x : Externals) where
  publish_encoded-Handles :
      (ch : Option ℕ) (exchange key : String) (make : Bytes → Publishing) (body : Result Bytes)
      (w : World)
      → Handles [] w (publish_encoded x ch exchange key make body w).1
  publish_encoded-Handles none exchange key make body w = silent w
  publish_encoded-Handles (some ch) exchange key make (err e) w = silent w
  publish_encoded-Handles (some ch) exchange key make (ok body) w = record {
    says = one ch exchange key (make body) refl;
    ran_these = sym (append-nil w.handled);
    same_cfg = refl;
  }

  publish_reply-Handles :
      (d : Delivery) (payload : Object) (w : World) → Handles [] w (publish_reply x d payload w).1
  unfolding publish_reply
  publish_reply-Handles d payload w = elim (Bool-cases (d.reply_to == "")) [
    | inl e ↦ rw e (silent w)
    | inr e ↦ rw e (publish_encoded-Handles w.ch "" d.reply_to _ _ w)
  ]

  node_result_on-Handles :
      (ch : Option ℕ) (hc : HandlerContext) (done : Bool) (output : Object) (reason : String)
      (w : World)
      → Handles [] w (node_result_on x ch hc done output reason w).1
  node_result_on-Handles none hc done output reason w = silent w
  node_result_on-Handles (some ch) hc done output reason w =
      let h = publish_encoded-Handles (some ch) _ _ _ _ (record w { drawn = w.drawn + 1 }) in
      record { says = h.says; ran_these = h.ran_these; same_cfg = h.same_cfg }

  dispatch_node_result-Handles :
      (hc : HandlerContext) (done : Bool) (output : Object) (reason : String) (w : World)
      → Handles [] w (dispatch_node_result x hc done output reason w).1
  unfolding dispatch_node_result
  dispatch_node_result-Handles hc done output reason w =
      node_result_on-Handles w.ch hc done output reason w

  module _ (run : Runner) where
    report_node-Handles :
        (hc : HandlerContext) (result : Result (Option Object)) (w : World)
        → Handles [] w (report_node x run hc result w).1
    report_node-Handles hc (err e) w = dispatch_node_result-Handles hc false [] _ w
    report_node-Handles hc (ok r) w = dispatch_node_result-Handles hc true (or_empty r) "" w

    -- What follows a run of the handler publishes at most once and runs nothing more.
    then_Handles :
        {h : Handler} {hc : HandlerContext} {w w' : World}
        → Handles [] (record w { handled = w.handled ++ (h, hc) ∷ [] }) w'
        → Handles ((h, hc) ∷ []) w w'
    then_Handles {h} {hc} {w} p = record {
      says = p.says;
      ran_these = p.ran_these ∙ append-nil (w.handled ++ (h, hc) ∷ []);
      same_cfg = p.same_cfg;
    }

    provide-Handles :
        (h : Handler) (d : Delivery) (context : Result HandlerContext) (w : World)
        → Handles (runs h context) w (provide x run h d context w).1
    provide-Handles h d (err e) w = silent w
    provide-Handles h d (ok hc) w = elim (Bool-cases (is_task_node x run d hc)) [
      | inl e ↦ rw e (then_Handles (report_node-Handles hc (run h hc) _))
      | inr e ↦ rw e (then_Handles (publish_reply-Handles d (reply_object (run h hc)) _))
    ]

    pub run_on-Handles :
        (h : Handler) (context : Result HandlerContext) (w : World)
        → Handles (runs h context) w (run_on x run h context w).1
    run_on-Handles h (err e) w = silent w
    run_on-Handles h (ok hc) w = record { says = nothing refl; ran_these = refl; same_cfg = refl }

  -- Before the last call, `ack`, a delivery was handled.
  pub record Acknowledges (d : Delivery) (ran : List (Handler × HandlerContext))
      (before after : World) : Type 0 where
    pub asked : List Call
    pub says : SaysAtMostOne before.calls asked
    pub then_ack : after.calls ≡ asked ++ ack d.tag ∷ []
    pub ran_these : after.handled ≡ before.handled ++ ran
    pub same_cfg : after.cfg ≡ before.cfg

  pub acknowledged :
      {d : Delivery} {ran : List (Handler × HandlerContext)} {before mid : World}
      → Handles ran before mid
      → Acknowledges d ran before (ask x (ack d.tag) mid).1
  acknowledged {mid} h = record {
    asked = mid.calls;
    says = h.says;
    then_ack = refl;
    ran_these = h.ran_these;
    same_cfg = h.same_cfg;
  }

  module _ (run : Runner) where
    -- Whatever a provider's delivery holds, whatever its handler, one that does not use the client
    -- while it runs, gives or panics with, and whatever the broker answers, the delivery is
    -- acknowledged once, as the last call to the broker; at most one message is published before
    -- that, and the handler runs once on the decoded context, or not at all if there is none; the
    -- configuration stays.
    pub handle_provider_delivery-Acknowledges :
        (reg : ProviderRegistration) (d : Delivery) (w : World)
        → Acknowledges d
            (runs reg.handler (decode_context x w.cfg.plugin_id d))
            w
            (handle_provider_delivery x run reg d w).1
    unfolding handle_provider_delivery
    handle_provider_delivery-Acknowledges reg d w =
        acknowledged (provide-Handles run reg.handler d (decode_context x w.cfg.plugin_id d) w)

    run_on-calls :
        (h : Handler) (context : Result HandlerContext) (w : World)
        → (run_on x run h context w).1.calls ≡ w.calls
    run_on-calls h (err e) w = refl
    run_on-calls h (ok hc) w = refl

    -- An event's delivery is acknowledged and nothing else is asked of the broker; the handler runs
    -- once on the decoded context, or not at all if there is none.
    pub handle_event_delivery-Acknowledges :
        (reg : ConsumerRegistration) (d : Delivery) (w : World)
        → ((handle_event_delivery x run reg d w).1.calls ≡ w.calls ++ ack d.tag ∷ [])
          × ((handle_event_delivery x run reg d w).1.handled
              ≡ w.handled ++ runs reg.handler (decode_context x w.cfg.plugin_id d))
    unfolding handle_event_delivery
    handle_event_delivery-Acknowledges reg d w =
        let context = decode_context x w.cfg.plugin_id d in
        (
          ap (λ (cs : List Call). cs ++ ack d.tag ∷ []) (run_on-calls reg.handler context w),
          (run_on-Handles run reg.handler context w).ran_these,
        )

    act-effect :
        (id : String) (found : Option ActionRegistration) (d : Delivery) (w : World)
        → ((act x run id found d w).1.calls ≡ w.calls)
          × ((act x run id found d w).1.handled
              ≡ w.handled ++ action_runs id found (decode_context x w.cfg.plugin_id d))
    act-effect id none d w = (refl, sym (append-nil w.handled))
    act-effect id (some reg) d w =
        let context = with_action id (decode_context x w.cfg.plugin_id d) in
        (run_on-calls reg.handler context w, (run_on-Handles run reg.handler context w).ran_these)

    -- An action's delivery is acknowledged and nothing else is asked of the broker; the handler
    -- that is registered under the id in the routing key runs once, on the decoded context with
    -- that id; without a registration or a context none runs.
    pub handle_action_delivery-Acknowledges :
        (by_id : Map ActionRegistration) (d : Delivery) (w : World)
        → ((handle_action_delivery x run by_id d w).1.calls ≡ w.calls ++ ack d.tag ∷ [])
          × ((handle_action_delivery x run by_id d w).1.handled
              ≡ w.handled
                ++ action_runs
                    (action_id_from_routing_key d.routing_key)
                    (lookup (action_id_from_routing_key d.routing_key) by_id)
                    (decode_context x w.cfg.plugin_id d))
    unfolding handle_action_delivery
    handle_action_delivery-Acknowledges by_id d w =
        let id = action_id_from_routing_key d.routing_key in
        let (asked, ran) = act-effect id (lookup id by_id) d w in
        (ap (λ (cs : List Call). cs ++ ack d.tag ∷ []) asked, ran)
