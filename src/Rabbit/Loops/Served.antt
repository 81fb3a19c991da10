-- ===== src/Rabbit/Loops/Served.antt =====
-- What the loops of the consumers do with the deliveries that they take.
use griffino_go.Base.{
  ℕ, String, Option, none, some, List, [], ◌∷◌, ◌++◌, ◌≡◌, refl, sym, ap, ◌∙◌, append-nil,
  append_assoc, map,
}
use griffino_go.Base.Maps.{Map, lookup}
use griffino_go.Config.{Config}
use griffino_go.Context.{HandlerContext}
use griffino_go.Models.{Handler, ProviderRegistration, ConsumerRegistration, ActionRegistration}
use griffino_go.RoutingKeys.{action_id_from_routing_key}
use griffino_go.Rabbit.Broker.{World, Call, publish, ack, Delivery, Externals, Step}
use griffino_go.Rabbit.Deliveries.{
  Runner, decode_context, handle_provider_delivery, handle_event_delivery, handle_action_delivery,
  act,
}
use griffino_go.Rabbit.Deliveries.Acknowledged.{
  SaysAtMostOne, nothing, one, runs, action_runs, Handles, Acknowledges, acknowledged,
  run_on-Handles, handle_provider_delivery-Acknowledges, silent,
}
use griffino_go.Rabbit.Loops.{
  Taken, done, no_more, delivered, consumer_loop, run_provider_consumer, run_event_consumer,
  run_action_consumer,
}

-- The deliveries that are taken before the loop returns.
abbrev pub served : List Taken → List Delivery
served [] = []
served (done ∷ later) = []
served (no_more ∷ later) = []
served (delivered d ∷ later) = d ∷ served later

abbrev ack_tag : Call → List ℕ → List ℕ
ack_tag (ack tag) tags = tag ∷ tags
ack_tag _ tags = tags

-- The tags that were acknowledged, in order.
unfoldable pub acks : List Call → List ℕ
acks [] = []
acks (c ∷ cs) = ack_tag c (acks cs)

ack_tag-append : (c : Call) (xs ys : List ℕ) → ack_tag c (xs ++ ys) ≡ ack_tag c xs ++ ys
ack_tag-append (ack tag) xs ys = refl
ack_tag-append _ xs ys = refl

acks-append : (cs ds : List Call) → acks (cs ++ ds) ≡ acks cs ++ acks ds
unfolding acks
acks-append [] ds = refl
acks-append (c ∷ cs) ds = rw (acks-append cs ds) (ack_tag-append c (acks cs) (acks ds))

acks-SaysAtMostOne :
    {before after : List Call} → SaysAtMostOne before after → acks after ≡ acks before
unfolding acks
acks-SaysAtMostOne (nothing e) = ap acks e
acks-SaysAtMostOne {before} (one ch exchange key p e) =
    ap acks e ∙ acks-append before (publish ch exchange key p ∷ []) ∙ append-nil (acks before)

abbrev tag_of : Delivery → ℕ
tag_of d = d.tag

-- What runs for one delivery, given the configuration.
abbrev Runs : Type 0
Runs = Config → Delivery → List (Handler × HandlerContext)

abbrev all_runs : Runs → Config → List Delivery → List (Handler × HandlerContext)
all_runs ran cfg [] = []
all_runs ran cfg (d ∷ ds) = ran cfg d ++ all_runs ran cfg ds

-- From `before` to `after` the deliveries are acknowledged, each once and in their order, and for
-- each of them exactly its handlers have run, in that order too.
pub record Serves (ran : Runs) (ds : List Delivery) (before after : World) : Type 0 where
  pub acknowledged : acks after.calls ≡ acks before.calls ++ map tag_of ds
  pub ran_all : after.handled ≡ before.handled ++ all_runs ran before.cfg ds
  pub same_cfg : after.cfg ≡ before.cfg

module _ (x : Externals) (ran : Runs) where
  Serves-first :
      (d : Delivery) (ds : List Delivery) (before mid after : World)
      → Acknowledges x d (ran before.cfg d) before mid
      → Serves ran ds mid after
      → Serves ran (d ∷ ds) before after
  unfolding acks
  Serves-first d ds before mid after a s = record {
    acknowledged =
        s.acknowledged
        ∙ ap (λ (t : List ℕ). t ++ map tag_of ds)
            (ap acks a.then_ack
              ∙ acks-append a.asked (ack d.tag ∷ [])
              ∙ ap (λ (t : List ℕ). t ++ d.tag ∷ []) (acks-SaysAtMostOne a.says))
        ∙ append_assoc (acks before.calls) (d.tag ∷ []) (map tag_of ds);
    ran_all =
        s.ran_all
        ∙ ap (λ (c : Config). mid.handled ++ all_runs ran c ds) a.same_cfg
        ∙ ap (λ (h : List (Handler × HandlerContext)). h ++ all_runs ran before.cfg ds) a.ran_these
        ∙ append_assoc before.handled (ran before.cfg d) (all_runs ran before.cfg ds);
    same_cfg = s.same_cfg ∙ a.same_cfg;
  }

  Serves-none : (w : World) → Serves ran [] w w
  Serves-none w = record {
    acknowledged = sym (append-nil (acks w.calls));
    ran_all = sym (append-nil w.handled);
    same_cfg = refl;
  }

  Serves-consumer_loop :
      (handle : Delivery → Step Unit)
      → ((d : Delivery) (w : World) → Acknowledges x d (ran w.cfg d) w (handle d w).1)
      → (taken : List Taken) (w : World)
      → Serves ran (served taken) w (consumer_loop handle taken w).1
  unfolding consumer_loop
  Serves-consumer_loop handle each [] w = Serves-none w
  Serves-consumer_loop handle each (done ∷ later) w = Serves-none w
  Serves-consumer_loop handle each (no_more ∷ later) w = Serves-none w
  Serves-consumer_loop handle each (delivered d ∷ later) w =
      let mid = (handle d w).1 in
      Serves-first d (served later) w mid (consumer_loop handle later mid).1 (each d w)
        (Serves-consumer_loop handle each later mid)

module _ (x : Externals) (run : Runner) where
  abbrev pub provider_runs : ProviderRegistration → Runs
  provider_runs reg cfg d = runs reg.handler (decode_context x cfg.plugin_id d)

  abbrev pub event_runs : ConsumerRegistration → Runs
  event_runs reg cfg d = runs reg.handler (decode_context x cfg.plugin_id d)

  abbrev pub registered_runs : Map ActionRegistration → Runs
  registered_runs by_id cfg d =
      action_runs (action_id_from_routing_key d.routing_key)
        (lookup (action_id_from_routing_key d.routing_key) by_id) (decode_context x cfg.plugin_id d)

  event-Acknowledges :
      (reg : ConsumerRegistration) (d : Delivery) (w : World)
      → Acknowledges x d (event_runs reg w.cfg d) w (handle_event_delivery x run reg d w).1
  unfolding handle_event_delivery
  event-Acknowledges reg d w =
      acknowledged x (run_on-Handles x run reg.handler (decode_context x w.cfg.plugin_id d) w)

  act-Handles :
      (id : String) (found : Option ActionRegistration) (d : Delivery) (w : World)
      → Handles
          (action_runs id found (decode_context x w.cfg.plugin_id d))
          w
          (act x run id found d w).1
  act-Handles id none d w = silent w
  act-Handles id (some reg) d w = run_on-Handles x run reg.handler _ w

  action-Acknowledges :
      (by_id : Map ActionRegistration) (d : Delivery) (w : World)
      → Acknowledges x d
          (registered_runs by_id w.cfg d)
          w
          (handle_action_delivery x run by_id d w).1
  unfolding handle_action_delivery
  action-Acknowledges by_id d w = acknowledged x (
      act-Handles (action_id_from_routing_key d.routing_key)
        (lookup (action_id_from_routing_key d.routing_key) by_id) d w)

  -- Each of the three consumer loops acknowledges every delivery that it takes before its context
  -- is done or its channel is closed, once and in order, and runs for each, in that order, what
  -- handling it runs: the handler of the provider or of the event on the decoded context, or that
  -- of the action which is registered under the id in the routing key; nothing runs for a delivery
  -- that cannot be decoded, and the configuration stays.
  pub consumers-Serve :
      (reg : ProviderRegistration) (event : ConsumerRegistration) (by_id : Map ActionRegistration)
      (taken : List Taken) (w : World)
      → Serves (provider_runs reg) (served taken) w (run_provider_consumer x run reg taken w).1
        × Serves (event_runs event) (served taken) w (run_event_consumer x run event taken w).1
        × Serves
            (registered_runs by_id)
            (served taken)
            w
            (run_action_consumer x run by_id taken w).1
  unfolding run_provider_consumer run_event_consumer run_action_consumer
  consumers-Serve reg event by_id taken w = (
    Serves-consumer_loop x (provider_runs reg) (handle_provider_delivery x run reg)
        (λ d v. handle_provider_delivery-Acknowledges x run reg d v) taken w,
    Serves-consumer_loop x (event_runs event) (handle_event_delivery x run event)
        (λ d v. event-Acknowledges event d v) taken w,
    Serves-consumer_loop x (registered_runs by_id) (handle_action_delivery x run by_id)
        (λ d v. action-Acknowledges by_id d v) taken w,
  )
