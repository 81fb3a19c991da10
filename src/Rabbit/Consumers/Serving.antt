-- ===== src/Rabbit/Consumers/Serving.antt =====
-- Which queues are consumed, and which loops run, after the consumers were started.
use griffino_go.Base.{
  ℕ, String, sym, false, true, Option, some, List, [], ◌∷◌, ◌++◌, map, append_assoc, append-nil,
  ◌≡◌, refl, ◌∙◌, ap, Option-cases, inl, inr,
}
use griffino_go.Errors.{Error, Result, ok, err, is, transport, transport_error}
use griffino_go.Errors.Hierarchy.{is-new_error}
use griffino_go.Models.{ProviderRegistration, ConsumerRegistration, ActionRegistration}
use griffino_go.Rabbit.Broker.{World, Call, consume, Externals, Routine, Step, after}
use griffino_go.Base.Maps.{Map, lookup}
use griffino_go.Config.{Config}
use griffino_go.RoutingKeys.{provider_queue_name, action_queue_name}
use griffino_go.Rabbit.Requests.{channel_or_fail}
use griffino_go.Rabbit.Triple.{Post, Post-map}
use griffino_go.Rabbit.Connection.Starting.{start_of_started}
use griffino_go.Rabbit.Consumers.{
  Setup, provider_setup, event_setup, action_setup, add_by_id, consume_queue, consume_each,
  consume_all, start_provider_consumers, start_event_consumers, start_action_consumers,
}
use griffino_go.Rabbit.Consumers.ById.{last_with, lookup-add_by_id}
use griffino_go.Rabbit.Consumers.Promised.{provider_service, action_service}

abbrev pub setup_calls : ℕ → List Setup → List Call
setup_calls ch [] = []
setup_calls ch (s ∷ ss) = s.declare ∷ consume ch s.queue false ∷ setup_calls ch ss

abbrev pub routines_of : List Setup → List Routine
routines_of [] = []
routines_of (s ∷ ss) = s.routine ∷ routines_of ss

-- The world with all of the queues declared and consumed in their order, and a loop for each.
abbrev pub serving : ℕ → List Setup → World → World
serving ch ss w = record w {
  calls = w.calls ++ setup_calls ch ss;
  routines = w.routines ++ routines_of ss;
}

-- What is left where the setups end early: a transport error, and the loops of those before.
pub record StopsWithin (ss : List Setup) (before : World) (e : Error) (w : World) : Type 0 where
  pub done : List Setup
  pub failed : Setup
  pub rest : List Setup
  pub in_order : ss ≡ done ++ failed ∷ rest
  pub running : w.routines ≡ before.routines ++ routines_of done
  pub classified : is e transport ≡ true
  pub same_conn : w.conn ≡ before.conn
  pub same_started : w.started ≡ before.started

is-transport_error :
    (e : Error) (f : String) (args : List String)
    → is (transport_error (some e) f args) transport ≡ true
unfolding transport_error
is-transport_error e f args = is-new_error transport transport (some e) f args refl

serving_two :
    (ch : ℕ) (s : Setup) (ss : List Setup) (w : World)
    → serving ch ss (serving ch (s ∷ []) w) ≡ serving ch (s ∷ ss) w
serving_two ch s ss w =
    rw
      (
        append_assoc w.calls (setup_calls ch (s ∷ [])) (setup_calls ch ss),
        append_assoc w.routines (s.routine ∷ []) (routines_of ss),
      )
      refl

module _ (x : Externals) (ch : ℕ) where
  consume_queue_lem :
      (s : Setup) (w : World)
      → Post
          (λ _ w'. w' ≡ serving ch (s ∷ []) w)
          (λ e w'. StopsWithin (s ∷ []) w e w')
          (consume_queue x ch s w)
  unfolding consume_queue
  consume_queue_lem s w = elim (Option-cases (x.answer w.calls s.declare)) [
    | inr (e, h) ↦ rw h (record {
      done = [];
      failed = s;
      rest = [];
      in_order = refl;
      running = sym (append-nil w.routines);
      classified = is-transport_error e _ _;
      same_conn = refl;
      same_started = refl;
    })
    | inl h ↦
        elim (Option-cases (x.answer (w.calls ++ s.declare ∷ []) (consume ch s.queue false))) [
          | inr (e, k) ↦
              rw (h, k)
                (record {
                  done = [];
                  failed = s;
                  rest = [];
                  in_order = refl;
                  running = sym (append-nil w.routines);
                  classified = is-transport_error e _ _;
                  same_conn = refl;
                  same_started = refl;
                })
          | inl k ↦
              rw (h, k, append_assoc w.calls (s.declare ∷ []) (consume ch s.queue false ∷ [])) refl
        ]
  ]

  -- one more setup in front of those that ended early
  StopsWithin-cons :
      (s : Setup) (ss : List Setup) (w w' w₁ : World) (e : Error)
      → w₁ ≡ serving ch (s ∷ []) w
      → StopsWithin ss w₁ e w'
      → StopsWithin (s ∷ ss) w e w'
  StopsWithin-cons s ss w w' w₁ e h p = record {
    done = s ∷ p.done;
    failed = p.failed;
    rest = p.rest;
    in_order = ap (λ ts. s ∷ ts) p.in_order;
    running =
        p.running
        ∙ (ap (λ v. v.routines ++ routines_of p.done) h
            ∙ append_assoc w.routines (s.routine ∷ []) (routines_of p.done));
    classified = p.classified;
    same_conn = p.same_conn ∙ ap (λ v. v.conn) h;
    same_started = p.same_started ∙ ap (λ v. v.started) h;
  }

  StopsWithin-first :
      (s : Setup) (ss : List Setup) (w w' : World) (e : Error)
      → StopsWithin (s ∷ []) w e w'
      → StopsWithin (s ∷ ss) w e w'
  StopsWithin-first s ss w w' e p = record {
    done = p.done;
    failed = p.failed;
    rest = p.rest ++ ss;
    in_order = ap (λ ts. ts ++ ss) p.in_order ∙ append_assoc p.done (p.failed ∷ p.rest) ss;
    running = p.running;
    classified = p.classified;
    same_conn = p.same_conn;
    same_started = p.same_started;
  }

  after_first :
      (s : Setup) (ss : List Setup) (w : World) (r : Result (Unit {0}) × World)
      → ((v : World)
          → Post (λ _ w'. w' ≡ serving ch ss v) (StopsWithin ss v) (consume_each x ch ss v))
      → Post (λ _ w'. w' ≡ serving ch (s ∷ []) w) (StopsWithin (s ∷ []) w) r
      → Post
          (λ _ w'. w' ≡ serving ch (s ∷ ss) w)
          (StopsWithin (s ∷ ss) w)
          (after r (λ _. consume_each x ch ss))
  after_first s ss w (err e, w') each p = StopsWithin-first s ss w w' e p
  after_first s ss w (ok u, w₁) each h =
      Post-map (consume_each x ch ss w₁)
        (λ _ w' p. p ∙ (ap (serving ch ss) h ∙ serving_two ch s ss w))
        (λ e w' p. StopsWithin-cons s ss w w' w₁ e h p) (each w₁)

  consume_each-Post :
      (ss : List Setup) (w : World)
      → Post (λ _ w'. w' ≡ serving ch ss w) (StopsWithin ss w) (consume_each x ch ss w)
  unfolding consume_each
  consume_each-Post [] w = rw (append-nil w.calls, append-nil w.routines) refl
  consume_each-Post (s ∷ ss) w =
      after_first s ss w (consume_queue x ch s w) (consume_each-Post ss) (consume_queue_lem s w)

channel_of_some :
    {B : Type 0} (o : Option ℕ) (ch : ℕ) (f : ℕ → Step B) (w : World)
    → o ≡ some ch
    → after (channel_or_fail o w) f ≡ f ch w
channel_of_some o ch f w c = rw c refl

consume_all_of_started :
    (x : Externals) (ch : ℕ) (setups : ℕ → Config → Option ℕ → List Setup) (w : World)
    → w.started ≡ true
    → w.ch ≡ some ch
    → consume_all x setups w ≡ consume_each x ch (setups ch w.cfg w.consumer_ctx) w
consume_all_of_started x ch setups w s c =
    rw (start_of_started x w s)
      (channel_of_some w.ch ch (λ ch'. consume_each x ch' (setups ch' w.cfg w.consumer_ctx)) w c)

-- On a started transport with a channel, if StartProviderConsumers succeeds the queue
-- plugin.<plugin id>.<capability id> of each provider has been declared passively and consumed, in
-- the order of the registrations, and a loop runs for each; nothing else has changed. If it fails
-- it fails with a transport error, the loops of the registrations before the failure run, and the
-- transport stays started on the same connection.
pub start_provider_consumers-serves :
    (x : Externals) (ch : ℕ) (regs : List ProviderRegistration) (w : World)
    → w.started ≡ true
    → w.ch ≡ some ch
    → Post
        (λ _ w'. w' ≡ serving ch (map (provider_service ch w.cfg.plugin_id w.consumer_ctx) regs) w)
        (StopsWithin (map (provider_service ch w.cfg.plugin_id w.consumer_ctx) regs) w)
        (start_provider_consumers x regs w)
unfolding start_provider_consumers provider_queue_name
start_provider_consumers-serves x ch regs w s c =
    rw (consume_all_of_started x ch (λ ch cfg ctx. map (provider_setup ch cfg ctx) regs) w s c)
      (consume_each-Post x ch (map (provider_setup ch w.cfg w.consumer_ctx) regs) w)

-- The same holds of StartEventConsumers, with what the source prepares for each event.
pub start_event_consumers-serves :
    (x : Externals) (ch : ℕ) (regs : List ConsumerRegistration) (w : World)
    → w.started ≡ true
    → w.ch ≡ some ch
    → Post
        (λ _ w'. w' ≡ serving ch (map (event_setup ch w.cfg w.consumer_ctx) regs) w)
        (StopsWithin (map (event_setup ch w.cfg w.consumer_ctx) regs) w)
        (start_event_consumers x regs w)
unfolding start_event_consumers
start_event_consumers-serves x ch regs w s c =
    rw (consume_all_of_started x ch (λ ch cfg ctx. map (event_setup ch cfg ctx) regs) w s c)
      (consume_each-Post x ch (map (event_setup ch w.cfg w.consumer_ctx) regs) w)

-- Without an action StartActionConsumers does nothing. With one, on a started transport with a
-- channel, if it succeeds the one queue action.<plugin id> has been declared passively and consumed
-- and its loop runs, on a map that has under each id the last registration with that id; if it
-- fails it fails with a transport error and no loop has been added.
pub start_action_consumers-serves :
    (x : Externals) (ch : ℕ) (reg : ActionRegistration) (regs : List ActionRegistration) (w : World)
    → w.started ≡ true
    → w.ch ≡ some ch
    → (start_action_consumers x [] w ≡ (ok tt, w))
      × (by_id : Map ActionRegistration) × ((id : String)
          → lookup id by_id ≡ last_with id (reg ∷ regs))
      × Post
          (λ _ w'. w' ≡ serving ch (action_service ch w.cfg.plugin_id w.consumer_ctx by_id ∷ []) w)
          (StopsWithin (action_service ch w.cfg.plugin_id w.consumer_ctx by_id ∷ []) w)
          (start_action_consumers x (reg ∷ regs) w)
unfolding start_action_consumers action_queue_name
start_action_consumers-serves x ch reg regs w s c = (
  refl,
  add_by_id (reg ∷ regs) [],
  λ id. lookup-add_by_id id (reg ∷ regs),
  rw
      (consume_all_of_started x ch
        (λ ch cfg ctx. action_setup ch cfg ctx (add_by_id (reg ∷ regs) []) ∷ []) w s c)
      (consume_each-Post x ch
        (action_setup ch w.cfg w.consumer_ctx (add_by_id (reg ∷ regs) []) ∷ []) w),
)
