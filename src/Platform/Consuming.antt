-- ===== src/Platform/Consuming.antt =====
-- Starting consumers keeps the connection as it is.
use griffino_go.Base.{
  ℕ, String, false, true, Option, none, some, List, [], ◌∷◌, ◌++◌, map, All, ◌≡◌, refl, arith,
}
use griffino_go.Config.{Config}
use griffino_go.Errors.{Error, transport_error}
use griffino_go.Models.{ProviderRegistration, ConsumerRegistration, ActionRegistration}
use griffino_go.Rabbit.Broker.{World, Call, consume, Externals, Routine, get, modify}
use griffino_go.Rabbit.Triple.{
  Triple, Triple-bind, Triple-pure, Triple-fail, Triple-catch, Triple-ask, Post-map,
}
use griffino_go.Rabbit.Connection.{start}
use griffino_go.Rabbit.Connection.Balance.{IsValid, dials_by, closes_by, dials-snoc, closes-snoc}
use griffino_go.Rabbit.Connection.Starting.{start-IsValid}
use griffino_go.Rabbit.Requests.{channel_or_fail}
use griffino_go.Rabbit.Consumers.{
  Setup, provider_setup, event_setup, action_setup, add_by_id, spawn, ask_or_fail, consume_queue,
  consume_each, consume_all, start_provider_consumers, start_event_consumers,
  start_action_consumers,
}

-- a call that neither opens nor closes a connection
abbrev IsNeutral : Call → Type 0
IsNeutral c = (closes_by c ≡ 0) × ((a : Option Error) → dials_by a c ≡ 0)

module _ (x : Externals) where
  pub record IsUp (w : World) : Type 0 where
    pub valid : IsValid x w
    pub up : w.started ≡ true

  called-IsUp :
      (c : Call) (w : World) → IsNeutral c → IsUp w → IsUp (record w { calls = w.calls ++ c ∷ [] })
  called-IsUp c w n v = record {
    valid = record {
      with_conn = v.valid.with_conn;
      with_ch = v.valid.with_ch;
      with_ctx = v.valid.with_ctx;
      balanced =
          let b = v.valid.balanced in
          let p = n.1 (x.answer w.calls c) in
          let q = n.0 in
          let d = dials-snoc x w.calls c in let e = closes-snoc w.calls c in omega (arith, d, e, b);
    };
    up = v.up;
  }

  ask_or_fail-IsUp :
      (c : Call) (text queue : String)
      → IsNeutral c
      → Triple IsUp (ask_or_fail x c text queue) (λ _. IsUp) (λ _. IsValid x)
  ask_or_fail-IsUp c text queue n =
      Triple-catch {R = λ _. IsUp}
        (Triple-ask x c (λ w v h. called-IsUp c w n v) (λ w e v h. called-IsUp c w n v))
        (λ e. Triple-fail (transport_error (some e) text (queue ∷ [])) (λ w v. v.valid))

  spawn-IsUp : (r : Routine) → Triple IsUp (modify (spawn r)) (λ _. IsUp) (λ _. IsValid x)
  spawn-IsUp r = record {
    at = λ w v. record {
      valid = record {
        with_conn = v.valid.with_conn;
        with_ch = v.valid.with_ch;
        with_ctx = v.valid.with_ctx;
        balanced = v.valid.balanced;
      };
      up = v.up;
    };
  }

  consume_queue-IsUp :
      (ch : ℕ) (s : Setup)
      → IsNeutral s.declare
      → Triple IsUp (consume_queue x ch s) (λ _. IsUp) (λ _. IsValid x)
  unfolding consume_queue
  consume_queue-IsUp ch s n =
      Triple-bind {R = λ _. IsUp} (ask_or_fail-IsUp s.declare s.declare_text s.queue n) λ _.
        Triple-bind {R = λ _. IsUp}
          (ask_or_fail-IsUp (consume ch s.queue false) s.consume_text s.queue (refl, λ a. refl))
          λ _. spawn-IsUp s.routine

  consume_each-IsUp :
      (ch : ℕ) (ss : List Setup)
      → All (λ s. IsNeutral s.declare) ss
      → Triple IsUp (consume_each x ch ss) (λ _. IsUp) (λ _. IsValid x)
  unfolding consume_each
  consume_each-IsUp ch [] n = Triple-pure tt (λ w v. v)
  consume_each-IsUp ch (s ∷ ss) (n, ns) =
      Triple-bind {R = λ _. IsUp} (consume_queue-IsUp ch s n) λ _. consume_each-IsUp ch ss ns

  pub start-IsUp : Triple (IsValid x) (start x) (λ _. IsUp) (λ _. IsValid x)
  start-IsUp = record {
    at = λ w v.
        Post-map (start x w) (λ _ w' r. record { valid = r.valid; up = r.started })
          (λ e w' p. p.0.valid) (start-IsValid x w v);
  }

  channel_or_fail-IsUp :
      (o : Option ℕ) → Triple IsUp (channel_or_fail o) (λ _. IsUp) (λ _. IsValid x)
  channel_or_fail-IsUp none = Triple-fail _ (λ w v. v.valid)
  channel_or_fail-IsUp (some ch) = Triple-pure ch (λ w v. v)

  get-IsUp : Triple IsUp get (λ _. IsUp) (λ _. IsValid x)
  get-IsUp = record { at = λ w v. v }

  consume_all-IsUp :
      (f : ℕ → Config → Option ℕ → List Setup)
      → ((ch : ℕ) (cfg : Config) (ctx : Option ℕ) → All (λ s. IsNeutral s.declare) (f ch cfg ctx))
      → Triple (IsValid x) (consume_all x f) (λ _. IsUp) (λ _. IsValid x)
  consume_all-IsUp f n = Triple-bind {R = λ _. IsUp} start-IsUp λ _.
      Triple-bind {R = λ _. IsUp} get-IsUp λ w.
        Triple-bind {R = λ _. IsUp} (channel_or_fail-IsUp w.ch)
          λ ch. consume_each-IsUp ch (f ch w.cfg w.consumer_ctx) (n ch w.cfg w.consumer_ctx)

provider_setups-IsNeutral :
    (ch : ℕ) (cfg : Config) (ctx : Option ℕ) (regs : List ProviderRegistration)
    → All (λ s. IsNeutral s.declare) (map (provider_setup ch cfg ctx) regs)
provider_setups-IsNeutral ch cfg ctx [] = tt
provider_setups-IsNeutral ch cfg ctx (reg ∷ regs) =
    ((refl, λ a. refl), provider_setups-IsNeutral ch cfg ctx regs)

event_setups-IsNeutral :
    (ch : ℕ) (cfg : Config) (ctx : Option ℕ) (regs : List ConsumerRegistration)
    → All (λ s. IsNeutral s.declare) (map (event_setup ch cfg ctx) regs)
event_setups-IsNeutral ch cfg ctx [] = tt
event_setups-IsNeutral ch cfg ctx (reg ∷ regs) =
    ((refl, λ a. refl), event_setups-IsNeutral ch cfg ctx regs)

module _ (x : Externals) where
  pub start_provider_consumers-IsUp :
      (regs : List ProviderRegistration)
      → Triple (IsValid x) (start_provider_consumers x regs) (λ _. IsUp x) (λ _. IsValid x)
  unfolding start_provider_consumers
  start_provider_consumers-IsUp regs =
      consume_all-IsUp x (λ ch cfg ctx. map (provider_setup ch cfg ctx) regs)
        (λ ch cfg ctx. provider_setups-IsNeutral ch cfg ctx regs)

  pub start_event_consumers-IsUp :
      (regs : List ConsumerRegistration)
      → Triple (IsValid x) (start_event_consumers x regs) (λ _. IsUp x) (λ _. IsValid x)
  unfolding start_event_consumers
  start_event_consumers-IsUp regs =
      consume_all-IsUp x (λ ch cfg ctx. map (event_setup ch cfg ctx) regs)
        (λ ch cfg ctx. event_setups-IsNeutral ch cfg ctx regs)

  pub start_action_consumers-IsUp :
      (regs : List ActionRegistration)
      → Triple (IsUp x) (start_action_consumers x regs) (λ _. IsUp x) (λ _. IsValid x)
  unfolding start_action_consumers
  start_action_consumers-IsUp [] = Triple-pure tt (λ w v. v)
  start_action_consumers-IsUp (reg ∷ regs) = record {
    at = λ w v.
        (consume_all-IsUp x (λ ch cfg ctx. action_setup ch cfg ctx (add_by_id (reg ∷ regs) []) ∷ [])
            (λ ch cfg ctx. ((refl, λ a. refl), tt))).at
          w v.valid;
  }
