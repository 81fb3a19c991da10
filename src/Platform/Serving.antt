-- ===== src/Platform/Serving.antt =====
-- A client that speaks to RabbitMQ: Client.Start with the transport's Start and its consumers.
use griffino_go.Base.{true, false, ◌≡◌, refl, some}
use griffino_go.Errors.{Result, ok, err}
use griffino_go.Rabbit.Broker.{World, Externals}
use griffino_go.Rabbit.Triple.{Post}
use griffino_go.Rabbit.Connection.Balance.{IsValid}
use griffino_go.Rabbit.Requests.{Wakeup}
use griffino_go.Client.Interface.{Client}
use griffino_go.Client.Serve.{is_serving, then_, open_all, mark, start, marked, close}
use griffino_go.Client.Serving.{marked_of}
use griffino_go.Lifecycle.{is_closed}
use griffino_go.Lifecycle.Waiting.{mark_closed-IsValid}
use griffino_go.Lifecycle.Waiting
use griffino_go.Rabbit.Connection
use griffino_go.Rabbit.Connection.Closing.{IsClosed, close-IsClosed}
use griffino_go.Platform.{rabbit_transport}
use griffino_go.Platform.Consuming.{
  IsUp, start-IsUp, start_provider_consumers-IsUp, start_event_consumers-IsUp,
  start_action_consumers-IsUp,
}

-- What Start of a client over RabbitMQ may leave: the transport is in a valid state, and it is started
-- if the call succeeded.
abbrev pub LeavesValid : Externals → Result (Unit {0}) × Client World → Type 0
LeavesValid x (ok u, c) = IsUp x c.transport
LeavesValid x (err e, c) = IsValid x c.transport

module _ (x : Externals) (wakeup : Wakeup) where
  then_-Post :
      (r : Result (Unit {0}) × World) (next : World → Result (Unit {0}) × World)
      → Post (λ _. IsUp x) (λ _. IsValid x) r
      → ((w : World) → IsUp x w → Post (λ _. IsUp x) (λ _. IsValid x) (next w))
      → Post (λ _. IsUp x) (λ _. IsValid x) (then_ (rabbit_transport x wakeup) r next)
  then_-Post (ok u, w) next p h = h w p
  then_-Post (err e, w) next p h = p

  open_all-Post :
      (c : Client World)
      → IsValid x c.transport
      → Post (λ _. IsUp x) (λ _. IsValid x) (open_all (rabbit_transport x wakeup) c)
  open_all-Post c v = then_-Post _ _ ((start-IsUp x).at c.transport v) λ w₁ up₁.
      then_-Post _ _ ((start_provider_consumers-IsUp x c.providers).at w₁ up₁.valid) λ w₂ up₂.
        then_-Post _ _ ((start_event_consumers-IsUp x c.consumers).at w₂ up₂.valid)
          λ w₃ up₃. (start_action_consumers-IsUp x c.actions).at w₃ up₃

  mark-LeavesValid :
      (c : Client World) (r : Result (Unit {0}) × World)
      → Post (λ _. IsUp x) (λ _. IsValid x) r
      → LeavesValid x (mark (rabbit_transport x wakeup) c r)
  mark-LeavesValid c (ok u, w) p = p
  mark-LeavesValid c (err e, w) p = p

  -- Start of a client that does not serve, over a RabbitMQ transport in a valid state: if it
  -- succeeds the transport is started, with its handles and one open connection; if it fails at any
  -- point, also while it starts consumers, the transport is still in a valid state.
  pub start-LeavesValid :
      (c : Client World)
      → is_serving c ≡ false
      → IsValid x c.transport
      → LeavesValid x (start (rabbit_transport x wakeup) c)
  unfolding start
  start-LeavesValid c s v =
      rw s (mark-LeavesValid c (open_all (rabbit_transport x wakeup) c) (open_all-Post c v))

  close_of_open :
      (c : Client World)
      → is_closed c.lifecycle ≡ false
      → close (rabbit_transport x wakeup) c
        ≡ marked (rabbit_transport x wakeup) c (Connection.close x c.transport)
  unfolding close
  close_of_open c h = rw h refl

  -- Close of an open client over a started RabbitMQ transport, both in valid states, returns
  -- without a panic, whatever the broker answers: the client is closed, and the transport has no
  -- handle, no open connection and no reply that is awaited.
  pub close-Disconnects :
      (c : Client World)
      → Waiting.IsValid c.lifecycle
      → is_closed c.lifecycle ≡ false
      → IsUp x c.transport
      → (r : Result (Unit {0})) × (c' : Client World) × (close (rabbit_transport x wakeup) c
          ≡ some (r, c'))
        × IsClosed x c.transport c'.transport
        × (is_closed c'.lifecycle ≡ true)
  unfolding is_closed
  close-Disconnects c v h up =
      let (l, e, _, shut, _) = mark_closed-IsValid c.lifecycle v in
      (
        (Connection.close x c.transport).0,
        record c { transport = (Connection.close x c.transport).1; lifecycle = l },
        rw (close_of_open c h) (
            marked_of (rabbit_transport x wakeup) c (Connection.close x c.transport).0
              (Connection.close x c.transport).1 l e),
        (close-IsClosed x c.transport up.valid up.up).0,
        shut,
      )
