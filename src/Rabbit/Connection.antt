-- ===== src/Rabbit/Connection.antt =====
-- Start and Close.
pub mod Balance
pub mod Closing
pub mod Starting
use griffino_go.Base.{
  ℕ, String, ◌==◌, Bool, true, false, Option, none, some, List, [], ◌∷◌, ◌++◌, eqb, if◌then◌else◌,
}
use griffino_go.Base.Text.{◌<>◌}
use griffino_go.Base.Number.{itoa}
use griffino_go.Base.Maps.{Map}
use griffino_go.Config.{Config}
use griffino_go.Errors.{Error, Result, ok, err, transport_error}
use griffino_go.Rabbit.Broker.{
  World, Waiter, empty, closed, full, full_closed, Call, dial, open_channel, qos,
  exchange_declare_passive, consume, close_channel, close_connection, Externals, consume_replies,
  Step, ◌>>=◌, ◌>>◌, pure, fail, get, set, modify, create, catch, quietly, ask, after, or_else,
  of_answer,
}

abbrev pub reply_queue_name : String
reply_queue_name = "amq.rabbitmq.reply-to"

unfoldable pub url : Config → String
url cfg =
    "amqp://"
    <> cfg.rabbitmq_user
    <> ":"
    <> cfg.rabbitmq_password
    <> "@"
    <> cfg.rabbitmq_host
    <> ":"
    <> itoa cfg.rabbitmq_port
    <> "/"

abbrev pub opened : (conn ch ctx : ℕ) → World → World
opened conn ch ctx w = record w {
  conn = some conn;
  ch = some ch;
  consumer_ctx = some ctx;
  started = true;
  routines = w.routines ++ consume_replies (some ctx) ∷ [];
}

-- `close(waiter)`; one that is closed already stays as it is here, where Go would panic
abbrev pub shut : Waiter → Waiter
shut empty = closed
shut (full v) = full_closed v
shut (full_closed v) = full_closed v
shut closed = closed

abbrev pub close_all : (ℕ → Waiter) → Map ℕ → ℕ → Waiter
close_all waiters [] d = waiters d
close_all waiters ((id, c) ∷ pending) d =
    let rest = close_all waiters pending d in if eqb c d then shut rest else rest

abbrev pub classified : Result (Unit {0}) → String → Result (Unit {0})
classified (ok u) text = ok u
classified (err e) text = err (transport_error (some e) text [])

-- the first of two errors
abbrev pub first_error : Result (Unit {0}) → Result (Unit {0}) → Result (Unit {0})
first_error (ok u) second = second
first_error (err e) second = err e

abbrev pub cancel : Option ℕ → List ℕ → List ℕ
cancel none cs = cs
cancel (some c) cs = c ∷ cs

abbrev pub disconnected : World → World
disconnected w = record w {
  ch = none;
  conn = none;
  consumer_ctx = none;
  started = false;
  cancelled = cancel w.consumer_ctx w.cancelled;
}

abbrev pub failed_pending : World → World
failed_pending w = record w { waiters = close_all w.waiters w.pending; pending = [] }

module _ (x : Externals) where
  -- a call whose failure closes the connection and ends Start
  abbrev pub or_close : ℕ → Call → String → List String → Step Unit
  or_close conn c format args =
      catch (ask x c)
        λ e. do quietly (ask x (close_connection conn)); fail (transport_error (some e) format args)

  abbrev pub dialled : Config → Step ℕ
  dialled cfg = do
    catch (ask x (dial (url cfg)))
        λ e. fail (transport_error (some e) "failed to dial RabbitMQ broker" [])
    create

  -- what Start does if it is not started; it holds the mutex
  unfoldable pub connect : Config → Step Unit
  connect cfg = do
    conn ← dialled cfg
    or_close conn (open_channel conn) "failed to open RabbitMQ channel" []
    ch ← create
    or_close conn (qos ch 16) "failed to set channel QoS" []
    or_close conn (exchange_declare_passive ch cfg.router_exchange)
        "failed to declare router exchange %q" (cfg.router_exchange ∷ [])
    or_close conn (exchange_declare_passive ch cfg.plugin_exchange)
        "failed to declare plugin exchange %q" (cfg.plugin_exchange ∷ [])
    or_close conn (consume ch reply_queue_name true) "failed to consume reply queue" []
    ctx ← create
    modify (opened conn ch ctx)

  unfoldable pub start : Step Unit
  start = do w ← get; if w.started then pure tt else connect w.cfg

  -- `if handle != nil { err := close(handle) … }`
  abbrev pub close_handle : Option ℕ → (ℕ → Call) → Step Unit
  close_handle none c = pure tt
  close_handle (some n) c = ask x (c n)

  unfoldable pub shut_down : Step Unit
  shut_down w =
      let (first, w₁) = close_handle w.ch close_channel (disconnected w) in
      let (second, w₂) = close_handle w.conn close_connection w₁ in
      (
        first_error (classified first "failed to close channel")
            (classified second "failed to close connection"),
        failed_pending w₂,
      )

  unfoldable pub close : Step Unit
  close = do w ← get; if w.started then shut_down else pure tt
