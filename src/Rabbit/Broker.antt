-- ===== src/Rabbit/Broker.antt =====
-- What the transport asks of the broker, its state, and the steps that its methods are built from.
-- The AMQP library, the random source, encoding/json and fmt are the fields of `Externals`: the
-- library may answer each call in any way, depending on all the calls before it. A log line has no
-- effect that is modelled.
use griffino_go.Base.{ℕ, ◌+◌, String, Bool, false, Option, none, some, List, [], ◌∷◌, ◌++◌}
use griffino_go.Base.Maps.{Map}
use griffino_go.Errors.{Error, Result, ok, err}
use griffino_go.Codec.{Bytes, JsonCodec}
use griffino_go.Config.{Config, with_defaults}
use griffino_go.Json.{Object}
use griffino_go.Context.{HandlerContext}
use griffino_go.Models.{Handler, ProviderRegistration, ConsumerRegistration, ActionRegistration}

pub record Publishing : Type 0 where
  pub content_type : String
  pub correlation_id : String
  pub message_id : String
  pub reply_to : String
  pub expiration : String
  pub persistent : Bool
  pub body : Bytes

pub record Delivery : Type 0 where
  pub tag : ℕ
  pub correlation_id : String
  pub reply_to : String
  pub routing_key : String
  pub body : Bytes

-- Connections and channels are numbers.
pub data Call : Type 0 where
  dial : (url : String) → Call
  open_channel : (conn : ℕ) → Call
  qos : (ch count : ℕ) → Call
  exchange_declare_passive : (ch : ℕ) (exchange : String) → Call
  queue_declare_passive queue_declare : (ch : ℕ) (queue : String) → Call
  consume : (ch : ℕ) (queue : String) (auto_ack : Bool) → Call
  publish : (ch : ℕ) (exchange key : String) → Publishing → Call
  ack : (tag : ℕ) → Call
  close_channel : (ch : ℕ) → Call
  close_connection : (conn : ℕ) → Call

pub record Externals : Type 0 where
  -- the error of a call, after the calls before it
  pub answer : List Call → Call → Option Error
  pub codec : JsonCodec
  -- the n-th id that NewMessageID makes
  pub message_id : ℕ → String
  pub sprintf : String → List String → String

-- A channel `waiter` with room for one reply; a nil map is `none`. A channel that is closed while it
-- holds a reply still gives it to who receives next.
pub data Waiter : Type 0 where
  empty closed : Waiter
  full full_closed : Option Object → Waiter

-- The loops that run in goroutines, each with the number of its context.
pub data Routine : Type 0 where
  consume_replies : (ctx : Option ℕ) → Routine
  run_provider_consumer : (ctx : Option ℕ) → ProviderRegistration → (queue : String) → Routine
  run_event_consumer : (ctx : Option ℕ) → ConsumerRegistration → (queue : String) → Routine
  run_action_consumer : (ctx : Option ℕ) → Map ActionRegistration → (queue : String) → Routine

-- rabbitMQTransport, the heap of its waiters, and what has been asked of the outside. `made` numbers
-- what is created; `consumer_ctx` stands for its cancel function too; `none` as the context of a
-- routine is the background context.
pub record World : Type 0 where
  pub cfg : Config
  pub started : Bool
  pub conn : Option ℕ
  pub ch : Option ℕ
  pub consumer_ctx : Option ℕ
  pub pending : Map ℕ
  pub waiters : ℕ → Waiter
  pub made : ℕ
  pub cancelled : List ℕ
  pub routines : List Routine
  pub calls : List Call
  -- the handlers that were run, and on what
  pub handled : List (Handler × HandlerContext)
  pub drawn : ℕ

-- newRabbitMQTransport
unfoldable pub new_world : Config → World
new_world cfg = record {
  cfg = with_defaults cfg;
  started = false;
  conn = none;
  ch = none;
  consumer_ctx = none;
  pending = [];
  waiters = λ _. empty;
  made = 0;
  cancelled = [];
  routines = [];
  calls = [];
  handled = [];
  drawn = 0;
}

abbrev pub Step : Type 0 → Type 0
Step A = World → Result A × World

abbrev pub after : {A B : Type 0} → Result A × World → (A → Step B) → Result B × World
after (ok a, w) f = f a w
after (err e, w) f = (err e, w)

infixl 5 ◌>>=◌ ◌>>◌
abbrev pub ◌>>=◌ : {A B : Type 0} → Step A → (A → Step B) → Step B
◌>>=◌ m f w = after (m w) f

abbrev pub ◌>>◌ : {A B : Type 0} → Step A → Step B → Step B
m >> n = m >>= λ _. n

abbrev pub pure : {A : Type 0} → A → Step A
pure a w = (ok a, w)

abbrev pub fail : {A : Type 0} → Error → Step A
fail e w = (err e, w)

abbrev pub get : Step World
get w = (ok w, w)

abbrev pub set : World → Step Unit
set w' w = (ok tt, w')

abbrev pub modify : (World → World) → Step Unit
modify f w = (ok tt, f w)

-- a new handle
abbrev pub create : Step ℕ
create w = (ok w.made, record w { made = w.made + 1 })

abbrev pub of_answer : Option Error → Result (Unit {0})
of_answer none = ok tt
of_answer (some e) = err e

-- `defer`: `last` runs after `m`, whatever `m` ends in; its own result is dropped
abbrev pub finally : {A B : Type 0} → Step A → Step B → Step A
finally m last w = let (r, w') = m w in (r, (last w').1)

-- a result that is dropped
abbrev pub quietly : {A : Type 0} → Step A → Step Unit
quietly m w = (ok tt, (m w).1)

-- `if err != nil { … }` around a call
abbrev pub or_else : {A : Type 0} → Result A × World → (Error → Step A) → Result A × World
or_else (ok a, w) h = (ok a, w)
or_else (err e, w) h = h e w

abbrev pub catch : {A : Type 0} → Step A → (Error → Step A) → Step A
catch m h w = or_else (m w) h

module _ (x : Externals) where
  abbrev pub ask : Call → Step Unit
  ask c w = (of_answer (x.answer w.calls c), record w { calls = w.calls ++ c ∷ [] })

  abbrev pub draw : Step String
  draw w = (ok (x.message_id w.drawn), record w { drawn = w.drawn + 1 })
