-- ===== src/Rabbit/Replies.antt =====
-- The waiting replies of rabbitmq.go: Invoke, consumeReplies and Close, which run in goroutines of
-- their own and share the map of waiters. A step is what a goroutine does at once, under the mutex
-- or on a channel. consumeReplies looks a waiter up under the mutex and sends to it afterwards, so
-- other steps may come between; an Invoke after a Close starts a further loop while an earlier one
-- may still hold a reply, so the loops are numbered, any number of them. A send on a closed channel
-- panics and ends the program: no step follows it.
pub mod Waiters
pub mod Invariant
pub mod Matching
use griffino_go.Base.{
  ℕ, ◌+◌, ◌<◌, String, ◌==◌, false, Option, none, some, List, [], ◌∷◌, ◌≡◌, eqb, if◌then◌else◌,
}
use griffino_go.Base.Maps.{lookup}
use griffino_go.Json.{Object}
use griffino_go.Config.{Config}
use griffino_go.Rabbit.Broker.{World, Waiter, empty, full, full_closed, closed, new_world}
use griffino_go.Rabbit.Connection.{failed_pending}
use griffino_go.Rabbit.Requests.{Wakeup, reply, timer, context_done, register, unregister}
use griffino_go.Errors.{Error}

-- `in_hand` is the waiter and the reply that a loop has between the lookup and the send. `owners`,
-- `seen` and `wakeups` only record: for which id a waiter was made, which replies arrived under which
-- correlation id, and what ended the wait on which waiter.
pub record Replies : Type 0 where
  pub world : World
  pub in_hand : (reader : ℕ) → Option (ℕ × Object)
  pub owners : ℕ → String
  pub seen : List (String × Object)
  pub wakeups : List (ℕ × Wakeup)

abbrev pub no_replies : Config → Replies
no_replies cfg = record {
  world = new_world cfg;
  in_hand = λ reader. none;
  owners = λ c. "";
  seen = [];
  wakeups = [];
}

abbrev pub at_put {ℓ} : {A : Type ℓ} → ℕ → A → (ℕ → A) → ℕ → A
at_put c a f d = if eqb d c then a else f d

abbrev pub put_waiter : ℕ → Waiter → World → World
put_waiter c v w = record w { waiters = at_put c v w.waiters }

-- Invoke makes a waiter and registers it
abbrev pub begun : String → Replies → Replies
begun id r = record r {
  world =
      register id r.world.made
        (put_waiter r.world.made empty (record r.world { made = r.world.made + 1 }));
  owners = at_put r.world.made id r.owners;
}

abbrev pub handed : Option ℕ → Object → Option (ℕ × Object)
handed none p = none
handed (some c) p = some (c, p)

-- consumeReplies looks up the waiter of a reply; one with no waiter is dropped
abbrev pub looked_up : (reader : ℕ) → String → Object → Replies → Replies
looked_up reader id p r = record r {
  in_hand = at_put reader (handed (lookup id r.world.pending) p) r.in_hand;
  seen = (id, p) ∷ r.seen;
}

-- the select with a default: a waiter that is full stays; `none` is the panic of a send on a closed
-- channel
abbrev pub send_to : Waiter → Object → Option Waiter
send_to empty p = some (full (some p))
send_to (full v) p = some (full v)
send_to (full_closed v) p = none
send_to closed p = none

abbrev pub sent : (reader c : ℕ) → Waiter → Replies → Replies
sent reader c v r = record r {
  world = put_waiter c v r.world;
  in_hand = at_put reader none r.in_hand;
}

-- What ends the wait of Invoke, and the waiter afterwards: a closed channel gives what was left in
-- it and then nil; the timer and the context do not depend on the waiter.
pub data Takes : Waiter → Wakeup → Waiter → Type 0 where
  takes_reply : {v : Option Object} → Takes (full v) (reply v) empty
  takes_left : {v : Option Object} → Takes (full_closed v) (reply v) closed
  takes_nil : Takes closed (reply none) closed
  times_out : {w : Waiter} → Takes w timer w
  is_cancelled : {w : Waiter} {e : Error} → Takes w (context_done e) w

abbrev pub wakened : (c : ℕ) → Wakeup → Waiter → Replies → Replies
wakened c u v r = record r { world = put_waiter c v r.world; wakeups = (c, u) ∷ r.wakeups }

pub data Step : Replies → Replies → Type 0 where
  begins : {r : Replies} (id : String) → Step r (begun id r)
  -- a reply with no correlation id is dropped before the lookup
  looks_up :
      {r : Replies} (reader : ℕ) (id : String) (p : Object)
      → (id == "") ≡ false
      → r.in_hand reader ≡ none
      → Step r (looked_up reader id p r)
  sends :
      {r : Replies} (reader c : ℕ) (p : Object) (v : Waiter)
      → r.in_hand reader ≡ some (c, p)
      → send_to (r.world.waiters c) p ≡ some v
      → Step r (sent reader c v r)
  -- the Invoke that waits on `c`
  wakes :
      {r : Replies} (c : ℕ) (u : Wakeup) (v : Waiter)
      → c < r.world.made
      → Takes (r.world.waiters c) u v
      → Step r (wakened c u v r)
  ends : {r : Replies} (id : String) → Step r (record r { world = unregister id r.world })
  closes : {r : Replies} → Step r (record r { world = failed_pending r.world })

pub data Reachable (start : Replies) : Replies → Type 0 where
  at_start : Reachable start start
  further : {r s : Replies} → Reachable start r → Step r s → Reachable start s
