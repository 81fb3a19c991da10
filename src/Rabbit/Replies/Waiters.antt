-- ===== src/Rabbit/Replies/Waiters.antt =====
-- What a send, a wait and a close do to one waiter.
use griffino_go.Base.{
  ℕ, true, false, Option, none, some, [], ◌∷◌, ◌≡◌, refl, eqb, Bool-cases, inl, inr, ◌⊎◌, ◌∙◌,
}
use griffino_go.Base.Maps.{Map}
use griffino_go.Json.{Object}
use griffino_go.Rabbit.Broker.{Waiter, empty, full, full_closed, closed}
use griffino_go.Rabbit.Connection.{close_all, shut}
use griffino_go.Rabbit.Connection.Closing.{is_closed, is_closed-shut}
use griffino_go.Rabbit.Requests.{Wakeup}
use griffino_go.Rabbit.Replies.{
  send_to, Takes, takes_reply, takes_left, takes_nil, times_out, is_cancelled,
}

-- What a channel holds.
abbrev pub content : Waiter → Option (Option Object)
content (full v) = some v
content (full_closed v) = some v
content empty = none
content closed = none

-- what a send leaves in the waiter: the reply, or what was there; it is open as before
pub sent_held :
    (p : Object) (v o : Waiter) (w : Option Object)
    → send_to o p ≡ some v
    → content v ≡ some w
    → (content o ≡ some w) ⊎ (w ≡ some p)
sent_held p v empty w h e = let same : full (some p) ≡ v = cc h in inr (cc (rw (← same) at e))
sent_held p v (full old) w h e = let same : full old ≡ v = cc h in inl (rw (← same) at e)
sent_held p v (full_closed old) w h e = cc h
sent_held p v closed w h e = cc h

pub sent_open :
    (p : Object) (v o : Waiter)
    → send_to o p ≡ some v
    → (is_closed o ≡ false) × (is_closed v ≡ false)
sent_open p v empty h = let same : full (some p) ≡ v = cc h in (refl, rw (← same) refl)
sent_open p v (full old) h = let same : full old ≡ v = cc h in (refl, rw (← same) refl)
sent_open p v (full_closed old) h = cc h
sent_open p v closed h = cc h

-- What a wait leaves in its waiter was there, and it is closed if and only if it was.
pub taken_held :
    {o v : Waiter} {u : Wakeup} (w : Option Object)
    → Takes o u v
    → content v ≡ some w
    → content o ≡ some w
taken_held w takes_reply e = cc e
taken_held w takes_left e = cc e
taken_held w takes_nil e = cc e
taken_held w times_out e = e
taken_held w is_cancelled e = e

pub taken_closed : {o v : Waiter} {u : Wakeup} → Takes o u v → is_closed v ≡ is_closed o
taken_closed takes_reply = refl
taken_closed takes_left = refl
taken_closed takes_nil = refl
taken_closed times_out = refl
taken_closed is_cancelled = refl

pub content-shut : (v : Waiter) → content (shut v) ≡ content v
content-shut empty = refl
content-shut (full v) = refl
content-shut (full_closed v) = refl
content-shut closed = refl

-- Closing a channel keeps what is in it.
pub close_all-content :
    (waiters : ℕ → Waiter) (pending : Map ℕ) (c : ℕ)
    → content (close_all waiters pending c) ≡ content (waiters c)
close_all-content waiters [] c = refl
close_all-content waiters ((id, d) ∷ pending) c = elim (Bool-cases (eqb d c)) [
  | inl e ↦ rw e (content-shut (close_all waiters pending c) ∙ close_all-content waiters pending c)
  | inr e ↦ rw e (close_all-content waiters pending c)
]

pub close_all-stays :
    (waiters : ℕ → Waiter) (pending : Map ℕ) (c : ℕ)
    → is_closed (waiters c) ≡ true
    → is_closed (close_all waiters pending c) ≡ true
close_all-stays waiters [] c h = h
close_all-stays waiters ((id, d) ∷ pending) c h = elim (Bool-cases (eqb d c)) [
  | inl e ↦ rw e (is_closed-shut (close_all waiters pending c))
  | inr e ↦ rw e (close_all-stays waiters pending c h)
]
