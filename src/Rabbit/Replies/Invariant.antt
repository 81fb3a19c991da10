-- ===== src/Rabbit/Replies/Invariant.antt =====
-- What holds of the waiting replies at any time, and what a step must keep for the waits that ended.
use griffino_go.Base.{
  ℕ, ◌<◌, String, true, false, Option, none, some, List, [], ◌∷◌, ◌≡◌, arith, eqb, Bool-cases, inl,
  inr, ◌⊎◌, All, ap,
}
use griffino_go.Base.Maps.{lookup}
use griffino_go.Json.{Object}
use griffino_go.Rabbit.Broker.{Waiter}
use griffino_go.Rabbit.Connection.{shut}
use griffino_go.Rabbit.Connection.Closing.{is_closed}
use griffino_go.Rabbit.Requests.{Wakeup, reply, timer, context_done}
use griffino_go.Rabbit.Replies.{Replies, at_put}
use griffino_go.Rabbit.Replies.Waiters.{content}

pub data Arrived (id : String) (p : Object) : List (String × Object) → Type 0 where
  now : {ps : List (String × Object)} → Arrived id p ((id, p) ∷ ps)
  before :
      {q : String × Object} {ps : List (String × Object)} → Arrived id p ps → Arrived id p (q ∷ ps)

-- A reply that arrived under the id for which the waiter was made.
abbrev pub IsOwn : Replies → ℕ → Option Object → Type 0
IsOwn r c v = (p : Object) × (v ≡ some p) × Arrived (r.owners c) p r.seen

-- What may have ended the wait on a waiter: its own reply, or nil after it was closed; or no value.
abbrev pub IsGiven : Replies → ℕ × Wakeup → Type 0
IsGiven r (c, reply v) =
    (c < r.world.made) × (IsOwn r c v ⊎ ((v ≡ none) × (is_closed (r.world.waiters c) ≡ true)))
IsGiven r (c, timer) = Unit
IsGiven r (c, context_done e) = Unit

-- A waiter in the map is the one that was made for its key, and open; a reply in hand or in a waiter
-- arrived under the id for which the waiter was made; and so did what a wait has given, if it is
-- not the nil of a closed waiter.
pub record IsMatched (r : Replies) : Type 0 where
  pub mapped :
      (id : String) (c : ℕ)
      → lookup id r.world.pending ≡ some c
      → (r.owners c ≡ id) × (c < r.world.made) × (is_closed (r.world.waiters c) ≡ false)
  pub in_hand :
      (reader c : ℕ) (p : Object)
      → r.in_hand reader ≡ some (c, p)
      → Arrived (r.owners c) p r.seen × (c < r.world.made)
  pub held :
      (c : ℕ) (v : Option Object)
      → c < r.world.made
      → content (r.world.waiters c) ≡ some v
      → IsOwn r c v
  pub given : All (IsGiven r) r.wakeups

pub eq_of_eqb : (c d : ℕ) → eqb c d ≡ true → c ≡ d
eq_of_eqb c d h = ground arith

pub at_put-other : {A : Type 0} (c : ℕ) (a : A) (f : ℕ → A) (d : ℕ) → d < c → at_put c a f d ≡ f d
at_put-other c a f d h = ground arith

pub at_put-same : {A : Type 0} (c : ℕ) (a : A) (f : ℕ → A) (d : ℕ) → c ≡ d → at_put c a f d ≡ a
at_put-same c a f d h = ground arith

-- What a step must keep for the waits that have ended.
pub record Keeps (r s : Replies) : Type 0 where
  pub owned : (c : ℕ) → c < r.world.made → s.owners c ≡ r.owners c
  pub arrived : (id : String) (p : Object) → Arrived id p r.seen → Arrived id p s.seen
  pub made : (c : ℕ) → c < r.world.made → c < s.world.made
  pub shut_stays :
      (c : ℕ)
      → c < r.world.made
      → is_closed (r.world.waiters c) ≡ true
      → is_closed (s.world.waiters c) ≡ true

pub IsOwn-Keeps :
    {r s : Replies} (c : ℕ) (v : Option Object)
    → Keeps r s
    → c < r.world.made
    → IsOwn r c v
    → IsOwn s c v
IsOwn-Keeps c v k lt (p, e, a) = (p, e, k.arrived _ p (rw (k.owned c lt) a))

pub IsGiven-Keeps : {r s : Replies} (w : ℕ × Wakeup) → Keeps r s → IsGiven r w → IsGiven s w
IsGiven-Keeps (c, reply v) k (lt, inl own) = (k.made c lt, inl (IsOwn-Keeps c v k lt own))
IsGiven-Keeps (c, reply v) k (lt, inr (e, shut)) = (k.made c lt, inr (e, k.shut_stays c lt shut))
IsGiven-Keeps (c, timer) k h = tt
IsGiven-Keeps (c, context_done e) k h = tt

pub given-Keeps :
    {r s : Replies} (ws : List (ℕ × Wakeup)) → Keeps r s → All (IsGiven r) ws → All (IsGiven s) ws
given-Keeps [] k h = tt
given-Keeps (w ∷ ws) k (h, hs) = (IsGiven-Keeps w k h, given-Keeps ws k hs)

-- A step that changes one waiter, which stays closed if it was.
pub Keeps-at_put :
    (c : ℕ) (v : Waiter) (r s : Replies)
    → s.owners ≡ r.owners
    → s.seen ≡ r.seen
    → s.world.made ≡ r.world.made
    → s.world.waiters ≡ at_put c v r.world.waiters
    → (is_closed (r.world.waiters c) ≡ true → is_closed v ≡ true)
    → Keeps r s
Keeps-at_put c v r s o a n w stays = record {
  owned = λ d lt. ap (λ (f : ℕ → String). f d) o;
  arrived = λ id p h. rw a h;
  made = λ d lt. rw n lt;
  shut_stays = λ d lt shut. rw w (elim (Bool-cases (eqb d c)) [
    | inl e ↦ rw e (stays (rw (eq_of_eqb d c e) at shut))
    | inr e ↦ rw e shut
  ]);
}
