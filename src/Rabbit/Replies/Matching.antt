-- ===== src/Rabbit/Replies/Matching.antt =====
-- Which replies reach which waiters, and what ends a wait.
use griffino_go.Base.{
  ℕ, ◌+◌, ◌<◌, String, ◌==◌, false, Option, none, some, ◌∷◌, ◌≡◌, refl, arith, eqb, if◌then◌else◌,
  Bool-cases, inl, inr, subst, ◌∙◌, eq_of_test, ap, sym,
}
use griffino_go.Base.Maps.{lookup, lookup-insert, lookup-delete}
use griffino_go.Json.{Object}
use griffino_go.Config.{Config}
use griffino_go.Rabbit.Broker.{Waiter, empty, new_world}
use griffino_go.Rabbit.Connection.{failed_pending, shut}
use griffino_go.Rabbit.Connection.Closing.{is_closed}
use griffino_go.Rabbit.Requests.{unregister, Wakeup}
use griffino_go.Rabbit.Replies.{
  Replies, no_replies, at_put, begun, looked_up, handed, send_to, sent, Takes, takes_reply,
  takes_left, takes_nil, times_out, is_cancelled, wakened, Step, begins, looks_up, sends, wakes,
  ends, closes, Reachable, at_start, further,
}
use griffino_go.Rabbit.Replies.Waiters.{
  content, sent_held, sent_open, taken_held, taken_closed, close_all-content, close_all-stays,
}
use griffino_go.Rabbit.Replies.Invariant.{
  Arrived, now, before, IsOwn, IsGiven, IsMatched, eq_of_eqb, at_put-other, at_put-same, Keeps,
  IsOwn-Keeps, given-Keeps, Keeps-at_put,
}

begun_mapped :
    (id k : String) (c : ℕ) (r : Replies)
    → IsMatched r
    → (if id == k then some r.world.made else lookup k r.world.pending) ≡ some c
    → (at_put r.world.made id r.owners c ≡ k)
      × (c < r.world.made + 1)
      × (is_closed (at_put r.world.made empty r.world.waiters c) ≡ false)
begun_mapped id k c r m h = elim (Bool-cases (id == k)) [
  | inl e ↦
      let same : some r.world.made ≡ some c = rw e at h in
      let here : r.world.made ≡ c = cc same in
      (
        at_put-same r.world.made id r.owners c here ∙ eq_of_test id k e,
        omega (arith, here),
        ap is_closed (at_put-same r.world.made empty r.world.waiters c here),
      )
  | inr e ↦
      let (o, lt, still) = m.mapped k c (rw e at h) in
      (
        at_put-other r.world.made id r.owners c lt ∙ o,
        omega (arith, lt),
        ap is_closed (at_put-other r.world.made empty r.world.waiters c lt) ∙ still,
      )
]

begun-Keeps : (id : String) (r : Replies) → Keeps r (begun id r)
begun-Keeps id r = record {
  owned = λ c lt. at_put-other r.world.made id r.owners c lt;
  arrived = λ id p a. a;
  made = λ c lt. omega arith;
  shut_stays =
      λ c lt shut. ap is_closed (at_put-other r.world.made empty r.world.waiters c lt) ∙ shut;
}

-- the new waiter is empty
begun_held :
    (id : String) (r : Replies) (c : ℕ) (v : Option Object)
    → IsMatched r
    → c < r.world.made + 1
    → content (at_put r.world.made empty r.world.waiters c) ≡ some v
    → IsOwn (begun id r) c v
begun_held id r c v m lt h = elim (Bool-cases (eqb c r.world.made)) [
  | inl e ↦ cc (rw e at h)
  | inr e ↦
      let older : c < r.world.made = ground arith in
      IsOwn-Keeps c v (begun-Keeps id r) older (m.held c v older (rw e at h))
]

begun-IsMatched : (id : String) (r : Replies) → IsMatched r → IsMatched (begun id r)
begun-IsMatched id r m = record {
  mapped =
      λ k c h. begun_mapped id k c r m (rw (lookup-insert id k r.world.made r.world.pending) at h);
  in_hand = λ reader c p h.
      let (a, lt) = m.in_hand reader c p h in
      (rw (at_put-other r.world.made id r.owners c lt) a, omega arith);
  held = λ c v lt h. begun_held id r c v m lt h;
  given = given-Keeps r.wakeups (begun-Keeps id r) m.given;
}

handed_from :
    (id : String) (p : Object) (r : Replies) (found : Option ℕ) (c : ℕ) (q : Object)
    → IsMatched r
    → lookup id r.world.pending ≡ found
    → handed found p ≡ some (c, q)
    → Arrived (r.owners c) q ((id, p) ∷ r.seen) × (c < r.world.made)
handed_from id p r none c q m e h = cc h
handed_from id p r (some d) c q m e h =
    let (o, lt, _) = m.mapped id d e in
    let same : (d, p) ≡ (c, q) = cc h in
    subst (λ (t : ℕ × Object). Arrived (r.owners t.0) t.1 ((id, p) ∷ r.seen) × (t.0 < r.world.made))
      same (rw o now, lt)

looked_up-Keeps :
    (reader : ℕ) (id : String) (p : Object) (r : Replies) → Keeps r (looked_up reader id p r)
looked_up-Keeps reader id p r = record {
  owned = λ c lt. refl;
  arrived = λ k q a. before a;
  made = λ c lt. lt;
  shut_stays = λ c lt shut. shut;
}

looked_up-IsMatched :
    (reader : ℕ) (id : String) (p : Object) (r : Replies)
    → IsMatched r
    → IsMatched (looked_up reader id p r)
looked_up-IsMatched reader id p r m = record {
  mapped = m.mapped;
  in_hand = λ other c q h. elim (Bool-cases (eqb other reader)) [
    | inl e ↦ handed_from id p r (lookup id r.world.pending) c q m refl (rw e at h)
    | inr e ↦ let (a, lt) = m.in_hand other c q (rw e at h) in (before a, lt)
  ];
  held = λ c v lt h. IsOwn-Keeps c v (looked_up-Keeps reader id p r) lt (m.held c v lt h);
  given = given-Keeps r.wakeups (looked_up-Keeps reader id p r) m.given;
}

sent-Keeps :
    (reader c : ℕ) (p : Object) (v : Waiter) (r : Replies)
    → send_to (r.world.waiters c) p ≡ some v
    → Keeps r (sent reader c v r)
sent-Keeps reader c p v r h =
    Keeps-at_put c v r (sent reader c v r) refl refl refl refl
      (λ shut. cc (shut, (sent_open p v (r.world.waiters c) h).0))

is_closed-at_put :
    (c d : ℕ) (v : Waiter) (r : Replies)
    → is_closed (r.world.waiters d) ≡ false
    → (is_closed (r.world.waiters c) ≡ false → is_closed v ≡ false)
    → is_closed (at_put c v r.world.waiters d) ≡ false
is_closed-at_put c d v r still h = elim (Bool-cases (eqb d c)) [
  | inl e ↦ rw e (h (rw (eq_of_eqb d c e) at still))
  | inr e ↦ rw e still
]

sent-IsMatched :
    (reader c : ℕ) (p : Object) (v : Waiter) (r : Replies)
    → r.in_hand reader ≡ some (c, p)
    → send_to (r.world.waiters c) p ≡ some v
    → IsMatched r
    → IsMatched (sent reader c v r)
sent-IsMatched reader c p v r h s m = record {
  mapped = λ id d e.
      let (o, lt, still) = m.mapped id d e in
      (o, lt, is_closed-at_put c d v r still (λ _. (sent_open p v (r.world.waiters c) s).1));
  in_hand = λ other d q e. elim (Bool-cases (eqb other reader)) [
    | inl same ↦ cc (rw same at e)
    | inr different ↦ m.in_hand other d q (rw different at e)
  ];
  held = λ d w lt e. elim (Bool-cases (eqb d c)) [
    | inl same ↦ elim (sent_held p v (r.world.waiters c) w s (rw same at e)) [
      | inl old ↦ m.held d w lt (rw (eq_of_eqb d c same) old)
      | inr new ↦ (p, new, rw (eq_of_eqb d c same) ((m.in_hand reader c p h).0))
    ]
    | inr other ↦ m.held d w lt (rw other at e)
  ];
  given = given-Keeps r.wakeups (sent-Keeps reader c p v r s) m.given;
}

wakened-Keeps :
    (c : ℕ) (u : Wakeup) (v : Waiter) (r : Replies)
    → Takes (r.world.waiters c) u v
    → Keeps r (wakened c u v r)
wakened-Keeps c u v r t =
    Keeps-at_put c v r (wakened c u v r) refl refl refl refl (λ shut. taken_closed t ∙ shut)

-- What ended the wait came out of the waiter.
taken_given :
    {o v : Waiter} {u : Wakeup} (c : ℕ) (s : Replies)
    → Takes o u v
    → c < s.world.made
    → is_closed (s.world.waiters c) ≡ is_closed o
    → ((w : Option Object) → content o ≡ some w → IsOwn s c w)
    → IsGiven s (c, u)
taken_given c s (takes_reply {v = w}) lt shut own = (lt, inl (own w refl))
taken_given c s (takes_left {v = w}) lt shut own = (lt, inl (own w refl))
taken_given c s takes_nil lt shut own = (lt, inr (refl, shut))
taken_given c s times_out lt shut own = tt
taken_given c s is_cancelled lt shut own = tt

at_put-here : {A : Type 0} (c : ℕ) (a : A) (f : ℕ → A) → at_put c a f c ≡ a
at_put-here c a f = at_put-same c a f c refl

wakened-IsMatched :
    (c : ℕ) (u : Wakeup) (v : Waiter) (r : Replies)
    → c < r.world.made
    → Takes (r.world.waiters c) u v
    → IsMatched r
    → IsMatched (wakened c u v r)
wakened-IsMatched c u v r made t m = record {
  mapped = λ id d e.
      let (o, lt, still) = m.mapped id d e in
      (o, lt, is_closed-at_put c d v r still (λ unshut. taken_closed t ∙ unshut));
  in_hand = m.in_hand;
  held = λ d w lt e. elim (Bool-cases (eqb d c)) [
    | inl same ↦ m.held d w lt (rw (eq_of_eqb d c same) (taken_held w t (rw same at e)))
    | inr other ↦ m.held d w lt (rw other at e)
  ];
  given = (
    taken_given c (wakened c u v r) t made
        (ap is_closed (at_put-here c v r.world.waiters) ∙ taken_closed t)
        (λ w h. m.held c w made h),
    given-Keeps r.wakeups (wakened-Keeps c u v r t) m.given,
  );
}

ends-IsMatched :
    (id : String) (r : Replies)
    → IsMatched r
    → IsMatched (record r { world = unregister id r.world })
ends-IsMatched id r m = record {
  mapped = λ k c h. elim (Bool-cases (id == k)) [
    | inl e ↦ cc (rw (lookup-delete id k r.world.pending, e) at h)
    | inr e ↦ m.mapped k c (rw (lookup-delete id k r.world.pending, e) at h)
  ];
  in_hand = m.in_hand;
  held = m.held;
  given = m.given;
}

closes-Keeps : (r : Replies) → Keeps r (record r { world = failed_pending r.world })
closes-Keeps r = record {
  owned = λ c lt. refl;
  arrived = λ id p a. a;
  made = λ c lt. lt;
  shut_stays = λ c lt shut. close_all-stays r.world.waiters r.world.pending c shut;
}

closes-IsMatched :
    (r : Replies) → IsMatched r → IsMatched (record r { world = failed_pending r.world })
unfolding lookup
closes-IsMatched r m = record {
  mapped = λ k c h. cc h;
  in_hand = m.in_hand;
  held = λ c v lt h. m.held c v lt (sym (close_all-content r.world.waiters r.world.pending c) ∙ h);
  given = given-Keeps r.wakeups (closes-Keeps r) m.given;
}

step-IsMatched : {r s : Replies} → Step r s → IsMatched r → IsMatched s
step-IsMatched {r} (begins id) m = begun-IsMatched id r m
step-IsMatched {r} (looks_up reader id p ne h) m = looked_up-IsMatched reader id p r m
step-IsMatched {r} (sends reader c p v h s) m = sent-IsMatched reader c p v r h s m
step-IsMatched {r} (wakes c u v lt t) m = wakened-IsMatched c u v r lt t m
step-IsMatched {r} (ends id) m = ends-IsMatched id r m
step-IsMatched {r} closes m = closes-IsMatched r m

no_replies-IsMatched : (cfg : Config) → IsMatched (no_replies cfg)
unfolding lookup new_world
no_replies-IsMatched cfg = record {
  mapped = λ k c h. cc h;
  in_hand = λ reader c p h. cc h;
  held = λ c v lt h. cc h;
  given = tt;
}

-- In every interleaving of calls of Invoke and Close with any number of loops that read the
-- replies, what a waiter holds, also after Close, is a reply, never nil, that arrived under the
-- very correlation id for which the waiter was made; what a waiter gives to the Invoke that waits
-- on it is such a reply, or nil once the waiter has been closed; and the map has under an id only a
-- waiter that was made for it and that is not closed.
pub Reachable-IsMatched : (cfg : Config) {r : Replies} → Reachable (no_replies cfg) r → IsMatched r
Reachable-IsMatched cfg at_start = no_replies-IsMatched cfg
Reachable-IsMatched cfg (further p s) = step-IsMatched s (Reachable-IsMatched cfg p)
