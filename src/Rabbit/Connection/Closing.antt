-- ===== src/Rabbit/Connection/Closing.antt =====
-- Close.
use griffino_go.Base.{
  ℕ, String, Bool, true, false, Option, none, some, List, [], ◌∷◌, ◌++◌, ◌≡◌, inl, inr, sym, ◌∙◌,
  ap, refl, arith, Option-cases,
}
use native.Mathlib.Nat.{add-zero}
use griffino_go.Base.Maps.{Map, lookup}
use griffino_go.Errors.{Error, ok, err, is, transport, transport_error}
use griffino_go.Rabbit.Broker.{
  World, Waiter, empty, closed, full, full_closed, Call, close_channel, close_connection, Externals,
}
use griffino_go.Rabbit.Connection.{close, shut_down, shut, close_all}
use griffino_go.Rabbit.Connection.Balance.{
  has_handle, dials, closes, dials-snoc, closes-snoc, IsValid,
}

abbrev calls_after : World → Option ℕ → Option ℕ → List Call
calls_after w (some c) (some n) = (w.calls ++ close_channel c ∷ []) ++ close_connection n ∷ []
calls_after w (some c) none = w.calls ++ close_channel c ∷ []
calls_after w none (some n) = w.calls ++ close_connection n ∷ []
calls_after w none none = w.calls

module _ (x : Externals) (w : World) where
  shut_down-calls : (shut_down x w).1.calls ≡ calls_after w w.ch w.conn
  unfolding shut_down
  shut_down-calls = ground arith

  shut_down-state :
      ((shut_down x w).1.started ≡ false)
      × ((shut_down x w).1.conn ≡ none)
      × ((shut_down x w).1.ch ≡ none)
      × ((shut_down x w).1.consumer_ctx ≡ none)
      × ((shut_down x w).1.pending ≡ [])
      × ((shut_down x w).1.waiters ≡ close_all w.waiters w.pending)
  unfolding shut_down
  shut_down-state = ground arith

  both_closed :
      (c n : ℕ)
      → IsValid x w
      → w.started ≡ true
      → dials x (calls_after w (some c) (some n)) ≡ closes (calls_after w (some c) (some n))
  both_closed c n v e =
      let b = simp e at v.balanced in
      omega (
        arith,
        dials-snoc x w.calls (close_channel c),
        dials-snoc x (w.calls ++ close_channel c ∷ []) (close_connection n),
        closes-snoc w.calls (close_channel c),
        closes-snoc (w.calls ++ close_channel c ∷ []) (close_connection n),
      )

  shut_down-balance :
      IsValid x w
      → w.started ≡ true
      → dials x (calls_after w w.ch w.conn) ≡ closes (calls_after w w.ch w.conn)
  shut_down-balance v e = elim (Option-cases w.conn) [
    | inl missing ↦ cc (v.with_conn, e, ap has_handle missing)
    | inr (n, here) ↦ elim (Option-cases w.ch) [
      | inl missing ↦ cc (v.with_ch, e, ap has_handle missing)
      | inr (c, there) ↦ simp (here, there) (both_closed c n v e)
    ]
  ]

-- Whether the channel has been closed, with or without a reply left in it.
abbrev pub is_closed : Waiter → Bool
is_closed closed = true
is_closed (full_closed v) = true
is_closed empty = false
is_closed (full v) = false

pub is_closed-shut : (v : Waiter) → is_closed (shut v) ≡ true
is_closed-shut closed = refl
is_closed-shut (full_closed v) = refl
is_closed-shut empty = refl
is_closed-shut (full v) = refl

close_all-closed :
    (id : String) (waiters : ℕ → Waiter) (pending : Map ℕ) {c : ℕ}
    → lookup id pending ≡ some c
    → is_closed (close_all waiters pending c) ≡ true
unfolding lookup
close_all-closed id waiters [] h = cc
close_all-closed id waiters ((j, d) ∷ pending) {c} h =
    let rest = close_all-closed id waiters pending {c = c} in
    ground (arith, rest, is_closed-shut (close_all waiters pending c))

close_of_started : (x : Externals) (w : World) → w.started ≡ true → close x w ≡ shut_down x w
unfolding close
close_of_started x w e = ground arith

close_of_stopped : (x : Externals) (w : World) → w.started ≡ false → close x w ≡ (ok tt, w)
unfolding close
close_of_stopped x w e = ground arith

-- What Close leaves behind.
pub record IsClosed (x : Externals) (before w : World) : Type 0 where
  pub valid : IsValid x w
  pub stopped : w.started ≡ false
  pub none_pending : w.pending ≡ []
  pub waiters_closed :
      (id : String) (c : ℕ) → lookup id before.pending ≡ some c → is_closed (w.waiters c) ≡ true

shut_down-transport :
    (x : Externals) (w : World) (e : Error) → (shut_down x w).0 ≡ err e → is e transport ≡ true
unfolding shut_down is transport_error
shut_down-transport x w e h = ground arith

-- Close of a started transport in a valid state leaves none of its handles and no open connection,
-- also where the broker fails to close one, and every reply that was awaited has its channel
-- closed; an error is a transport error.
pub close-IsClosed :
    (x : Externals) (w : World)
    → IsValid x w
    → w.started ≡ true
    → IsClosed x w (close x w).1
      × ((error : Error) → (close x w).0 ≡ err error → is error transport ≡ true)
close-IsClosed x w v e =
    let (stopped, no_conn, no_ch, no_ctx, cleared, shut) = shut_down-state x w in
    rw (close_of_started x w e) (
      record {
        valid = record {
          with_conn = ap has_handle no_conn ∙ sym stopped;
          with_ch = ap has_handle no_ch ∙ sym stopped;
          with_ctx = ap has_handle no_ctx ∙ sym stopped;
          balanced =
              rw (shut_down-calls x w, stopped) (shut_down-balance x w v e ∙ sym (add-zero _));
        };
        stopped = stopped;
        none_pending = cleared;
        waiters_closed = λ id c h. rw shut (close_all-closed id w.waiters w.pending h);
      },
      shut_down-transport x w,
    )

-- A second Close asks nothing of the broker and changes nothing.
pub close-idempotent :
    (x : Externals) (w : World)
    → IsValid x w
    → w.started ≡ true
    → close x (close x w).1 ≡ (ok tt, (close x w).1)
close-idempotent x w v e = close_of_stopped x (close x w).1 (close-IsClosed x w v e).0.stopped
