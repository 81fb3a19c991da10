-- ===== src/Rabbit/Connection/Starting.antt =====
-- Start, step by step.
use griffino_go.Base.{
  ℕ, ◌+◌, String, true, false, Option, some, List, [], ◌∷◌, ◌++◌, ◌≡◌, inl, inr, refl, sym, ◌∙◌,
  arith, Bool-cases,
}
use griffino_go.Base.Maps.{Map}
use griffino_go.Config.{Config}
use griffino_go.Errors.{Error, ok, is, transport, transport_error}
use griffino_go.Rabbit.Broker.{
  World, Call, dial, close_connection, Externals, create, ask, quietly, modify,
}
use griffino_go.Rabbit.Triple.{
  Triple, Triple-bind, Triple-fail, Triple-catch, Triple-ask, Post, Post-map,
}
use griffino_go.Rabbit.Connection.{url, or_close, dialled, connect, start, opened}
use griffino_go.Rabbit.Connection.Balance.{
  has_handle, dials, closes, dials_by, closes_by, dials-snoc, closes-snoc, IsValid,
}

is-transport_error :
    (e : Error) (f : String) (args : List String)
    → is (transport_error (some e) f args) transport ≡ true
unfolding is transport_error
is-transport_error e f args = refl

abbrev IsNeutral : Call → Type 0
IsNeutral c = (closes_by c ≡ 0) × ((a : Option Error) → dials_by a c ≡ 0)

module _ (x : Externals) (cfg : Config) (pending : Map ℕ) where
  -- Not started, with `k` connections open.
  record IsIdle (k : ℕ) (w : World) : Type 0 where
    same_cfg : w.cfg ≡ cfg
    same_pending : w.pending ≡ pending
    stopped : w.started ≡ false
    no_conn : has_handle w.conn ≡ false
    no_ch : has_handle w.ch ≡ false
    no_ctx : has_handle w.consumer_ctx ≡ false
    balance : dials x w.calls ≡ closes w.calls + k

  abbrev Failed : Error → World → Type 0
  Failed e w = IsIdle 0 w × (is e transport ≡ true)

  called-IsIdle :
      (k j : ℕ) (c : Call) (w : World)
      → dials_by (x.answer w.calls c) c + k ≡ closes_by c + j
      → IsIdle k w
      → IsIdle j (record w { calls = w.calls ++ c ∷ [] })
  called-IsIdle k j c w h v = record {
    same_cfg = v.same_cfg;
    same_pending = v.same_pending;
    stopped = v.stopped;
    no_conn = v.no_conn;
    no_ch = v.no_ch;
    no_ctx = v.no_ctx;
    balance = let o = v.balance in omega (arith, dials-snoc x w.calls c, closes-snoc w.calls c);
  }

  neutral_ask :
      (k : ℕ) (c : Call) → IsNeutral c → Triple (IsIdle k) (ask x c) (λ _. IsIdle k) (λ _. IsIdle k)
  neutral_ask k c n =
      Triple-ask x c
        (λ w v e.
          called-IsIdle k k c w (let p = n.1 (x.answer w.calls c) in let q = n.0 in omega arith) v)
        (λ w error v e.
          called-IsIdle k k c w (let p = n.1 (x.answer w.calls c) in let q = n.0 in omega arith) v)

  -- A failed call to close is dropped: the connection counts as closed.
  closing :
      (conn : ℕ)
      → Triple (IsIdle 1) (quietly (ask x (close_connection conn))) (λ _. IsIdle 0) Failed
  closing conn = record { at = λ w v. called-IsIdle 1 0 (close_connection conn) w (omega arith) v }

  neutral_or_close :
      (conn : ℕ) (c : Call) (f : String) (args : List String)
      → IsNeutral c
      → Triple (IsIdle 1) (or_close x conn c f args) (λ _. IsIdle 1) Failed
  neutral_or_close conn c f args n = Triple-catch (neutral_ask 1 c n) λ e.
      Triple-bind {R = λ _. IsIdle 0} (closing conn)
        λ _. Triple-fail (transport_error (some e) f args) (λ w v. (v, is-transport_error e f args))

  create-IsIdle : (k : ℕ) {E : Error → World → Type 0} → Triple (IsIdle k) create (λ _. IsIdle k) E
  create-IsIdle k = record {
    at = λ w v. record {
      same_cfg = v.same_cfg;
      same_pending = v.same_pending;
      stopped = v.stopped;
      no_conn = v.no_conn;
      no_ch = v.no_ch;
      no_ctx = v.no_ctx;
      balance = v.balance;
    };
  }

  dialled-IsIdle : Triple (IsIdle 0) (dialled x cfg) (λ _. IsIdle 1) Failed
  dialled-IsIdle =
      Triple-bind {R = λ _. IsIdle 1}
        (Triple-catch {R = λ _. IsIdle 0}
          (Triple-ask x (dial (url cfg))
            (λ w v e. called-IsIdle 0 1 (dial (url cfg)) w (rw e refl) v)
            (λ w error v e. called-IsIdle 0 0 (dial (url cfg)) w (rw e refl) v))
          (λ e.
            Triple-fail (transport_error (some e) "failed to dial RabbitMQ broker" [])
              (λ w v. (v, is-transport_error e _ []))))
        (λ _. create-IsIdle 1)

  -- What Start leaves behind when it succeeds.
  pub record IsRunning (w : World) : Type 0 where
    pub same_cfg : w.cfg ≡ cfg
    pub same_pending : w.pending ≡ pending
    pub started : w.started ≡ true
    pub valid : IsValid x w

  opened-IsRunning :
      (conn ch ctx : ℕ) → Triple (IsIdle 1) (modify (opened conn ch ctx)) (λ _. IsRunning) Failed
  opened-IsRunning conn ch ctx = record {
    at = λ w v. record {
      same_cfg = v.same_cfg;
      same_pending = v.same_pending;
      started = refl;
      valid = record { with_conn = refl; with_ch = refl; with_ctx = refl; balanced = v.balance };
    };
  }

  connect-IsRunning : Triple (IsIdle 0) (connect x cfg) (λ _. IsRunning) Failed
  unfolding connect
  connect-IsRunning = Triple-bind {R = λ _. IsIdle 1} dialled-IsIdle λ conn.
      Triple-bind {R = λ _. IsIdle 1} (neutral_or_close conn _ _ _ (refl, λ a. refl)) λ _.
        Triple-bind {R = λ _. IsIdle 1} (create-IsIdle 1) λ ch.
          Triple-bind {R = λ _. IsIdle 1} (neutral_or_close conn _ _ _ (refl, λ a. refl)) λ _.
            Triple-bind {R = λ _. IsIdle 1} (neutral_or_close conn _ _ _ (refl, λ a. refl)) λ _.
              Triple-bind {R = λ _. IsIdle 1} (neutral_or_close conn _ _ _ (refl, λ a. refl)) λ _.
                Triple-bind {R = λ _. IsIdle 1} (neutral_or_close conn _ _ _ (refl, λ a. refl)) λ _.
                  Triple-bind {R = λ _. IsIdle 1} (create-IsIdle 1)
                    λ ctx. opened-IsRunning conn ch ctx

-- A transport that Start failed to start: as it was, with no connection left open.
pub record IsStopped (x : Externals) (before w : World) : Type 0 where
  pub same_cfg : w.cfg ≡ before.cfg
  pub same_pending : w.pending ≡ before.pending
  pub stopped : w.started ≡ false
  pub valid : IsValid x w

IsStopped-of_IsIdle :
    (x : Externals) (before w : World)
    → IsIdle x before.cfg before.pending 0 w
    → IsStopped x before w
IsStopped-of_IsIdle x before w v = record {
  same_cfg = v.same_cfg;
  same_pending = v.same_pending;
  stopped = v.stopped;
  valid = record {
    with_conn = v.no_conn ∙ sym v.stopped;
    with_ch = v.no_ch ∙ sym v.stopped;
    with_ctx = v.no_ctx ∙ sym v.stopped;
    balanced = rw v.stopped v.balance;
  };
}

idle_of_IsValid :
    (x : Externals) (w : World) → IsValid x w → w.started ≡ false → IsIdle x w.cfg w.pending 0 w
idle_of_IsValid x w v e = record {
  same_cfg = refl;
  same_pending = refl;
  stopped = e;
  no_conn = v.with_conn ∙ e;
  no_ch = v.with_ch ∙ e;
  no_ctx = v.with_ctx ∙ e;
  balance = let b = v.balanced in ground arith;
}

pub start_of_started : (x : Externals) (w : World) → w.started ≡ true → start x w ≡ (ok tt, w)
unfolding start
start_of_started x w e = ground arith

start_of_stopped : (x : Externals) (w : World) → w.started ≡ false → start x w ≡ connect x w.cfg w
unfolding start
start_of_stopped x w e = ground arith

-- Start of the transport, from a valid state: on success it is started with all of its handles and
-- one open connection; on failure it is not started, has no handle, every connection that was
-- dialled has been closed, and the error is a transport error. The configuration and the waiting
-- replies stay either way.
pub start-IsValid :
    (x : Externals) (w : World)
    → IsValid x w
    → Post
        (λ _. IsRunning x w.cfg w.pending)
        (λ e w'. IsStopped x w w' × (is e transport ≡ true))
        (start x w)
start-IsValid x w v = elim (Bool-cases w.started) [
  | inl e ↦
      rw (start_of_started x w e)
        (record { same_cfg = refl; same_pending = refl; started = e; valid = v })
  | inr e ↦ rw (start_of_stopped x w e) (
      Post-map {Q = λ _. IsRunning x w.cfg w.pending} {E = Failed x w.cfg w.pending}
        (connect x w.cfg w) (λ a w' q. q) (λ error w' q. (IsStopped-of_IsIdle x w w' q.0, q.1))
        ((connect-IsRunning x w.cfg w.pending).at w (idle_of_IsValid x w v e)))
]

-- After a Start from a valid state that succeeded, a further Start asks nothing of the broker and
-- changes nothing.
pub start-idempotent :
    (x : Externals) (w w' : World)
    → IsValid x w
    → start x w ≡ (ok tt, w')
    → start x w' ≡ (ok tt, w')
start-idempotent x w w' v h =
    let running = rw h at (start-IsValid x w v) in start_of_started x w' running.started
