-- ===== src/Client/Serving.antt =====
-- Start, Close and Run of client.go over any transport.
use griffino_go.Base.{true, false, not, ◌&&◌, some, ◌≡◌, refl, ◌∙◌, inl, inr, Bool-cases, arith}
use griffino_go.Errors.{Error, Result, ok, err}
use griffino_go.Lifecycle.{Lifecycle, mark_started, mark_closed, is_started, is_closed}
use griffino_go.Lifecycle.Waiting.{IsValid, mark_started-IsValid, mark_closed-IsValid}
use griffino_go.Client.Interface.{Transport, Client}
use griffino_go.Client.Serve.{is_serving, open_all, mark, start, marked, close, closing, run}

-- What Start may do to a client: it serves afterwards, or the call failed and the client counts as
-- started or closed exactly if it did before.
abbrev pub Started : {T : Type 0} → Client T → Result (Unit {0}) × Client T → Type 0
Started c (ok u, c') = is_serving c' ≡ true
Started c (err e, c') = (is_serving c ≡ false) × (c'.lifecycle ≡ c.lifecycle)

mark_started-serves :
    (l : Lifecycle) → (is_started (mark_started l) && not (is_closed (mark_started l))) ≡ true
unfolding mark_started is_started is_closed
mark_started-serves l = ground arith

module _ {T : Type 0} (t : Transport T) where
  mark-Started :
      (c : Client T) (r : Result (Unit {0}) × T) → is_serving c ≡ false → Started c (mark t c r)
  mark-Started c (ok u, s) h = mark_started-serves c.lifecycle
  mark-Started c (err e, s) h = (h, refl)

  -- After Start the client serves if Start succeeded; if it failed the client did not serve before
  -- and its lifecycle is as it was.
  pub start-Started : (c : Client T) → Started c (start t c)
  unfolding start
  start-Started c = elim (Bool-cases (is_serving c)) [
    | inl e ↦ rw e e
    | inr e ↦ rw e (mark-Started c (open_all t c) e)
  ]

  mark-IsValid :
      (c : Client T) (r : Result (Unit {0}) × T)
      → IsValid c.lifecycle
      → IsValid (mark t c r).1.lifecycle
  mark-IsValid c (ok u, s) v = mark_started-IsValid c.lifecycle v
  mark-IsValid c (err e, s) v = v

  pub start-IsValid : (c : Client T) → IsValid c.lifecycle → IsValid (start t c).1.lifecycle
  unfolding start
  start-IsValid c v = elim (Bool-cases (is_serving c)) [
    | inl e ↦ rw e v
    | inr e ↦ rw e (mark-IsValid c (open_all t c) v)
  ]

-- What Close does to a client that a valid history left: it returns, the client is closed, its
-- lifecycle is still valid, and closing again succeeds at once without the transport.
pub record IsShutDown {T : Type 0} (t : Transport T) (c : Client T) : Type 0 where
  pub closed : is_closed c.lifecycle ≡ true
  pub valid : IsValid c.lifecycle
  pub again : close t c ≡ some (ok tt, c)

module _ {T : Type 0} (t : Transport T) where
  closed_again : (c : Client T) → is_closed c.lifecycle ≡ true → close t c ≡ some (ok tt, c)
  unfolding close
  closed_again c h = rw h refl

  IsShutDown-of :
      (c : Client T) → is_closed c.lifecycle ≡ true → IsValid c.lifecycle → IsShutDown t c
  IsShutDown-of c h v = record { closed = h; valid = v; again = closed_again c h }

  pub marked_of :
      (c : Client T) (r : Result (Unit {0})) (s : T) (l : Lifecycle)
      → mark_closed c.lifecycle ≡ some l
      → marked t c (r, s) ≡ some (r, record c { transport = s; lifecycle = l })
  marked_of c r s l e = rw (marked, e) refl

  marked-IsShutDown :
      (c : Client T) (r : Result (Unit {0}) × T)
      → IsValid c.lifecycle
      → (c' : Client T) × (marked t c r ≡ some (r.0, c')) × IsShutDown t c'
  unfolding is_closed
  marked-IsShutDown c (r, s) v =
      let (l, e, v', h, _) = mark_closed-IsValid c.lifecycle v in
      (record c { transport = s; lifecycle = l }, marked_of c r s l e, IsShutDown-of _ h v')

  -- Close of a client, from a valid lifecycle, returns without a panic, with the client closed, its
  -- lifecycle still valid, and a further Close that succeeds at once without asking the transport.
  pub close-IsShutDown :
      (c : Client T)
      → IsValid c.lifecycle
      → (r : Result (Unit {0})) × (c' : Client T) × (close t c ≡ some (r, c')) × IsShutDown t c'
  unfolding close
  close-IsShutDown c v = elim (Bool-cases (is_closed c.lifecycle)) [
    | inl e ↦ (ok tt, c, rw e refl, IsShutDown-of c e v)
    | inr e ↦
        let (c', found, s) = marked-IsShutDown c (t.close c.transport) v in
        ((t.close c.transport).0, c', rw e found, s)
  ]

  -- How Run ends.
  pub data Ended (c : Client T) (meanwhile : Client T → Client T) : Type 0 where
    not_started :
        (e : Error) (c' : Client T)
        → start t c ≡ (err e, c')
        → run t meanwhile c ≡ some (err e, c')
        → Ended c meanwhile
    ran :
        (c₁ c' : Client T) (r : Result (Unit {0}))
        → start t c ≡ (ok tt, c₁)
        → run t meanwhile c ≡ some (r, c')
        → IsShutDown t c'
        → Ended c meanwhile

  closing-Ended :
      (c : Client T) (meanwhile : Client T → Client T) (r : Result (Unit {0}) × Client T)
      → start t c ≡ r
      → run t meanwhile c ≡ closing t meanwhile r
      → IsValid (meanwhile r.1).lifecycle
      → Ended c meanwhile
  closing-Ended c meanwhile (err e, c') h k v = not_started e c' h k
  closing-Ended c meanwhile (ok u, c') h k v =
      let (r, c₂, found, s) = close-IsShutDown (meanwhile c') v in ran c' c₂ r h (k ∙ found) s

  -- Run, from a valid lifecycle and if what happens while it waits keeps the lifecycle valid, ends
  -- in one of two ways: Start failed, and its error and client are those of Run; or Start
  -- succeeded, and Run leaves a client that is shut down.
  pub run-Ended :
      (c : Client T) (meanwhile : Client T → Client T)
      → IsValid c.lifecycle
      → ((d : Client T) → IsValid d.lifecycle → IsValid (meanwhile d).lifecycle)
      → Ended c meanwhile
  unfolding run
  run-Ended c meanwhile v keeps =
      closing-Ended c meanwhile (start t c) refl refl (keeps _ (start-IsValid t c v))
