-- ===== src/Rabbit/Connection/Balance.antt =====
-- Start and Close keep the state of the transport and its connections in step.
use griffino_go.Base.{
  ℕ, ◌+◌, Bool, true, false, Option, none, some, List, [], ◌∷◌, ◌++◌, ◌≡◌, refl, arith, append-nil,
  append_assoc, if◌then◌else◌,
}
use griffino_go.Errors.{Error}
use griffino_go.Config.{Config}
use griffino_go.Rabbit.Broker.{World, Call, dial, close_connection, Externals, new_world}

abbrev pub has_handle : Option ℕ → Bool
has_handle none = false
has_handle (some n) = true

abbrev succeeded : Option Error → ℕ
succeeded none = 1
succeeded (some e) = 0

-- A successful dial counts one.
abbrev pub dials_by : Option Error → Call → ℕ
dials_by a (dial u) = succeeded a
dials_by a _ = 0

abbrev pub closes_by : Call → ℕ
closes_by (close_connection n) = 1
closes_by _ = 0

module _ (x : Externals) where
  dials_from : List Call → List Call → ℕ
  dials_from past [] = 0
  dials_from past (c ∷ cs) = dials_by (x.answer past c) c + dials_from (past ++ c ∷ []) cs

  -- the connections that the calls have opened
  pub dials : List Call → ℕ
  dials cs = dials_from [] cs

  dials_from-snoc :
      (past cs : List Call) (c : Call)
      → dials_from past (cs ++ c ∷ []) ≡ dials_from past cs + dials_by (x.answer (past ++ cs) c) c
  unfolding dials_from
  dials_from-snoc past [] c = rw append-nil (omega arith)
  dials_from-snoc past (d ∷ cs) c =
      let ih = dials_from-snoc (past ++ d ∷ []) cs c in
      let ih' = rw (append_assoc past (d ∷ []) cs) at ih in omega arith

  pub dials-snoc :
      (cs : List Call) (c : Call) → dials (cs ++ c ∷ []) ≡ dials cs + dials_by (x.answer cs c) c
  unfolding dials
  dials-snoc cs c = dials_from-snoc [] cs c

-- the connections that the calls have closed
pub closes : List Call → ℕ
closes [] = 0
closes (c ∷ cs) = closes_by c + closes cs

pub closes-snoc : (cs : List Call) (c : Call) → closes (cs ++ c ∷ []) ≡ closes cs + closes_by c
unfolding closes
closes-snoc [] c = omega arith
closes-snoc (d ∷ cs) c = omega (arith, closes-snoc cs c)

module _ (x : Externals) where
  -- The transport has all of its handles when it is started and none when it is not, and just one
  -- connection is open when it is started, none when it is not.
  pub record IsValid (w : World) : Type 0 where
    pub with_conn : has_handle w.conn ≡ w.started
    pub with_ch : has_handle w.ch ≡ w.started
    pub with_ctx : has_handle w.consumer_ctx ≡ w.started
    pub balanced : dials x w.calls ≡ closes w.calls + (if w.started then 1 else 0)

  pub new_world-IsValid : (cfg : Config) → IsValid (new_world cfg)
  unfolding new_world dials dials_from closes
  new_world-IsValid cfg = record {
    with_conn = refl;
    with_ch = refl;
    with_ctx = refl;
    balanced = refl;
  }
