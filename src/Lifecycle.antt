-- ===== src/Lifecycle.antt =====
-- lifecycle.go. A channel is the number under which it was made, `shut` holds the channels that
-- were closed. Each method runs under the mutex, so it is one step; `waitClosed` takes the mutex
-- only to read the channel, and then blocks on that channel.
pub mod Waiting
use griffino_go.Base.{
  ℕ, ◌+◌, Bool, true, false, ◌||◌, Option, none, some, List, [], ◌∷◌, eqb, if◌then◌else◌,
}

pub record Lifecycle : Type 0 where
  pub started : Bool
  pub closed : Bool
  pub closed_ch : ℕ
  pub made : ℕ
  pub shut : List ℕ

abbrev pub new_lifecycle : Lifecycle
new_lifecycle = record { started = false; closed = false; closed_ch = 0; made = 1; shut = [] }

abbrev pub has : ℕ → List ℕ → Bool
has c [] = false
has c (d ∷ ds) = eqb c d || has c ds

unfoldable pub mark_started : Lifecycle → Lifecycle
mark_started l =
    if l.closed
    then record l { started = true; closed = false; closed_ch = l.made; made = l.made + 1 }
    else record l { started = true }

-- `none` is the panic of `close` on a channel that was closed already
unfoldable pub mark_closed : Lifecycle → Option Lifecycle
mark_closed l =
    if l.closed
    then some l
    else if has l.closed_ch l.shut
    then none
    else some (record l { closed = true; shut = l.closed_ch ∷ l.shut })

-- the channel that `waitClosed` reads under the mutex
unfoldable pub wait_channel : Lifecycle → ℕ
wait_channel l = l.closed_ch

-- whether the receive on that channel goes on
unfoldable pub released : ℕ → Lifecycle → Bool
released c l = has c l.shut

unfoldable pub is_started : Lifecycle → Bool
is_started l = l.started

unfoldable pub is_closed : Lifecycle → Bool
is_closed l = l.closed

pub data Event : Type 0 where
  start close : Event

abbrev pub step : Event → Lifecycle → Option Lifecycle
step start l = some (mark_started l)
step close l = mark_closed l

-- Calls of `markStarted` and `markClosed` in the order in which they get the mutex.
unfoldable pub run : List Event → Lifecycle → Option Lifecycle
run [] l = some l
run (e ∷ es) l = elim (step e l) [ none ↦ none | some l' ↦ run es l' ]
