-- ===== src/Client/Serve.antt =====
-- client.go: the runner of handlers, Invoke, Dispatch, Start, Close and Run.
use griffino_go.Base.{String, Bool, not, ◌&&◌, Option, none, some, List, [], ◌∷◌, if◌then◌else◌}
use griffino_go.Json.{Object}
use griffino_go.Errors.{Result, ok, err, capability_error}
use griffino_go.Lifecycle.{mark_started, mark_closed, is_started, is_closed}
use griffino_go.Models.{returned, failed, panicked}
use griffino_go.Client.Interface.{Runner, Transport, Client}
use griffino_go.Client.Requests.{InvokeOption, DispatchOption, invoke_request, dispatch_request}

-- `Client.run`: the HandlerRunner, which turns a panic into an error
unfoldable pub run_handler : Runner
run_handler h hc = elim (h hc) [
  | returned result ↦ ok result
  | failed result e ↦ err e
  | panicked value ↦ err (capability_error none "handler panicked: %v" (value ∷ []))
]

abbrev pub is_serving : {T : Type 0} → Client T → Bool
is_serving c = is_started c.lifecycle && not (is_closed c.lifecycle)

module _ {T : Type 0} (t : Transport T) where
  abbrev pub put {ℓ} : {A : Type ℓ} → Client T → A × T → A × Client T
  put c (r, s) = (r, record c { transport = s })

  unfoldable pub invoke :
      String → Option Object → List InvokeOption → Client T → Result (Option Object) × Client T
  unfolding invoke_request
  invoke capability_type payload opts c =
      put c (t.invoke (invoke_request capability_type payload opts c) c.transport)

  unfoldable pub dispatch :
      String → Option Object → List DispatchOption → Client T → Result (Unit {0}) × Client T
  unfolding dispatch_request
  dispatch event payload opts c =
      put c (t.dispatch (dispatch_request event payload opts c) c.transport)

  -- a call of the transport, and what follows if it succeeds
  abbrev pub then_ : Result (Unit {0}) × T → (T → Result (Unit {0}) × T) → Result (Unit {0}) × T
  then_ (ok u, s) next = next s
  then_ (err e, s) next = (err e, s)

  abbrev pub open_all : Client T → Result (Unit {0}) × T
  open_all c = then_ (t.start c.transport) λ s.
      then_ (t.start_provider_consumers c.providers run_handler s) λ s.
        then_ (t.start_event_consumers c.consumers run_handler s)
          λ s. t.start_action_consumers c.actions run_handler s

  abbrev pub mark : Client T → Result (Unit {0}) × T → Result (Unit {0}) × Client T
  mark c (ok u, s) = (ok u, record c { transport = s; lifecycle = mark_started c.lifecycle })
  mark c (err e, s) = (err e, record c { transport = s })

  unfoldable pub start : Client T → Result (Unit {0}) × Client T
  start c = if is_serving c then (ok tt, c) else mark c (open_all c)

  -- `none` is the panic of closing a closed channel
  abbrev pub marked : Client T → Result (Unit {0}) × T → Option (Result (Unit {0}) × Client T)
  marked c (r, s) = elim (mark_closed c.lifecycle) [
    | none ↦ none
    | some l ↦ some (r, record c { transport = s; lifecycle = l })
  ]

  unfoldable pub close : Client T → Option (Result (Unit {0}) × Client T)
  close c = if is_closed c.lifecycle then some (ok tt, c) else marked c (t.close c.transport)

  -- `Run`: what others do to the client before it is closed or its context ends is `meanwhile`
  abbrev pub closing :
      (Client T → Client T) → Result (Unit {0}) × Client T → Option (Result (Unit {0}) × Client T)
  closing meanwhile (err e, c) = some (err e, c)
  closing meanwhile (ok u, c) = close (meanwhile c)

  unfoldable pub run : (Client T → Client T) → Client T → Option (Result (Unit {0}) × Client T)
  run meanwhile c = closing meanwhile (start c)
