-- ===== src/Client/Options.antt =====
-- What the options of Invoke make of a request, read off their list from its end.
use griffino_go.Base.{String, Option, none, some, List, [], ◌∷◌, ◌≡◌, refl}
use griffino_go.Base.Int.{ℤ, quot}
use griffino_go.Json.{Object}
use griffino_go.Models.{InvokeRequest}
use griffino_go.Client.Interface.{Transport, Client}
use griffino_go.Client.Requests.{
  InvokeOptions, InvokeOption, with_slot, with_user_id, with_task_id, with_timeout,
  set_invoke_option, set_invoke_options, get_or, millisecond, invoke_request,
}
use griffino_go.Client.Serve.{invoke}

module _ {ℓ} {A : Type ℓ} where
  abbrev pub or_earlier : Option A → Option A → Option A
  or_earlier none earlier = earlier
  or_earlier (some a) earlier = some a

  -- what the last option that has a value of a kind says
  abbrev pub last_of : (InvokeOption → Option A) → List InvokeOption → Option A
  last_of f [] = none
  last_of f (o ∷ os) = or_earlier (last_of f os) (f o)

  get_or-or_earlier : (m n : Option A) (d : A) → get_or m (get_or n d) ≡ get_or (or_earlier m n) d
  get_or-or_earlier none n d = refl
  get_or-or_earlier (some a) n d = refl

  or_earlier_assoc :
      (l m n : Option A) → or_earlier l (or_earlier m n) ≡ or_earlier (or_earlier l m) n
  or_earlier_assoc none m n = refl
  or_earlier_assoc (some a) m n = refl

  or_earlier-none : (m : Option A) → or_earlier m none ≡ m
  or_earlier-none none = refl
  or_earlier-none (some a) = refl

abbrev pub slot_in : InvokeOption → Option String
slot_in (with_slot s) = some s
slot_in _ = none

abbrev pub user_in : InvokeOption → Option String
user_in (with_user_id s) = some s
user_in _ = none

abbrev pub task_in : InvokeOption → Option String
task_in (with_task_id s) = some s
task_in _ = none

abbrev pub timeout_in : InvokeOption → Option ℤ
timeout_in (with_timeout d) = some d
timeout_in _ = none

-- The fields after one option.
abbrev Sets : InvokeOption → InvokeOptions → Type 0
Sets opt o =
    ((set_invoke_option opt o).slot ≡ get_or (slot_in opt) o.slot)
    × ((set_invoke_option opt o).task_id ≡ get_or (task_in opt) o.task_id)
    × ((set_invoke_option opt o).user_id ≡ or_earlier (user_in opt) o.user_id)
    × ((set_invoke_option opt o).timeout ≡ or_earlier (timeout_in opt) o.timeout)

one_option : (opt : InvokeOption) (o : InvokeOptions) → Sets opt o
one_option (with_slot s) o = (refl, refl, refl, refl)
one_option (with_user_id s) o = (refl, refl, refl, refl)
one_option (with_task_id s) o = (refl, refl, refl, refl)
one_option (with_timeout d) o = (refl, refl, refl, refl)

all_options :
    (opts : List InvokeOption) (o : InvokeOptions)
    → ((set_invoke_options opts o).slot ≡ get_or (last_of slot_in opts) o.slot)
      × ((set_invoke_options opts o).task_id ≡ get_or (last_of task_in opts) o.task_id)
      × ((set_invoke_options opts o).user_id ≡ or_earlier (last_of user_in opts) o.user_id)
      × ((set_invoke_options opts o).timeout ≡ or_earlier (last_of timeout_in opts) o.timeout)
all_options [] o = (refl, refl, refl, refl)
all_options (opt ∷ opts) o =
    let (s, t, u, d) = all_options opts (set_invoke_option opt o) in
    let (s₁, t₁, u₁, d₁) = one_option opt o in
    (
      rw (s, s₁) (get_or-or_earlier (last_of slot_in opts) (slot_in opt) o.slot),
      rw (t, t₁) (get_or-or_earlier (last_of task_in opts) (task_in opt) o.task_id),
      rw (u, u₁) (or_earlier_assoc (last_of user_in opts) (user_in opt) o.user_id),
      rw (d, d₁) (or_earlier_assoc (last_of timeout_in opts) (timeout_in opt) o.timeout),
    )

-- What a request has to say, for the options of the call and the client.
pub record IsRequest {T : Type 0} (capability_type : String) (payload : Option Object)
    (opts : List InvokeOption) (c : Client T) (req : InvokeRequest) : Type 0 where
  pub capability : req.capability_type ≡ capability_type
  pub payload_kept : req.payload ≡ payload
  pub plugin : req.plugin_id ≡ c.config.plugin_id
  pub user : req.user_id ≡ get_or (last_of user_in opts) c.config.user_id
  pub slot : req.slot ≡ get_or (last_of slot_in opts) ""
  pub task : req.task_id ≡ get_or (last_of task_in opts) ""
  pub timeout :
      req.timeout_ms ≡ quot (get_or (last_of timeout_in opts) c.config.invoke_timeout) millisecond

abbrev defaults : InvokeOptions
defaults = record { slot = ""; user_id = none; task_id = ""; timeout = none }

invoke_request-IsRequest :
    {T : Type 0} (capability_type : String) (payload : Option Object) (opts : List InvokeOption)
    (c : Client T)
    → IsRequest capability_type payload opts c (invoke_request capability_type payload opts c)
unfolding invoke_request
invoke_request-IsRequest capability_type payload opts c =
    let (s, t, u, d) = all_options opts defaults in
    record {
      capability = refl;
      payload_kept = refl;
      plugin = refl;
      user = rw (u, or_earlier-none (last_of user_in opts)) refl;
      slot = s;
      task = t;
      timeout = rw (d, or_earlier-none (last_of timeout_in opts)) refl;
    }

-- Invoke of a client asks its transport once, for a request in which the last option of each kind
-- counts and the configuration stands in for a missing user or timeout, returns what the transport
-- returns, and changes nothing in the client but the state of the transport.
pub invoke-IsRequest :
    {T : Type 0} (t : Transport T) (capability_type : String) (payload : Option Object)
    (opts : List InvokeOption) (c : Client T)
    → (req : InvokeRequest) × IsRequest capability_type payload opts c req
      × (invoke t capability_type payload opts c
          ≡ ((t.invoke req c.transport).0, record c { transport = (t.invoke req c.transport).1 }))
unfolding invoke
invoke-IsRequest t capability_type payload opts c = (
  invoke_request capability_type payload opts c,
  invoke_request-IsRequest capability_type payload opts c,
  refl,
)
