-- ===== src/Client/Requests.antt =====
-- client.go: the options of Invoke and Dispatch, and the requests that these make.
use griffino_go.Base.{ℕ, ◌^◌, String, Option, none, some, List, [], ◌∷◌}
use griffino_go.Base.Int.{ℤ, quot}
use griffino_go.Json.{Object}
use griffino_go.Models.{InvokeRequest, DispatchRequest}
use griffino_go.Client.Interface.{Client}

pub record InvokeOptions : Type 0 where
  pub slot : String
  pub user_id : Option String
  pub task_id : String
  pub timeout : Option ℤ

pub data InvokeOption : Type 0 where
  with_slot with_user_id with_task_id : String → InvokeOption
  with_timeout : ℤ → InvokeOption

abbrev pub set_invoke_option : InvokeOption → InvokeOptions → InvokeOptions
set_invoke_option (with_slot s) o = record o { slot = s }
set_invoke_option (with_user_id s) o = record o { user_id = some s }
set_invoke_option (with_task_id s) o = record o { task_id = s }
set_invoke_option (with_timeout d) o = record o { timeout = some d }

abbrev pub set_invoke_options : List InvokeOption → InvokeOptions → InvokeOptions
set_invoke_options [] o = o
set_invoke_options (opt ∷ opts) o = set_invoke_options opts (set_invoke_option opt o)

abbrev pub get_or {ℓ} : {A : Type ℓ} → Option A → A → A
get_or none d = d
get_or (some a) d = a

abbrev pub millisecond : ℕ
millisecond = 10 ^ 6

module _ {T : Type 0} where
  -- the request that Invoke makes
  unfoldable pub invoke_request :
      String → Option Object → List InvokeOption → Client T → InvokeRequest
  invoke_request capability_type payload opts c =
      let o =
        set_invoke_options opts
          (record { slot = ""; user_id = none; task_id = ""; timeout = none }) in
      record {
        capability_type = capability_type;
        payload = payload;
        user_id = get_or o.user_id c.config.user_id;
        plugin_id = c.config.plugin_id;
        task_id = o.task_id;
        slot = o.slot;
        timeout_ms = quot (get_or o.timeout c.config.invoke_timeout) millisecond;
      }

pub record DispatchOptions : Type 0 where
  pub user_id : Option String
  pub task_id : String

pub data DispatchOption : Type 0 where
  with_dispatch_user_id with_dispatch_task_id : String → DispatchOption

abbrev pub set_dispatch_option : DispatchOption → DispatchOptions → DispatchOptions
set_dispatch_option (with_dispatch_user_id s) o = record o { user_id = some s }
set_dispatch_option (with_dispatch_task_id s) o = record o { task_id = s }

abbrev pub set_dispatch_options : List DispatchOption → DispatchOptions → DispatchOptions
set_dispatch_options [] o = o
set_dispatch_options (opt ∷ opts) o = set_dispatch_options opts (set_dispatch_option opt o)

unfoldable pub dispatch_request :
    {T : Type 0} → String → Option Object → List DispatchOption → Client T → DispatchRequest
dispatch_request event payload opts c =
    let o = set_dispatch_options opts (record { user_id = none; task_id = "" }) in
    record {
      event = event;
      payload = payload;
      user_id = get_or o.user_id c.config.user_id;
      plugin_id = c.config.plugin_id;
      task_id = o.task_id;
    }
