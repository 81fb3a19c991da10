-- ===== src/Context.antt =====
-- context.go: the handler context, read from a decoded message.
pub mod Fields
pub mod Validation
pub mod Refusals
pub mod RoundTrip
use griffino_go.Base.{String, ◌==◌, Option, none, some, [], ◌∷◌, if◌then◌else◌}
use griffino_go.Base.Maps.{lookup}
use griffino_go.Json.{Json, null, str, obj, Object, members, as_string, as_object}
use griffino_go.Errors.{Error, Result, ok, err, transport_error, ◌>>=◌}

pub record HandlerContext : Type 0 where
  pub user_id : String
  pub plugin_id : String
  pub task_id : String
  pub msg_id : String
  pub payload : Object
  pub node_id : String
  -- a nil map is `none`
  pub node_context : Option Object
  pub action_id : String

abbrev pub or_empty : Option Object → Object
or_empty none = []
or_empty (some ms) = ms

abbrev or_fail {ℓ} : {A : Type ℓ} → Option A → Error → Result A
or_fail none e = err e
or_fail (some a) e = ok a

-- the test of `present` after a failed assertion on `msg["pluginId"]`
abbrev plugin_id_or : Option Json → String → Result String
plugin_id_or none default = ok default
plugin_id_or (some (str s)) default = ok s
plugin_id_or (some _) default =
    err (transport_error none "message field pluginId must be a string" [])

abbrev nonempty_plugin_id : String → Result String
nonempty_plugin_id s =
    if s == ""
    then err (
        transport_error none
          "message field pluginId must be a string (or a default plugin id must be provided)" [])
    else ok s

-- what `optionalString` makes of `msg[field]`
abbrev optional_of : String → Option Json → Result String
optional_of field none = ok ""
optional_of field (some null) = ok ""
optional_of field (some (str s)) = ok s
optional_of field (some _) =
    err (transport_error none "message field %s must be a string or null" (field ∷ []))

unfoldable pub optional_string : Object → String → Result String
optional_string msg field = optional_of field (lookup field msg)

abbrev node_context_of : Option Json → Result (Option Object)
node_context_of none = ok none
node_context_of (some null) = ok none
node_context_of (some (obj ms)) = ok (some (members ms))
node_context_of (some _) =
    err (transport_error none "message field context must be an object or null" [])

unfoldable pub context_from_message : Object → String → Result HandlerContext
context_from_message msg default_plugin_id = do
  let payload = or_empty (as_object (lookup "payload" msg))
  user_id ←
      or_fail (as_string (lookup "userId" msg))
        (transport_error none "message field userId must be a string" [])
  given ← plugin_id_or (lookup "pluginId" msg) default_plugin_id
  plugin_id ← nonempty_plugin_id given
  msg_id ←
      or_fail (as_string (lookup "msgId" msg))
        (transport_error none "message field msgId must be a string" [])
  task_id ← optional_string msg "taskId"
  node_id ← optional_string msg "nodeId"
  node_context ← node_context_of (lookup "context" msg)
  ok (record {
    user_id = user_id;
    plugin_id = plugin_id;
    task_id = task_id;
    msg_id = msg_id;
    payload = payload;
    node_id = node_id;
    node_context = node_context;
    action_id = "";
  })
