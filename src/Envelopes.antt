-- ===== src/Envelopes.antt =====
-- internal/transport/envelopes.go: the bodies of the messages that the SDK sends.
use griffino_go.Base.{String, ◌==◌, Bool, Option, [], ◌∷◌, if◌then◌else◌}
use griffino_go.Base.Maps.{insert}
use griffino_go.Json.{Json, null, bool, str, Object, object, object_or_null}

abbrev pub nullable_string : String → Json
nullable_string s = if s == "" then null else str s

-- `env[k] = v` under `if v != ""`
abbrev pub insert_nonempty : String → String → Object → Object
insert_nonempty k v env = if v == "" then env else insert k (str v) env

unfoldable pub build_invoke_envelope :
    (task_id msg_id user_id plugin_id : String) → Option Object → (slot : String) → Object
build_invoke_envelope task_id msg_id user_id plugin_id payload slot = insert_nonempty "slot" slot (
    ("taskId", nullable_string task_id)
    ∷ ("msgId", str msg_id)
    ∷ ("userId", str user_id)
    ∷ ("pluginId", str plugin_id)
    ∷ ("payload", object_or_null payload)
    ∷ [])

unfoldable pub build_dispatch_envelope :
    (task_id msg_id user_id plugin_id event : String) → Option Object → Object
build_dispatch_envelope task_id msg_id user_id plugin_id event payload =
    ("taskId", nullable_string task_id)
    ∷ ("msgId", str msg_id)
    ∷ ("userId", str user_id)
    ∷ ("pluginId", str plugin_id)
    ∷ ("event", str event)
    ∷ ("payload", object_or_null payload)
    ∷ []

unfoldable pub build_node_result_envelope :
    (task_id msg_id user_id plugin_id node_id : String) (ok : Bool) (output : Object)
    (fail_reason : String)
    → Object
build_node_result_envelope task_id msg_id user_id plugin_id node_id ok output fail_reason =
    insert_nonempty "failReason" fail_reason (
      ("taskId", nullable_string task_id)
      ∷ ("msgId", str msg_id)
      ∷ ("userId", str user_id)
      ∷ ("pluginId", str plugin_id)
      ∷ ("nodeId", str node_id)
      ∷ ("ok", bool ok)
      ∷ ("output", object output)
      ∷ [])

unfoldable pub build_provider_error : String → Object
build_provider_error message = ("error", str message) ∷ []
