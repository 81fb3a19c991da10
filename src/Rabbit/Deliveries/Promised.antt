-- ===== src/Rabbit/Deliveries/Promised.antt =====
-- The answers that a provider's delivery is promised, member by member, by what its handler gave.
use griffino_go.Base.{
  String, ◌==◌, Bool, true, false, ◌++◌, Option, none, some, List, [], ◌∷◌, ◌≡◌, refl, Bool-cases,
  inl, inr, if◌then◌else◌,
}
use griffino_go.Base.Maps.{insert}
use griffino_go.Json.{null, bool, str, Object, object}
use griffino_go.Errors.{error_text, Result, ok, err}
use griffino_go.Envelopes.{build_node_result_envelope}
use griffino_go.Codec.{Bytes}
use griffino_go.Context.{HandlerContext}
use griffino_go.Rabbit.Broker.{Publishing}

-- The handler's result, {} for none, or the one error that an invoker gets to see.
abbrev pub promised_reply : Result (Option Object) → Object
promised_reply (ok (some result)) = result
promised_reply (ok none) = []
promised_reply (err e) = ("error", str "provider_execution_failed") ∷ []

-- A message in JSON, with these ids, that survives a restart of the broker.
abbrev pub json_message : (correlation_id message_id : String) → Bytes → Publishing
json_message correlation_id message_id body = record {
  content_type = "application/json";
  correlation_id = correlation_id;
  message_id = message_id;
  reply_to = "";
  expiration = "";
  persistent = true;
  body = body;
}

abbrev pub node_members :
    HandlerContext → (msg_id plugin_id : String) → Bool → (output : Object) → Object
node_members hc msg_id plugin_id done output =
    ("taskId", if hc.task_id == "" then null else str hc.task_id)
    ∷ ("msgId", str msg_id)
    ∷ ("userId", str hc.user_id)
    ∷ ("pluginId", str plugin_id)
    ∷ ("nodeId", str hc.node_id)
    ∷ ("ok", bool done)
    ∷ ("output", object output)
    ∷ []

abbrev pub reason_member : String → Object
reason_member reason = if reason == "" then [] else ("failReason", str reason) ∷ []

-- Done, with the handler's result or {}; or not done, with {} and the text of the error, if it has
-- one.
abbrev pub promised_node_result :
    (sprintf : String → List String → String) (msg_id plugin_id : String)
    → HandlerContext
    → Result (Option Object)
    → Object
promised_node_result sprintf msg_id plugin_id hc (ok none) =
    node_members hc msg_id plugin_id true []
promised_node_result sprintf msg_id plugin_id hc (ok (some result)) =
    node_members hc msg_id plugin_id true result
promised_node_result sprintf msg_id plugin_id hc (err e) =
    node_members hc msg_id plugin_id false [] ++ reason_member (error_text sprintf e)

pub build_node_result_envelope-failed :
    (hc : HandlerContext) (msg_id plugin_id reason : String)
    → build_node_result_envelope hc.task_id msg_id hc.user_id plugin_id hc.node_id false [] reason
      ≡ node_members hc msg_id plugin_id false [] ++ reason_member reason
unfolding build_node_result_envelope insert
build_node_result_envelope-failed hc msg_id plugin_id reason = elim (Bool-cases (reason == "")) [
  | inl e ↦ rw e refl
  | inr e ↦ rw e refl
]
