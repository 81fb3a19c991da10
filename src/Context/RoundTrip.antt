-- ===== src/Context/RoundTrip.antt =====
-- What the handler of a receiver sees of a message that the SDK sent.
use griffino_go.Base.Int.{ℤ}
use griffino_go.Base.{
  String, ◌≡◌, ◌≢◌, refl, ◌==◌, false, Option, none, some, test_of_ne, ap, ◌∙◌, Bool-cases, inl,
  inr, eq_of_test,
}
use griffino_go.Base.Maps.{lookup, lookup-insert}
use griffino_go.Json.{Json, str, Object, object_or_null, as_object}
use griffino_go.Json.Wire.{
  SameObject, SameEntry, same_none, reading, missing, text, reading-SameEntry, reading-missing,
  reading-nothing, reading-text, same_members,
}
use griffino_go.Errors.{ok}
use griffino_go.Envelopes.{
  nullable_string, insert_nonempty, build_invoke_envelope, build_dispatch_envelope,
}
use griffino_go.Context.{
  HandlerContext, or_empty, optional_of, optional_string, context_from_message,
}

-- A received task id: null and "" both stand for no task.
optional_of-nullable_string :
    (field s : String) (r : Option Json)
    → reading r ≡ reading (some (nullable_string s))
    → optional_of field r ≡ ok s
optional_of-nullable_string field s r h = elim (Bool-cases (s == "")) [
  | inl e ↦ rw (reading-nothing r (rw e at h)) (rw (eq_of_test s "" e))
  | inr e ↦ rw (reading-text s r (rw e at h))
]

-- The fields that invocations and events share, as a receiver reads them.
pub record IsSent (task_id msg_id user_id plugin_id : String) (env : Object) : Type 0 where
  pub task : reading (lookup "taskId" env) ≡ reading (some (nullable_string task_id))
  pub msg : reading (lookup "msgId" env) ≡ text msg_id
  pub user : reading (lookup "userId" env) ≡ text user_id
  pub plugin : reading (lookup "pluginId" env) ≡ text plugin_id
  pub node : reading (lookup "nodeId" env) ≡ missing
  pub context : reading (lookup "context" env) ≡ missing

abbrev seen : (task_id msg_id user_id plugin_id : String) → Object → HandlerContext
seen task_id msg_id user_id plugin_id payload = record {
  user_id = user_id;
  plugin_id = plugin_id;
  task_id = task_id;
  msg_id = msg_id;
  payload = payload;
  node_id = "";
  node_context = none;
  action_id = "";
}

context_of_IsSent :
    (task_id msg_id user_id plugin_id default : String) (got : Object)
    → plugin_id ≢ ""
    → IsSent task_id msg_id user_id plugin_id got
    → context_from_message got default
      ≡ ok (seen task_id msg_id user_id plugin_id (or_empty (as_object (lookup "payload" got))))
unfolding context_from_message optional_string
context_of_IsSent task_id msg_id user_id plugin_id default got ne h = rw (
  reading-text user_id _ h.user,
  reading-text plugin_id _ h.plugin,
  test_of_ne plugin_id "" ne,
  reading-text msg_id _ h.msg,
  optional_of-nullable_string "taskId" task_id _ h.task,
  reading-missing _ h.node,
  reading-missing _ h.context,
)

lookup-insert_nonempty :
    (k field v : String) (env : Object)
    → (field == k) ≡ false
    → lookup k (insert_nonempty field v env) ≡ lookup k env
lookup-insert_nonempty k field v env h = elim (Bool-cases (v == "")) [
  | inl e ↦ rw e refl
  | inr e ↦ rw (e, lookup-insert field k (str v) env, h) refl
]

module _ (task_id msg_id user_id plugin_id slot : String) (payload : Option Object) where
  invoked : Object
  invoked = build_invoke_envelope task_id msg_id user_id plugin_id payload slot

  invoke-IsSent : IsSent task_id msg_id user_id plugin_id invoked
  unfolding invoked build_invoke_envelope lookup
  invoke-IsSent = record {
    task = ap reading (lookup-insert_nonempty "taskId" "slot" slot _ refl);
    msg = ap reading (lookup-insert_nonempty "msgId" "slot" slot _ refl);
    user = ap reading (lookup-insert_nonempty "userId" "slot" slot _ refl);
    plugin = ap reading (lookup-insert_nonempty "pluginId" "slot" slot _ refl);
    node = ap reading (lookup-insert_nonempty "nodeId" "slot" slot _ refl);
    context = ap reading (lookup-insert_nonempty "context" "slot" slot _ refl);
  }

  invoke-payload : lookup "payload" invoked ≡ some (object_or_null payload)
  unfolding invoked build_invoke_envelope lookup
  invoke-payload = lookup-insert_nonempty "payload" "slot" slot _ refl

module _ (task_id msg_id user_id plugin_id event : String) (payload : Option Object) where
  dispatched : Object
  dispatched = build_dispatch_envelope task_id msg_id user_id plugin_id event payload

  dispatch-IsSent : IsSent task_id msg_id user_id plugin_id dispatched
  unfolding dispatched build_dispatch_envelope lookup
  dispatch-IsSent = record {
    task = refl;
    msg = refl;
    user = refl;
    plugin = refl;
    node = refl;
    context = refl;
  }

  dispatch-payload : lookup "payload" dispatched ≡ some (object_or_null payload)
  unfolding dispatched build_dispatch_envelope lookup
  dispatch-payload = refl

module _ (int_text : ℤ → String) (float_text : String → String) where
  -- Both sides of the wire read the same.
  IsSent-received :
      (task_id msg_id user_id plugin_id : String) (sent got : Object)
      → SameObject int_text float_text sent got
      → IsSent task_id msg_id user_id plugin_id sent
      → IsSent task_id msg_id user_id plugin_id got
  IsSent-received task_id msg_id user_id plugin_id sent got w h = record {
    task = reading-SameEntry int_text float_text (w "taskId") ∙ h.task;
    msg = reading-SameEntry int_text float_text (w "msgId") ∙ h.msg;
    user = reading-SameEntry int_text float_text (w "userId") ∙ h.user;
    plugin = reading-SameEntry int_text float_text (w "pluginId") ∙ h.plugin;
    node = reading-SameEntry int_text float_text (w "nodeId") ∙ h.node;
    context = reading-SameEntry int_text float_text (w "context") ∙ h.context;
  }

  payload-received :
      (payload : Option Object) (sent r : Option Json)
      → SameEntry int_text float_text sent r
      → sent ≡ some (object_or_null payload)
      → SameObject int_text float_text (or_empty payload) (or_empty (as_object r))
  unfolding lookup
  payload-received none sent r w e =
      rw (reading-nothing r (reading-SameEntry int_text float_text w ∙ ap reading e))
        (λ k. same_none)
  payload-received (some ms) sent r w e =
      let (ms', found, same) = same_members int_text float_text ms w e in rw found same

  -- What a context says of a message that was sent with these fields.
  pub record IsSeen (task_id msg_id user_id plugin_id : String) (payload : Option Object)
      (hc : HandlerContext) : Type 0 where
    pub task_id_kept : hc.task_id ≡ task_id
    pub msg_id_kept : hc.msg_id ≡ msg_id
    pub user_id_kept : hc.user_id ≡ user_id
    pub plugin_id_kept : hc.plugin_id ≡ plugin_id
    pub payload_kept : SameObject int_text float_text (or_empty payload) hc.payload
    pub no_node : hc.node_id ≡ ""
    pub no_context : hc.node_context ≡ none
    pub no_action : hc.action_id ≡ ""

  received :
      (task_id msg_id user_id plugin_id default : String) (payload : Option Object)
      (sent got : Object)
      → plugin_id ≢ ""
      → SameObject int_text float_text sent got
      → IsSent task_id msg_id user_id plugin_id sent
      → lookup "payload" sent ≡ some (object_or_null payload)
      → (hc : HandlerContext) × (context_from_message got default ≡ ok hc)
        × IsSeen task_id msg_id user_id plugin_id payload hc
  received task_id msg_id user_id plugin_id default payload sent got ne w h e = (
    seen task_id msg_id user_id plugin_id (or_empty (as_object (lookup "payload" got))),
    context_of_IsSent task_id msg_id user_id plugin_id default got ne
        (IsSent-received task_id msg_id user_id plugin_id sent got w h),
    record {
      task_id_kept = refl;
      msg_id_kept = refl;
      user_id_kept = refl;
      plugin_id_kept = refl;
      payload_kept = payload-received payload (lookup "payload" sent) _ (w "payload") e;
      no_node = refl;
      no_context = refl;
      no_action = refl;
    },
  )

  -- An invocation that reaches a provider with a plugin id that is not empty, whatever became of
  -- the order of its keys, and with each number printed and read back in the one way of
  -- encoding/json, is accepted: the handler sees the sender's task id, message id, user id and
  -- plugin id, the payload as it came over the wire member by member, numbers included, and neither
  -- a node nor an action.
  pub context-invoke_envelope :
      (task_id msg_id user_id plugin_id slot default : String) (payload : Option Object)
      (got : Object)
      → plugin_id ≢ ""
      → SameObject int_text float_text
          (build_invoke_envelope task_id msg_id user_id plugin_id payload slot)
          got
      → (hc : HandlerContext) × (context_from_message got default ≡ ok hc)
        × IsSeen task_id msg_id user_id plugin_id payload hc
  unfolding invoked
  context-invoke_envelope task_id msg_id user_id plugin_id slot default payload got ne w =
      received task_id msg_id user_id plugin_id default payload _ got ne w
        (invoke-IsSent task_id msg_id user_id plugin_id slot payload)
        (invoke-payload task_id msg_id user_id plugin_id slot payload)

  -- An event that reaches a consumer with a plugin id that is not empty is accepted, and the handler
  -- sees the sender's ids and its payload member by member.
  pub context-dispatch_envelope :
      (task_id msg_id user_id plugin_id event default : String) (payload : Option Object)
      (got : Object)
      → plugin_id ≢ ""
      → SameObject int_text float_text
          (build_dispatch_envelope task_id msg_id user_id plugin_id event payload)
          got
      → (hc : HandlerContext) × (context_from_message got default ≡ ok hc)
        × IsSeen task_id msg_id user_id plugin_id payload hc
  unfolding dispatched
  context-dispatch_envelope task_id msg_id user_id plugin_id event default payload got ne w =
      received task_id msg_id user_id plugin_id default payload _ got ne w
        (dispatch-IsSent task_id msg_id user_id plugin_id event payload)
        (dispatch-payload task_id msg_id user_id plugin_id event payload)
