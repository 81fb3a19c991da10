-- ===== src/Context/Validation.antt =====
-- Which messages contextFromMessage accepts, and what it reads from them.
use griffino_go.Base.{String, ◌≡◌, ◌↔◌, refl, Option, some, subst}
use griffino_go.Base.Maps.{lookup}
use griffino_go.Json.{str, Object, as_string, as_object}
use griffino_go.Errors.{ok, >>=-eq-ok}
use griffino_go.Errors.Succeeds.{Succeeds}
use griffino_go.Context.{
  HandlerContext, or_empty, or_fail, plugin_id_or, nonempty_plugin_id, optional_of, optional_string,
  node_context_of, context_from_message,
}
use griffino_go.Context.Fields.{
  Reads, NamesPlugin, IsAcceptable, no_user_id, no_msg_id, text_of, IsText-of,
  optional_of-IsOptionalText, optional_of-eq-ok, plugin_id_of_HasPluginId, plugin_id_or-eq-ok,
  node_context_of-IsOptionalObject, node_context_of-eq-ok,
}

-- What the fields of a context say about the message.
pub record IsReadFrom (default : String) (msg : Object) (hc : HandlerContext) : Type 0 where
  pub user_id : lookup "userId" msg ≡ some (str hc.user_id)
  pub plugin_id : NamesPlugin default (lookup "pluginId" msg) hc.plugin_id
  pub msg_id : lookup "msgId" msg ≡ some (str hc.msg_id)
  pub task_id : Reads (lookup "taskId" msg) hc.task_id
  pub node_id : Reads (lookup "nodeId" msg) hc.node_id
  pub node_context : hc.node_context ≡ as_object (lookup "context" msg)
  pub payload : hc.payload ≡ or_empty (as_object (lookup "payload" msg))
  pub action_id : hc.action_id ≡ ""

abbrev context_of : (user id msg_id task node : String) → Option Object → Object → HandlerContext
context_of user id msg_id task node context msg = record {
  user_id = user;
  plugin_id = id;
  task_id = task;
  msg_id = msg_id;
  payload = or_empty (as_object (lookup "payload" msg));
  node_id = node;
  node_context = context;
  action_id = "";
}

-- The steps of contextFromMessage that succeeded, put together.
module _ (default : String) (msg : Object) {user given id msg_id task node : String}
    {context : Option Object} (e₁ : or_fail (as_string (lookup "userId" msg)) no_user_id ≡ ok user)
    (e₂ : plugin_id_or (lookup "pluginId" msg) default ≡ ok given)
    (e₃ : nonempty_plugin_id given ≡ ok id)
    (e₄ : or_fail (as_string (lookup "msgId" msg)) no_msg_id ≡ ok msg_id)
    (e₅ : optional_of "taskId" (lookup "taskId" msg) ≡ ok task)
    (e₆ : optional_of "nodeId" (lookup "nodeId" msg) ≡ ok node)
    (e₇ : node_context_of (lookup "context" msg) ≡ ok context) where
  accepted_steps : IsAcceptable default msg
  accepted_steps = record {
    user = rw (IsText-of (lookup "userId" msg) no_user_id e₁) tt;
    plugin = (plugin_id_or-eq-ok default (lookup "pluginId" msg) e₂ e₃).0;
    msg_id = rw (IsText-of (lookup "msgId" msg) no_msg_id e₄) tt;
    task = (optional_of-eq-ok "taskId" (lookup "taskId" msg) e₅).1;
    node = (optional_of-eq-ok "nodeId" (lookup "nodeId" msg) e₆).1;
    context = (node_context_of-eq-ok (lookup "context" msg) e₇).0;
  }

  read_steps : IsReadFrom default msg (context_of user id msg_id task node context msg)
  read_steps = record {
    user_id = IsText-of (lookup "userId" msg) no_user_id e₁;
    plugin_id = (plugin_id_or-eq-ok default (lookup "pluginId" msg) e₂ e₃).1;
    msg_id = IsText-of (lookup "msgId" msg) no_msg_id e₄;
    task_id = (optional_of-eq-ok "taskId" (lookup "taskId" msg) e₅).0;
    node_id = (optional_of-eq-ok "nodeId" (lookup "nodeId" msg) e₆).0;
    node_context = (node_context_of-eq-ok (lookup "context" msg) e₇).1;
    payload = refl;
    action_id = refl;
  }

ok-injective {ℓ} : {A : Type ℓ} {a b : A} → ok a ≡ ok b → a ≡ b
ok-injective h = cc

context_from_message-inv :
    (default : String) (msg : Object) {hc : HandlerContext}
    → context_from_message msg default ≡ ok hc
    → IsAcceptable default msg × IsReadFrom default msg hc
unfolding context_from_message optional_string
context_from_message-inv default msg h =
    let (user, e₁, h₁) = >>=-eq-ok (or_fail (as_string (lookup "userId" msg)) no_user_id) _ h in
    let (given, e₂, h₂) = >>=-eq-ok (plugin_id_or (lookup "pluginId" msg) default) _ h₁ in
    let (id, e₃, h₃) = >>=-eq-ok (nonempty_plugin_id given) _ h₂ in
    let (msg_id, e₄, h₄) = >>=-eq-ok (or_fail (as_string (lookup "msgId" msg)) no_msg_id) _ h₃ in
    let (task, e₅, h₅) = >>=-eq-ok (optional_of "taskId" (lookup "taskId" msg)) _ h₄ in
    let (node, e₆, h₆) = >>=-eq-ok (optional_of "nodeId" (lookup "nodeId" msg)) _ h₅ in
    let (context, e₇, h₇) = >>=-eq-ok (node_context_of (lookup "context" msg)) _ h₆ in
    (
      accepted_steps default msg e₁ e₂ e₃ e₄ e₅ e₆ e₇,
      subst (IsReadFrom default msg) (ok-injective h₇)
          (read_steps default msg e₁ e₂ e₃ e₄ e₅ e₆ e₇),
    )

-- A handler context is built exactly for the messages whose user id and message id are strings,
-- whose plugin id, or the default in its place, is a string that is not empty, whose task id and
-- node id are missing, null or strings, and whose context is missing, null or an object.
pub context_from_message_iff :
    (default : String) (msg : Object)
    → Succeeds (context_from_message msg default) ↔ IsAcceptable default msg
unfolding context_from_message optional_string
context_from_message_iff default msg = (
  λ s. (context_from_message-inv default msg s.1).0,
  λ a.
      let (user, e₁) = text_of (lookup "userId" msg) no_user_id a.user in
      let (given, e₂, id, e₃) = plugin_id_of_HasPluginId default (lookup "pluginId" msg) a.plugin in
      let (msg_id, e₄) = text_of (lookup "msgId" msg) no_msg_id a.msg_id in
      let (task, e₅) = optional_of-IsOptionalText "taskId" (lookup "taskId" msg) a.task in
      let (node, e₆) = optional_of-IsOptionalText "nodeId" (lookup "nodeId" msg) a.node in
      let (context, e₇) = node_context_of-IsOptionalObject (lookup "context" msg) a.context in
      (context_of user id msg_id task node context msg, rw (e₁, e₂, e₃, e₄, e₅, e₆, e₇)),
)

-- The fields of a context that was built are those of the message, with the default for a missing
-- plugin id, an empty text for what may be missing, an empty payload in place of one that is no
-- object, and no action id.
context_from_message-IsReadFrom :
    (default : String) (msg : Object) (hc : HandlerContext)
    → context_from_message msg default ≡ ok hc
    → IsReadFrom default msg hc
context_from_message-IsReadFrom default msg hc h = (context_from_message-inv default msg h).1
