-- ===== src/Context/Refusals.antt =====
-- The errors of contextFromMessage.
use griffino_go.Base.{String, ◌≡◌, refl, arith, true, Option, none, some}
use griffino_go.Base.Maps.{lookup}
use griffino_go.Json.{Json, null, str, obj, Object, members, as_string}
use griffino_go.Errors.{Error, transport_error, is, transport}
use griffino_go.Errors.Classified.{Classified, Classified-ok, Classified-err, Classified-bind}
use griffino_go.Context.{
  or_fail, plugin_id_or, nonempty_plugin_id, optional_of, optional_string, node_context_of,
  context_from_message,
}
use griffino_go.Context.Fields.{no_user_id, no_msg_id}

or_fail-Classified :
    (v : Option String) (e : Error) → is e transport ≡ true → Classified transport (or_fail v e)
or_fail-Classified none e h = Classified-err e h
or_fail-Classified (some s) e h = Classified-ok s

plugin_id_or-Classified :
    (v : Option Json) (default : String) → Classified transport (plugin_id_or v default)
unfolding is transport_error
plugin_id_or-Classified none default = Classified-ok default
plugin_id_or-Classified (some (str s)) default = Classified-ok s
plugin_id_or-Classified (some _) default = Classified-err _ refl

nonempty_plugin_id-Classified : (s : String) → Classified transport (nonempty_plugin_id s)
unfolding is transport_error
nonempty_plugin_id-Classified s = record { at = λ e h. ground arith }

optional_of-Classified :
    (field : String) (v : Option Json) → Classified transport (optional_of field v)
unfolding is transport_error
optional_of-Classified field none = Classified-ok ""
optional_of-Classified field (some null) = Classified-ok ""
optional_of-Classified field (some (str s)) = Classified-ok s
optional_of-Classified field (some _) = Classified-err _ refl

node_context_of-Classified : (v : Option Json) → Classified transport (node_context_of v)
unfolding is transport_error
node_context_of-Classified none = Classified-ok none
node_context_of-Classified (some null) = Classified-ok none
node_context_of-Classified (some (obj ms)) = Classified-ok (some (members ms))
node_context_of-Classified (some _) = Classified-err _ refl

-- Every message that contextFromMessage refuses is refused with a transport error.
context_from_message-Classified :
    (default : String) (msg : Object) → Classified transport (context_from_message msg default)
unfolding context_from_message optional_string is transport_error
context_from_message-Classified default msg =
    Classified-bind _ _ (or_fail-Classified (as_string (lookup "userId" msg)) no_user_id refl)
      λ user. Classified-bind _ _ (plugin_id_or-Classified (lookup "pluginId" msg) default) λ given.
        Classified-bind _ _ (nonempty_plugin_id-Classified given) λ id.
          Classified-bind _ _ (or_fail-Classified (as_string (lookup "msgId" msg)) no_msg_id refl)
            λ m. Classified-bind _ _ (optional_of-Classified "taskId" (lookup "taskId" msg)) λ t.
              Classified-bind _ _ (optional_of-Classified "nodeId" (lookup "nodeId" msg)) λ n.
                Classified-bind _ _ (node_context_of-Classified (lookup "context" msg))
                  λ c. Classified-ok _
