-- ===== src/Context/Fields.antt =====
-- The fields of a message as contextFromMessage reads them, one at a time.
use griffino_go.Base.{
  String, ◌≡◌, ◌≢◌, ◌⊎◌, inl, inr, refl, arith, Option, none, some, [], eq_iff, test_of_ne,
}
use griffino_go.Base.Maps.{lookup}
use griffino_go.Json.{
  Json, null, bool, int, float, str, arr, obj, Object, members, as_string, as_object,
}
use griffino_go.Errors.{Error, ok, transport_error}
use griffino_go.Errors.Succeeds.{Succeeds}
use griffino_go.Context.{or_fail, plugin_id_or, nonempty_plugin_id, optional_of, node_context_of}

-- A field that has to be a string.
abbrev pub IsText : Option Json → Type 0
IsText (some (str s)) = Unit
IsText _ = ⊥

-- A field that may be missing or null, and is else a string.
abbrev pub IsOptionalText : Option Json → Type 0
IsOptionalText none = Unit
IsOptionalText (some null) = Unit
IsOptionalText (some (str s)) = Unit
IsOptionalText _ = ⊥

abbrev pub IsOptionalObject : Option Json → Type 0
IsOptionalObject none = Unit
IsOptionalObject (some null) = Unit
IsOptionalObject (some (obj ms)) = Unit
IsOptionalObject _ = ⊥

-- The plugin id, or the default for a missing one, is a text that is not empty.
abbrev pub HasPluginId : String → Option Json → Type 0
HasPluginId default none = default ≢ ""
HasPluginId default (some (str s)) = s ≢ ""
HasPluginId default _ = ⊥

pub record IsAcceptable (default : String) (msg : Object) : Type 0 where
  pub user : IsText (lookup "userId" msg)
  pub plugin : HasPluginId default (lookup "pluginId" msg)
  pub msg_id : IsText (lookup "msgId" msg)
  pub task : IsOptionalText (lookup "taskId" msg)
  pub node : IsOptionalText (lookup "nodeId" msg)
  pub context : IsOptionalObject (lookup "context" msg)

pub text_of : (v : Option Json) (e : Error) → IsText v → Succeeds (or_fail (as_string v) e)
text_of (some (str s)) e h = (s, refl)
text_of (some null) e h = absurd h
text_of (some (bool b)) e h = absurd h
text_of (some (int n)) e h = absurd h
text_of (some (float n)) e h = absurd h
text_of (some (arr n)) e h = absurd h
text_of (some (obj n)) e h = absurd h
text_of none e h = absurd h

pub IsText-of :
    (v : Option Json) (e : Error) {s : String} → or_fail (as_string v) e ≡ ok s → v ≡ some (str s)
IsText-of (some (str s)) e h = cc
IsText-of _ e h = cc

pub optional_of-IsOptionalText :
    (field : String) (v : Option Json) → IsOptionalText v → Succeeds (optional_of field v)
optional_of-IsOptionalText field none h = ("", refl)
optional_of-IsOptionalText field (some null) h = ("", refl)
optional_of-IsOptionalText field (some (str s)) h = (s, refl)
optional_of-IsOptionalText field _ h = absurd h

-- What an accepted optional field says.
abbrev pub Reads : Option Json → String → Type 0
Reads v s = (v ≡ some (str s)) ⊎ ((s ≡ "") × (as_string v ≡ none) × IsOptionalText v)

pub optional_of-eq-ok :
    (field : String) (v : Option Json) {s : String}
    → optional_of field v ≡ ok s
    → Reads v s × IsOptionalText v
optional_of-eq-ok field none h = (inr (cc, refl, tt), tt)
optional_of-eq-ok field (some null) h = (inr (cc, refl, tt), tt)
optional_of-eq-ok field (some (str s)) h = (inl (cc), tt)
optional_of-eq-ok field _ h = cc

pub plugin_id_of_HasPluginId :
    (default : String) (v : Option Json)
    → HasPluginId default v
    → (g : String) × (plugin_id_or v default ≡ ok g) × (s : String) × (nonempty_plugin_id g ≡ ok s)
plugin_id_of_HasPluginId default none h = (default, refl, default, rw (test_of_ne default "" h))
plugin_id_of_HasPluginId default (some (str s)) h = (s, refl, s, rw (test_of_ne s "" h))
plugin_id_of_HasPluginId default _ h = absurd h

-- Where the plugin id of a context comes from.
abbrev pub NamesPlugin : String → Option Json → String → Type 0
NamesPlugin default v s = (s ≢ "") × ((v ≡ some (str s)) ⊎ ((v ≡ none) × (s ≡ default)))

pub plugin_id_or-eq-ok :
    (default : String) (v : Option Json) {g s : String}
    → plugin_id_or v default ≡ ok g
    → nonempty_plugin_id g ≡ ok s
    → HasPluginId default v × NamesPlugin default v s
plugin_id_or-eq-ok default none {g} h k = ground (arith, eq_iff g "")
plugin_id_or-eq-ok default (some (str t)) {g} h k = ground (arith, eq_iff g "")
plugin_id_or-eq-ok default _ h k = cc

pub node_context_of-IsOptionalObject :
    (v : Option Json) → IsOptionalObject v → Succeeds (node_context_of v)
node_context_of-IsOptionalObject none h = (none, refl)
node_context_of-IsOptionalObject (some null) h = (none, refl)
node_context_of-IsOptionalObject (some (obj ms)) h = (some (members ms), refl)
node_context_of-IsOptionalObject _ h = absurd h

pub node_context_of-eq-ok :
    (v : Option Json) {c : Option Object}
    → node_context_of v ≡ ok c
    → IsOptionalObject v × (c ≡ as_object v)
node_context_of-eq-ok none h = (tt, cc)
node_context_of-eq-ok (some null) h = (tt, cc)
node_context_of-eq-ok (some (obj ms)) h = (tt, cc)
node_context_of-eq-ok _ h = cc

abbrev pub no_user_id : Error
no_user_id = transport_error none "message field userId must be a string" []

abbrev pub no_msg_id : Error
no_msg_id = transport_error none "message field msgId must be a string" []
