-- ===== src/Generator/Configs/Entries.antt =====
-- The entries of a configuration file hold all of the fields.
use mathlib.Core.List.{List, [], ◌∷◌, map}
use mathlib.Core.Option
use griffino_go.Base.{
  String, ◌==◌, Bool, true, false, Option, none, some, ◌≡◌, refl, sym, Bool-cases, inl, inr,
  eq_of_test,
}
use griffino_go.Base.Maps.{lookup}
use griffino_go.Json.{
  Json, Object, null, bool, str, arr, obj, object, items, of_items, members, as_object,
}
use griffino_go.Json.Wire.{members-of_members}
use griffino_go.Declarative.{ConfigField, ConfigOption}
use griffino_go.Generator.Lookups.{text_or_none, list_or_none, or_else, entry_laws}
use griffino_go.Generator.Configs.{build_config_field_entry, option_entry, default_or_none}

abbrev text_of : Option Json → String
text_of (some (str s)) = s
text_of _ = ""

abbrev bool_of : Option Json → Bool
bool_of (some (bool b)) = b
bool_of _ = false

abbrev given : Option Json → Bool
given (some v) = true
given none = false

abbrev or_null : Option Json → Json
or_null (some v) = v
or_null none = null

abbrev option_of : Object → ConfigOption
option_of m = record { value = text_of (lookup "value" m); display = text_of (lookup "display" m) }

abbrev object_of : Json → Object
object_of (obj ms) = members ms
object_of _ = []

abbrev options_of : List Json → List ConfigOption
options_of [] = []
options_of (v ∷ vs) = option_of (object_of v) ∷ options_of vs

abbrev values_of : Option Json → List ConfigOption
values_of (some (arr vs)) = options_of (items vs)
values_of _ = []

-- How the platform's documentation reads an entry.
unfoldable pub read_entry : Object → ConfigField
read_entry m = record {
  key = text_of (lookup "key" m);
  type = text_of (lookup "type" m);
  name = text_of (lookup "name" m);
  description = text_of (lookup "description" m);
  optional = bool_of (lookup "optional" m);
  has_default = given (lookup "default" m);
  default = or_null (lookup "default" m);
  validation = as_object (lookup "validation" m);
  group = text_of (lookup "group" m);
  values = values_of (lookup "values" m);
}

text_of-text_or_none : (s : String) → text_of (or_else (text_or_none s) none) ≡ s
text_of-text_or_none s = elim (Bool-cases (s == "")) [
  | inl t ↦ rw t (sym (eq_of_test s "" t))
  | inr f ↦ rw f
]

as_object-object : (m : Object) → as_object (some (object m)) ≡ some m
as_object-object m = rw (members-of_members m)

as_object-map : (o : Option Object) → as_object (or_else (Option.map object o) none) ≡ o
as_object-map none = refl
as_object-map (some m) = as_object-object m

options_of-option_entry :
    (os : List ConfigOption) → options_of (items (of_items (map object (map option_entry os)))) ≡ os
unfolding lookup
options_of-option_entry [] = refl
options_of-option_entry (o ∷ os) = rw (options_of-option_entry os)

values_of-list_or_none :
    (os : List ConfigOption) → values_of (or_else (list_or_none (map option_entry os)) none) ≡ os
values_of-list_or_none [] = refl
values_of-list_or_none (o ∷ os) = options_of-option_entry (o ∷ os)

given-default : (has : Bool) (v : Json) → given (or_else (default_or_none has v) none) ≡ has
given-default true v = refl
given-default false v = refl

or_null-default :
    (has : Bool) (v : Json)
    → (has ≡ false → v ≡ null)
    → or_null (or_else (default_or_none has v) none) ≡ v
or_null-default true v h = refl
or_null-default false v h = sym (h refl)

module _ (f : ConfigField) where
  abbrev entry_key : String → Option Json
  entry_key key = lookup key (build_config_field_entry f)

  lookup-entry :
      (entry_key "key" ≡ some (str f.key))
      × (entry_key "type" ≡ some (str f.type))
      × (entry_key "name" ≡ some (str f.name))
      × (entry_key "description" ≡ some (str f.description))
      × (entry_key "optional" ≡ some (bool f.optional))
      × (entry_key "default" ≡ or_else (default_or_none f.has_default f.default) none)
      × (entry_key "validation" ≡ or_else (Option.map object f.validation) none)
      × (entry_key "group" ≡ or_else (text_or_none f.group) none)
      × (entry_key "values" ≡ or_else (list_or_none (map option_entry f.values)) none)
  unfolding build_config_field_entry lookup
  lookup-entry = (
    simp entry_laws,
    simp entry_laws,
    simp entry_laws,
    simp entry_laws,
    simp entry_laws,
    simp entry_laws,
    simp entry_laws,
    simp entry_laws,
    simp entry_laws,
  )

  pub read_entry-build_config_field_entry :
      (f.has_default ≡ false → f.default ≡ null) → read_entry (build_config_field_entry f) ≡ f
  unfolding read_entry
  read_entry-build_config_field_entry h =
      let (key, type, name, description, optional, def, validation, group, values) = lookup-entry in
      rw (
        key,
        type,
        name,
        description,
        optional,
        def,
        validation,
        group,
        values,
        given-default f.has_default f.default,
        or_null-default f.has_default f.default h,
        as_object-map f.validation,
        text_of-text_or_none f.group,
        values_of-list_or_none f.values,
      )
