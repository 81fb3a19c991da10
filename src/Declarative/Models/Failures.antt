-- ===== src/Declarative/Models/Failures.antt =====
-- What kind the errors of the parser of configuration models have.
use mathlib.Core.List.{[], ◌∷◌}
use griffino_go.Base.{String, ◌==◌, Bool, true, false, Option, none, some, List}
use griffino_go.Base.Int.{ℤ}
use griffino_go.Base.Number.{parse_bool}
use griffino_go.Base.Maps.{Map, lookup}
use griffino_go.Base.Text.{split}
use griffino_go.Strings.{trim_space, cut}
use griffino_go.Json.{Object}
use griffino_go.Errors.{Result, configuration}
use griffino_go.Errors.Classified.{
  Classified, Classified-ok, Classified-bind, Classified-if, Classified-config_error,
}
use griffino_go.Declarative.{ConfigFieldType, ConfigKind, ConfigField}
use griffino_go.Declarative.Reflect.{StructField, GoType, pointer_to, struct_of, other}
use griffino_go.Declarative.Tags.{
  parse_tag_attrs, add_attr, add_pair, add_pairs, comma, resolve_field_type, resolved, or_no_type,
  inferred_type, is_field_type, parse_validation, add_items, add_item, add_bound, put_bound,
  bound_key,
}
use griffino_go.Declarative.Fields.{
  required, optional_attr, optional_or, convert_default, default_attr, validation_attr, int_default,
  float_default, boolean_default, parse_field_tag,
}
use griffino_go.Declarative.Models.{
  parse_config_model, parse_struct, parse_fields, parse_tagged, pointed_to, struct_tag_name,
}

add_attr-Classified :
    (pair : String) (attrs : Map String) (parts : Option (String × String))
    → Classified configuration (add_attr pair attrs parts)
add_attr-Classified pair attrs none = Classified-config_error _ _
add_attr-Classified pair attrs (some (key, value)) =
    Classified-if (trim_space key == "") _ _ (Classified-config_error _ _) (Classified-ok _)

add_pairs-Classified :
    (pairs : List String) (attrs : Map String) → Classified configuration (add_pairs pairs attrs)
unfolding add_pairs
add_pairs-Classified [] attrs = Classified-ok attrs
add_pairs-Classified (pair ∷ pairs) attrs =
    Classified-bind (add_pair (trim_space pair) attrs) _
      (Classified-if (trim_space pair == "") _ _ (Classified-ok attrs)
        (add_attr-Classified (trim_space pair) attrs (cut b'=' (trim_space pair))))
      (λ more. add_pairs-Classified pairs more)

parse_tag_attrs-Classified : (tag : String) → Classified configuration (parse_tag_attrs tag)
unfolding parse_tag_attrs
parse_tag_attrs-Classified tag = add_pairs-Classified (split comma tag) []

or_no_type-Classified :
    (sf : StructField) (o : Option ConfigFieldType) → Classified configuration (or_no_type sf o)
or_no_type-Classified sf none = Classified-config_error _ _
or_no_type-Classified sf (some t) = Classified-ok t

resolved-Classified :
    (sf : StructField) (attr : Option String) → Classified configuration (resolved sf attr)
resolved-Classified sf none = or_no_type-Classified sf (inferred_type sf.kind)
resolved-Classified sf (some raw) =
    Classified-if (is_field_type (trim_space raw)) _ _ (Classified-ok _)
      (Classified-config_error _ _)

resolve_field_type-Classified :
    (sf : StructField) (attrs : Map String) → Classified configuration (resolve_field_type sf attrs)
unfolding resolve_field_type
resolve_field_type-Classified sf attrs = resolved-Classified sf (lookup "type" attrs)

required-Classified :
    (sf : StructField) (allow_empty : Bool) (message : String) (attr : Option String)
    → Classified configuration (required sf allow_empty message attr)
required-Classified sf true message none = Classified-config_error _ _
required-Classified sf false message none = Classified-config_error _ _
required-Classified sf true message (some value) = Classified-ok value
required-Classified sf false message (some value) =
    Classified-if (value == "") _ _ (Classified-config_error _ _) (Classified-ok value)

optional_or-Classified :
    (sf : StructField) (raw : String) (b : Option Bool)
    → Classified configuration (optional_or sf raw b)
optional_or-Classified sf raw none = Classified-config_error _ _
optional_or-Classified sf raw (some b) = Classified-ok b

optional_attr-Classified :
    (sf : StructField) (attr : Option String) → Classified configuration (optional_attr sf attr)
optional_attr-Classified sf none = Classified-ok false
optional_attr-Classified sf (some raw) = optional_or-Classified sf raw (parse_bool (trim_space raw))

module _ (sf : StructField) (raw : String) where
  int_default-Classified : (n : Option ℤ) → Classified configuration (int_default sf raw n)
  int_default-Classified none = Classified-config_error _ _
  int_default-Classified (some n) = Classified-ok _

  float_default-Classified : (f : Option String) → Classified configuration (float_default sf raw f)
  float_default-Classified none = Classified-config_error _ _
  float_default-Classified (some f) = Classified-ok _

  boolean_default-Classified :
      (b : Option Bool) → Classified configuration (boolean_default sf raw b)
  boolean_default-Classified none = Classified-config_error _ _
  boolean_default-Classified (some b) = Classified-ok _

module _ (parse_float : String → Option String) where
  put_bound-Classified :
      (field_name key value : String) (m : Object) (bound : Option String)
      → Classified configuration (put_bound parse_float field_name key value m bound)
  put_bound-Classified field_name key value m none = Classified-config_error _ _
  put_bound-Classified field_name key value m (some bound) = Classified-ok _

  add_bound-Classified :
      (field_name item : String) (m : Object) (parts : Option (String × String))
      → Classified configuration (add_bound parse_float field_name item m parts)
  add_bound-Classified field_name item m none = Classified-config_error _ _
  add_bound-Classified field_name item m (some (key, value)) =
      put_bound-Classified field_name (trim_space key) value m (bound_key (trim_space key))

  add_items-Classified :
      (field_name : String) (items : List String) (m : Object)
      → Classified configuration (add_items parse_float field_name items m)
  unfolding add_items
  add_items-Classified field_name [] m = Classified-ok m
  add_items-Classified field_name (item ∷ items) m =
      Classified-bind (add_item parse_float field_name (trim_space item) m) _
        (Classified-if (trim_space item == "") _ _ (Classified-ok m)
          (add_bound-Classified field_name (trim_space item) m (cut b':' (trim_space item))))
        (λ more. add_items-Classified field_name items more)

  validation_attr-Classified :
      (sf : StructField) (attr : Option String)
      → Classified configuration (validation_attr parse_float sf attr)
  unfolding parse_validation
  validation_attr-Classified sf none = Classified-ok none
  validation_attr-Classified sf (some raw) =
      Classified-bind _ _ (add_items-Classified sf.name (split b';' raw) []) (λ m. Classified-ok _)

  convert_default-Classified :
      (sf : StructField) (type : ConfigFieldType) (raw : String)
      → Classified configuration (convert_default parse_float sf type raw)
  unfolding convert_default
  convert_default-Classified sf type raw = search (
    Classified-if, int_default-Classified, float_default-Classified, boolean_default-Classified,
    Classified-ok,
  )

  default_attr-Classified :
      (sf : StructField) (type : ConfigFieldType) (attr : Option String)
      → Classified configuration (default_attr parse_float sf type attr)
  default_attr-Classified sf type none = Classified-ok (false, _)
  default_attr-Classified sf type (some raw) =
      Classified-bind _ _ (convert_default-Classified sf type raw) (λ v. Classified-ok _)

  parse_field_tag-Classified :
      (sf : StructField) (tag : String)
      → Classified configuration (parse_field_tag parse_float sf tag)
  unfolding parse_field_tag
  parse_field_tag-Classified sf tag =
      search
        (
          Classified-ok, Classified-bind, parse_tag_attrs-Classified, required-Classified,
          optional_attr-Classified, resolve_field_type-Classified, validation_attr-Classified,
          default_attr-Classified,
        )
        depth 12

  parse_tagged-Classified :
      (sf : StructField) (tag : Option String) (rest : Result (List ConfigField))
      → Classified configuration rest
      → Classified configuration (parse_tagged parse_float sf tag rest)
  parse_tagged-Classified sf none rest h = h
  parse_tagged-Classified sf (some tag) rest h =
      Classified-bind _ _ (parse_field_tag-Classified sf tag)
        (λ field. Classified-bind _ _ h (λ fields. Classified-ok _))

  parse_fields-Classified :
      (sfs : List StructField) → Classified configuration (parse_fields parse_float sfs)
  unfolding parse_fields
  parse_fields-Classified [] = Classified-ok []
  parse_fields-Classified (sf ∷ sfs) =
      let rest = parse_fields-Classified sfs in
      Classified-if (sf.pkg_path == "") _ _
        (parse_tagged-Classified sf (lookup struct_tag_name sf.tags) _ rest) rest

  parse_struct-Classified :
      (t : GoType) (kind : ConfigKind) → Classified configuration (parse_struct parse_float t kind)
  parse_struct-Classified (struct_of sfs) kind =
      Classified-bind _ _ (parse_fields-Classified sfs) (λ fields. Classified-ok _)
  parse_struct-Classified (pointer_to t) kind = Classified-config_error _ _
  parse_struct-Classified (other k) kind = Classified-config_error _ _

  -- Whatever ParseConfigModel refuses, a nil model included, it refuses with a configuration error.
  pub parse_config_model-Classified :
      (model : Option GoType) (kind : ConfigKind)
      → Classified configuration (parse_config_model parse_float model kind)
  unfolding parse_config_model
  parse_config_model-Classified none kind = Classified-config_error _ _
  parse_config_model-Classified (some t) kind = parse_struct-Classified (pointed_to t) kind
