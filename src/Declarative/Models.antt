-- ===== src/Declarative/Models.antt =====
-- declarative_parse.go: a whole configuration model.
pub mod Failures
pub mod Order
use mathlib.Core.List.{[], ◌∷◌}
use griffino_go.Base.{String, ◌==◌, Bool, Option, none, some, List, if◌then◌else◌, ◌≡◌, refl}
use griffino_go.Base.Maps.{lookup}
use griffino_go.Errors.{Result, ok, err, ◌>>=◌, config_error}
use griffino_go.Declarative.{
  ConfigKind, ConfigField, ConfigModelDefinition, config_kind_boot, config_kind_user,
}
use griffino_go.Declarative.Reflect.{
  StructField, GoType, pointer_to, struct_of, other, kind_of, kind_text,
}
use griffino_go.Declarative.Fields.{parse_field_tag}

abbrev pub struct_tag_name : String
struct_tag_name = "griffino"

abbrev pub pointed_to : GoType → GoType
pointed_to (pointer_to t) = pointed_to t
pointed_to (struct_of fields) = struct_of fields
pointed_to (other kind) = other kind

module _ (parse_float : String → Option String) where
  -- one round of the loop, given the rounds that follow
  abbrev pub parse_tagged :
      StructField → Option String → (rest : Result (List ConfigField)) → Result (List ConfigField)
  parse_tagged sf none rest = rest
  parse_tagged sf (some tag) rest = do
    field ← parse_field_tag parse_float sf tag
    fields ← rest
    ok (field ∷ fields)

  unfoldable pub parse_fields : List StructField → Result (List ConfigField)
  parse_fields [] = ok []
  parse_fields (sf ∷ sfs) =
      let rest = parse_fields sfs in
      if sf.pkg_path == "" then parse_tagged sf (lookup struct_tag_name sf.tags) rest else rest

  abbrev pub parse_struct : GoType → ConfigKind → Result ConfigModelDefinition
  parse_struct (struct_of sfs) kind = do
    fields ← parse_fields sfs
    ok (record { kind = kind; fields = fields })
  parse_struct (pointer_to t) kind =
      err (config_error "config model must be a struct or pointer to struct, got %s" ("ptr" ∷ []))
  parse_struct (other k) kind =
      err (
        config_error "config model must be a struct or pointer to struct, got %s"
          (kind_text k ∷ []))

  -- A model is the type of its value; `none` is nil.
  unfoldable pub parse_config_model :
      (model : Option GoType) → ConfigKind → Result ConfigModelDefinition
  unfolding parse_fields
  parse_config_model none kind = err (config_error "config model must not be nil" [])
  parse_config_model (some t) kind = parse_struct (pointed_to t) kind

  unfoldable pub parse_boot_config : (model : Option GoType) → Result ConfigModelDefinition
  unfolding parse_config_model
  parse_boot_config model = parse_config_model model config_kind_boot

  unfoldable pub parse_user_config : (model : Option GoType) → Result ConfigModelDefinition
  unfolding parse_config_model
  parse_user_config model = parse_config_model model config_kind_user
