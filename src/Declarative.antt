-- ===== src/Declarative.antt =====
-- declarative.go: the types of a configuration model.
pub mod Reflect
pub mod Tags
pub mod Fields
pub mod Models
use griffino_go.Base.{String, Bool, Option, List}
use griffino_go.Json.{Json, Object}

abbrev pub ConfigFieldType : Type 0
ConfigFieldType = String

abbrev pub config_type_string : ConfigFieldType
config_type_string = "string"

abbrev pub config_type_int : ConfigFieldType
config_type_int = "int"

abbrev pub config_type_float : ConfigFieldType
config_type_float = "float"

abbrev pub config_type_boolean : ConfigFieldType
config_type_boolean = "boolean"

abbrev pub config_type_password : ConfigFieldType
config_type_password = "password"

abbrev pub config_type_options : ConfigFieldType
config_type_options = "options"

abbrev pub config_type_multiline_string : ConfigFieldType
config_type_multiline_string = "multiline_string"

abbrev pub ConfigKind : Type 0
ConfigKind = String

abbrev pub config_kind_boot : ConfigKind
config_kind_boot = "boot"

abbrev pub config_kind_user : ConfigKind
config_kind_user = "user"

pub record ConfigOption : Type 0 where
  pub value : String
  pub display : String

-- `validation` is a map that may be nil; the default of a field without one is nil, which is
-- `null`.
pub record ConfigField : Type 0 where
  pub key : String
  pub type : ConfigFieldType
  pub name : String
  pub description : String
  pub optional : Bool
  pub has_default : Bool
  pub default : Json
  pub validation : Option Object
  pub group : String
  pub values : List ConfigOption

pub record ConfigModelDefinition : Type 0 where
  pub kind : ConfigKind
  pub fields : List ConfigField
