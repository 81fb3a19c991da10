-- ===== src/Artifacts.antt =====
-- artifacts.go: all of the files of a plugin. `join_path` is `filepath.Join`; a model is the type of
-- its value, `none` is nil.
pub mod Written
pub mod Fresh
use Prim.Native.Nat.{ℕ}
use griffino_go.Base.{String, Bool, true, false, Option, none, some}
use griffino_go.Json.{Json, object}
use griffino_go.Errors.{Error, Result}
use griffino_go.Models.{PluginMetadata}
use griffino_go.Declarative.Reflect.{GoType}
use griffino_go.Declarative.Models.{parse_boot_config, parse_user_config}
use griffino_go.Generator.Disk.{Os, Io, ◌>>=◌, ◌>>◌, pure, lift}
use griffino_go.Generator.Manifest.{generate_manifest}
use griffino_go.Generator.Configs.{generate_boot_config, generate_user_config}
use griffino_go.Generator.Files.{write_json_file, write_boot_yaml_file}
use griffino_go.Client.Interface.{Client}

abbrev pub manifest_file_name : String
manifest_file_name = "plugin.manifest.json"

abbrev pub boot_config_file_name : String
boot_config_file_name = "config.boot.json"

abbrev pub user_config_file_name : String
user_config_file_name = "config.user.json"

abbrev pub boot_yaml_file_name : String
boot_yaml_file_name = "plugin.boot.yml"

-- `model != nil`
abbrev pub is_given : {A : Type 0} → Option A → Bool
is_given none = false
is_given (some a) = true

-- The packages that the functions call.
pub record Tools (S : Type 0) : Type 0 where
  pub os : Os S
  pub text : Error → String
  pub encode : Json → Result String
  pub parse_float : String → Option String
  pub join_path : (dir name : String) → String

module _ {S : Type 0} (tools : Tools S) (fuel : ℕ) (dir : String) where
  abbrev pub write_json : (name : String) → Json → Io S Unit
  write_json name value =
      write_json_file tools.os tools.text tools.encode fuel (tools.join_path dir name) value

  abbrev pub write_boot : PluginMetadata → (model : Option GoType) → Io S Unit
  write_boot meta none = pure tt
  write_boot meta (some t) = do
    def ← lift (parse_boot_config tools.parse_float (some t))
    write_json boot_config_file_name (object (generate_boot_config meta def))
    write_boot_yaml_file tools.os tools.text fuel (tools.join_path dir boot_yaml_file_name) meta def

  abbrev pub write_user : PluginMetadata → (model : Option GoType) → Io S Unit
  write_user meta none = pure tt
  write_user meta (some t) = do
    def ← lift (parse_user_config tools.parse_float (some t))
    write_json user_config_file_name (object (generate_user_config meta def))

  unfoldable pub write_artifacts :
      {T : Type 0} → Client T → (boot_model user_model : Option GoType) → Io S Unit
  write_artifacts c boot_model user_model = do
    write_json manifest_file_name (
        object (
          generate_manifest c.metadata c.providers c.consumer_capabilities c.actions
            (is_given boot_model) (is_given user_model)))
    write_boot c.metadata boot_model
    write_user c.metadata user_model
