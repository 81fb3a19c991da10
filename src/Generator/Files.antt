-- ===== src/Generator/Files.antt =====
-- The functions of generator.go that write files. `text` is the method `Error()` of an error;
-- `encode` is the JSON encoder with an indent of two blanks and without the escapes for HTML, as
-- the text that it leaves in the buffer. The loop of `backupExistingFile` has fuel.
pub mod Backup
pub mod Contents
pub mod Yaml
pub mod Fresh
use Prim.Native.Nat.{ℕ, zero, suc, ◌+◌}
use mathlib.Core.List.{List, [], ◌∷◌, ◌++◌, map}
use griffino_go.Base.{String, ◌==◌, Option, none, some, if◌then◌else◌}
use griffino_go.Base.Int.{pos}
use griffino_go.Base.Number.{itoa}
use griffino_go.Base.Maps.{lookup}
use griffino_go.Base.Text.{◌<>◌}
use griffino_go.Strings.{join}
use griffino_go.Json.{Json, Object, str, object, arr, Items, items, as_string, as_object}
use griffino_go.Errors.{Error, foreign, Result, ok, err, config_error}
use griffino_go.Models.{PluginMetadata}
use griffino_go.Declarative.{ConfigModelDefinition}
use griffino_go.Generator.BootYaml.{generate_boot_yaml_data, build_boot_yaml_environment}
use griffino_go.Generator.Disk.{
  Stat, found, missing, unreadable, Os, Io, ◌>>=◌, ◌>>◌, pure, fail, lift, or_error,
}

unfoldable pub backup_path : (path : String) (index : ℕ) → String
backup_path path index = path <> "." <> itoa (pos index)

abbrev string_of : Option Json → String
string_of (some (str s)) = s
string_of _ = ""

abbrev texts_of : List Json → List String
texts_of [] = []
texts_of (v ∷ vs) = string_of (some v) ∷ texts_of vs

-- `data["services"].(map[string]any)[id].(map[string]any)["environment"].([]string)`; `none` is a
-- type assertion that panics
abbrev list_of : Option Json → Option (List String)
list_of (some (arr vs)) = some (texts_of (items vs))
list_of _ = none

abbrev member_of : (key : String) → Option Object → Option Json
member_of key none = none
member_of key (some m) = lookup key m

unfoldable pub service_environment : Object → (id : String) → Option (List String)
service_environment yaml id =
    list_of
      (member_of "environment" (as_object (member_of id (as_object (lookup "services" yaml)))))

abbrev environment_line : String → String
environment_line key = "      - \"" <> key <> "\""

abbrev quoted : (name value : String) → String
quoted name value = name <> ": \"" <> value <> "\""

unfoldable pub boot_yaml_lines : Object → (id : String) → (environment : List String) → List String
boot_yaml_lines yaml id environment =
    "pluginBootSpecVersion: \"1.0\""
    ∷ quoted "pluginId" (string_of (lookup "pluginId" yaml))
    ∷ quoted "pluginVersion" (string_of (lookup "pluginVersion" yaml))
    ∷ quoted "mainServiceId" (string_of (lookup "mainServiceId" yaml))
    ∷ ""
    ∷ "services:"
    ∷ ("  " <> id <> ":")
    ∷ "    # TODO: choose either build_instructions or image"
    ∷ "    build_instructions:"
    ∷ "      context: \".\""
    ∷ "      dockerfile: \"Dockerfile\""
    ∷ ""
    ∷ "    image: \"\"  # TODO: set your image URI"
    ∷ ""
    ∷ "    environment:"
    ∷ (map environment_line environment
        ++ "    ports: []      # TODO: declare exposed ports"
          ∷ "    volumes: []    # TODO: declare persistent volumes" ∷ ""
          ∷ "  # TODO: add auxiliary services (pre-built images) here" ∷ [])

module _ {S : Type 0} (os : Os S) (text : Error → String) where
  abbrev stat_error : (path : String) → Error → Error
  stat_error path e = config_error "failed to stat %s: %v" (path ∷ text e ∷ [])

  abbrev backup_error : (path : String) → Error → Error
  backup_error path e = config_error "failed to back up %s: %v" (path ∷ text e ∷ [])

  abbrev write_error : (path : String) → Error → Error
  write_error path e = config_error "failed to write %s: %v" (path ∷ text e ∷ [])

  -- the body of the loop, given the rounds that follow
  abbrev backup_round : (path backup : String) → Stat → (rest : Io S Unit) → Io S Unit
  backup_round path backup found rest s = rest s
  backup_round path backup missing rest s = or_error (os.rename path backup s) (backup_error path)
  backup_round path backup (unreadable e) rest s = fail (stat_error backup e) s

  unfoldable pub backup_loop : (fuel index : ℕ) (path : String) → Io S Unit
  backup_loop zero index path s = none
  backup_loop (suc fuel) index path s =
      let rest = λ (s' : S). backup_loop fuel (index + 1) path s' in
      backup_round path (backup_path path index) (os.stat s (backup_path path index)) rest s

  abbrev backup_found : (fuel : ℕ) (path : String) → Stat → Io S Unit
  backup_found fuel path missing s = pure tt s
  backup_found fuel path (unreadable e) s = fail (stat_error path e) s
  backup_found fuel path found s = backup_loop fuel 1 path s

  unfoldable pub backup_existing_file : (fuel : ℕ) (path : String) → Io S Unit
  unfolding backup_loop
  backup_existing_file fuel path s = backup_found fuel path (os.stat s path) s

  unfoldable pub write_file : (path content : String) → Io S Unit
  write_file path content s = or_error (os.write_file path content s) (write_error path)

  module _ (encode : Json → Result String) where
    abbrev pub encoded : (path : String) → Result String → Io S String
    encoded path (ok body) s = pure body s
    encoded path (err e) s =
        fail (config_error "failed to encode JSON for %s: %v" (path ∷ text e ∷ [])) s

    unfoldable pub write_json_file : (fuel : ℕ) (path : String) → Json → Io S Unit
    unfolding backup_existing_file write_file
    write_json_file fuel path value = do
      backup_existing_file fuel path
      body ← encoded path (encode value)
      write_file path body

  -- A type assertion that panics is an error of its own here; none of them does.
  abbrev pub asserted : Option (List String) → Io S (List String)
  asserted (some environment) s = pure environment s
  asserted none s = fail (foreign "interface conversion") s

  unfoldable pub write_boot_yaml_file :
      (fuel : ℕ) (path : String) → PluginMetadata → ConfigModelDefinition → Io S Unit
  unfolding backup_existing_file write_file
  write_boot_yaml_file fuel path meta def = do
    yaml ← lift (generate_boot_yaml_data meta def)
    backup_existing_file fuel path
    environment ← asserted (service_environment yaml meta.main_service_id)
    write_file path (
        join "\n"
          (boot_yaml_lines yaml meta.main_service_id (build_boot_yaml_environment environment))
        <> "\n")
