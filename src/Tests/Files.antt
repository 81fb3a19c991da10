-- ===== src/Tests/Files.antt =====
-- Files, on a disk that is a map from names to texts.
use mathlib.Core.List.{List, [], ◌∷◌}
use text.Mathlib.TextLemmas.{append_cancel_left}
use griffino_go.Base.{
  ℕ, String, true, false, Option, none, some, ◌≡◌, refl, arith, ◌++◌, test_of_ne,
}
use griffino_go.Base.Maps.{Map, lookup, insert, delete, map_laws, lookup-insert}
use griffino_go.Base.Text.{◌<>◌}
use griffino_go.Json.{Json, null, object}
use griffino_go.Errors.{Error, foreign, Result, ok, err}
use griffino_go.Generator.Disk.{Os, IsDisk, Stat, found, missing}
use griffino_go.Base.Number.{itoa}
use griffino_go.Generator.Files.{backup_existing_file, backup_path, write_json_file}
use griffino_go.Generator.Files.Backup.{backup_existing_file-ends}
use griffino_go.Generator.Files.Contents.{IsKept, write_json_file-IsKept}
use griffino_go.Artifacts.{Tools}
use griffino_go.Client.Interface.{Client, zero_metadata}
use griffino_go.Lifecycle.{new_lifecycle}
use griffino_go.Generator.Files.{write_file, write_boot_yaml_file, service_environment}
use griffino_go.Generator.BootYaml.{generate_boot_yaml_data}
use griffino_go.Generator.Manifest.{generate_manifest}
use griffino_go.Base.Number.{atoi, parse_bool}
use griffino_go.Base.Text.{split}
use griffino_go.Strings.{is_space, trim_left, trim_right, trim_space, cut}
use griffino_go.Declarative.Tags.{parse_tag_attrs, resolve_field_type, parse_validation, bound_key}
use griffino_go.Declarative.Fields.{parse_field_tag, convert_default}
use griffino_go.Declarative.Models.{parse_boot_config, parse_config_model, parse_fields}
use griffino_go.Artifacts.{write_artifacts}
use griffino_go.Artifacts.Written.{
  AreSeparate, file_names, Holds, HasBoot, HasUser, Survives, write_artifacts-Holds,
}
use griffino_go.Artifacts.Fresh.{IsFresh, write_artifacts-Ends}
use griffino_go.Generator.Files.Fresh.{Ends}
use griffino_go.Generator.BootYaml.{build_boot_yaml_environment, system_environment_variables}
use griffino_go.Generator.BootYaml.Environment.{Keeps, build_boot_yaml_environment_lem}
use griffino_go.Generator.Manifest.Members.{IsManifest, generate_manifest-IsManifest}
use griffino_go.Tests.Samples.{echo_action, only_one, port_model, settings, echo_provider}

abbrev Disk : Type 0
Disk = Map String

abbrev stat_of : Option String → Stat
stat_of none = missing
stat_of (some body) = found

abbrev moved : (from to : String) → Disk → Option String → Result (Unit {0}) × Disk
moved from to s none = (err (foreign "no such file"), s)
moved from to s (some body) = (ok tt, insert to body (delete from s))

abbrev content : Disk → String → Option String
content s path = lookup path s

abbrev os : Os Disk
os = record {
  stat = λ s path. stat_of (lookup path s);
  rename = λ from to s. moved from to s (lookup from s);
  write_file = λ path body s. (ok tt, insert path body s);
}

stat_of-missing : (o : Option String) → stat_of o ≡ missing → o ≡ none
stat_of-missing none e = refl
stat_of-missing (some body) e = cc

moved-eq-ok :
    (from to : String) (s t : Disk) (held : Option String)
    → moved from to s held ≡ (ok tt, t)
    → (body : String) × (held ≡ some body) × (insert to body (delete from s) ≡ t)
moved-eq-ok from to s t none e = cc
moved-eq-ok from to s t (some body) e = (body, refl, cc e)

os-IsDisk : IsDisk os content
os-IsDisk = record {
  stat_missing = λ s path e. stat_of-missing (lookup path s) e;
  renamed = λ from to s t e path.
      let (body, held, same) = moved-eq-ok from to s t (lookup from s) e in
      rw (← same, held) (simp map_laws);
  written = λ at body s t e path.
      let same : insert at body s ≡ t = cc e in rw (← same) (lookup-insert at path body s);
  undisturbed = λ at body s t e path away.
      let same : insert at body s ≡ t = cc e in
      rw (← same) (rw (lookup-insert at path body s, test_of_ne at path away));
}

abbrev show_json : Json → Result String
show_json v = ok "{}"

abbrev show_error : Error → String
show_error e = "error"

abbrev tools : Tools Disk
tools = record {
  os = os;
  text = show_error;
  encode = show_json;
  parse_float = only_one;
  join_path = λ dir name. dir <> "/" <> name;
}

abbrev taken : Disk
taken = ("m.json", "old") ∷ ("m.json.1", "older") ∷ []

backup_existing_file-ends_example :
    (r : Result (Unit {0}) × Disk) × (backup_existing_file os show_error 2 "m.json" taken ≡ some r)
unfolding lookup backup_path itoa
backup_existing_file-ends_example =
    backup_existing_file-ends os show_error "m.json" 2 1 taken (λ e. cc e) (omega arith)

abbrev saved : Disk
saved = ("m.json.1", "older") ∷ ("m.json.2", "old") ∷ ("m.json", "{}") ∷ []

write_json_file-IsKept_example :
    (body : String) × (show_json null ≡ ok body)
    × (content saved "m.json" ≡ some body)
    × IsKept content "m.json" taken saved
unfolding write_json_file lookup insert delete backup_path itoa
write_json_file-IsKept_example =
    write_json_file-IsKept content "m.json" os os-IsDisk show_error show_json 2 null taken saved
      refl

abbrev files_client : Client ℕ
files_client = record {
  metadata = record zero_metadata { id = "acme.echo"; main_service_id = "main" };
  config = settings;
  transport = 0;
  lifecycle = new_lifecycle;
  providers = echo_provider ∷ [];
  consumers = [];
  consumer_capabilities = [];
  actions = [];
}

tools-AreSeparate : AreSeparate tools "out"
tools-AreSeparate a b ha hb e =
    append_cancel_left "/" a b (append_cancel_left "out" ("/" <> a) ("/" <> b) e)

out-IsFresh : IsFresh tools 0 "out" content os-IsDisk tools-AreSeparate file_names []
unfolding lookup
out-IsFresh name o = refl

write_artifacts-Ends_example :
    Ends (write_artifacts tools 0 "out" files_client (some port_model) none [])
write_artifacts-Ends_example =
    write_artifacts-Ends tools 0 "out" content os-IsDisk tools-AreSeparate files_client
      (some port_model) none [] out-IsFresh

abbrev disk_after : Option (Result (Unit {0}) × Disk) → Disk
disk_after none = []
disk_after (some (r, s)) = s

abbrev written : Disk
unfolding write_artifacts
written = disk_after (write_artifacts tools 0 "out" files_client (some port_model) none [])

write_artifacts-Holds_example :
    Holds tools "out" content "plugin.manifest.json"
      (object (generate_manifest files_client.metadata (echo_provider ∷ []) [] [] true false))
      written
    × HasBoot tools "out" content files_client.metadata (some port_model) written
    × HasUser tools "out" content files_client.metadata none written
    × Survives tools "out" content [] written
unfolding write_artifacts write_json_file write_boot_yaml_file backup_existing_file write_file
    parse_boot_config parse_config_model parse_fields parse_field_tag parse_tag_attrs
    resolve_field_type parse_validation convert_default split trim_space trim_left trim_right
    is_space cut lookup insert atoi parse_bool bound_key generate_boot_yaml_data service_environment
write_artifacts-Holds_example =
    write_artifacts-Holds tools "out" content 0 os-IsDisk tools-AreSeparate files_client
      (some port_model) none [] written refl

abbrev entries : List String
entries = "RABBITMQ_HOST=here" ∷ "PORT" ∷ []

build_boot_yaml_environment_lem_example :
    (plugins : List String) × (build_boot_yaml_environment entries
      ≡ system_environment_variables ++ plugins)
    × Keeps entries plugins
    × (build_boot_yaml_environment (build_boot_yaml_environment entries)
        ≡ build_boot_yaml_environment entries)
build_boot_yaml_environment_lem_example = build_boot_yaml_environment_lem entries

generate_manifest-IsManifest_example :
    IsManifest files_client.metadata (echo_provider ∷ []) [] (echo_action ∷ []) true false (
      generate_manifest files_client.metadata (echo_provider ∷ []) [] (echo_action ∷ []) true false)
generate_manifest-IsManifest_example =
    generate_manifest-IsManifest files_client.metadata (echo_provider ∷ []) [] (echo_action ∷ [])
      true false
