-- ===== src/Generator/Files/Yaml.antt =====
-- What `WriteBootYAMLFile` writes.
use Prim.Native.Nat.{ℕ}
use mathlib.Core.List.{List, [], ◌∷◌, map}
use griffino_go.Base.{
  String, ◌==◌, Option, some, ◌≡◌, ◌≢◌, refl, sym, ◌∙◌, Bool-cases, inl, inr, ◌⊎◌, ne_of_test,
  eq_of_test, ap, eq_refl,
}
use griffino_go.Base.Maps.{lookup}
use griffino_go.Base.Text.{◌<>◌}
use griffino_go.Strings.{join}
use griffino_go.Json.{str, items, of_items}
use griffino_go.Errors.{Error, ok, err, config_error}
use griffino_go.Models.{PluginMetadata}
use griffino_go.Declarative.{ConfigModelDefinition, config_kind_boot}
use griffino_go.Generator.Disk.{Os, IsDisk, after, ◌>>◌}
use griffino_go.Generator.BootYaml.{
  generate_boot_yaml_data, boot_yaml_data, build_boot_yaml_environment, declared_environment,
  field_key,
}
use griffino_go.Generator.BootYaml.Environment.{build-declared_environment}
use griffino_go.Generator.Files.{
  backup_existing_file, write_file, write_boot_yaml_file, boot_yaml_lines, service_environment,
  texts_of,
}
use griffino_go.Generator.Files.Contents.{
  after-eq-ok, IsKept, IsKept-backup_existing_file, IsKept-write_file,
}

texts_of-str : (ss : List String) → texts_of (items (of_items (map str ss))) ≡ ss
texts_of-str [] = refl
texts_of-str (s ∷ ss) = rw (texts_of-str ss)

-- The plugin and the definition that the data can be made for.
pub record IsBootable (meta : PluginMetadata) (def : ConfigModelDefinition) : Type 0 where
  pub service : meta.main_service_id ≢ ""
  pub kind : def.kind ≡ config_kind_boot

generate-cases :
    (meta : PluginMetadata) (def : ConfigModelDefinition)
    → (IsBootable meta def × (generate_boot_yaml_data meta def ≡ ok (boot_yaml_data meta def)))
      ⊎ ((e : Error) × (generate_boot_yaml_data meta def ≡ err e))
unfolding generate_boot_yaml_data
generate-cases meta def = elim (Bool-cases (meta.main_service_id == "")) [
  | inl t ↦ inr (config_error "MainServiceID is required to generate plugin.boot.yml" [], rw t)
  | inr f ↦ elim (Bool-cases (def.kind == config_kind_boot)) [
    | inl k ↦ inl (
      record {
        service = ne_of_test meta.main_service_id "" f;
        kind = eq_of_test def.kind config_kind_boot k;
      },
      rw (f, k),
    )
    | inr g ↦ inr (config_error "plugin.boot.yml requires a boot config model" [], rw (f, g))
  ]
]

-- None of the type assertions of `WriteBootYAMLFile` panics.
service_environment-boot_yaml_data :
    (meta : PluginMetadata) (def : ConfigModelDefinition)
    → service_environment (boot_yaml_data meta def) meta.main_service_id
      ≡ some (declared_environment def)
unfolding service_environment lookup
service_environment-boot_yaml_data meta def =
    rw (eq_refl meta.main_service_id, texts_of-str (map field_key def.fields))

abbrev yaml_text : PluginMetadata → ConfigModelDefinition → List String → String
yaml_text meta def environment =
    join "\n" (boot_yaml_lines (boot_yaml_data meta def) meta.main_service_id environment) <> "\n"

-- The lines for the plugin, with the keys of the fields that are none of the platform's variables.
abbrev pub boot_yaml_text : PluginMetadata → ConfigModelDefinition → String
boot_yaml_text meta def =
    yaml_text meta def (build_boot_yaml_environment (map field_key def.fields))

module _ {S : Type 0} (path : String) (os : Os S) (text : Error → String) where
  write_boot_yaml_file_of :
      (fuel : ℕ) (meta : PluginMetadata) (def : ConfigModelDefinition) (s : S)
      → generate_boot_yaml_data meta def ≡ ok (boot_yaml_data meta def)
      → write_boot_yaml_file os text fuel path meta def s
        ≡ (backup_existing_file os text fuel path
              >> write_file os text path (boot_yaml_text meta def))
            s
  unfolding write_boot_yaml_file
  write_boot_yaml_file_of fuel meta def s h =
      let written = λ (environment : List String).
        after (backup_existing_file os text fuel path s)
          (λ u. write_file os text path (yaml_text meta def environment)) in
      simp (h, service_environment-boot_yaml_data meta def)
        (ap written (build-declared_environment def))

  write_boot_yaml_file_err :
      (fuel : ℕ) (meta : PluginMetadata) (def : ConfigModelDefinition) (s : S) {e : Error}
      → generate_boot_yaml_data meta def ≡ err e
      → write_boot_yaml_file os text fuel path meta def s ≡ some (err e, s)
  unfolding write_boot_yaml_file
  write_boot_yaml_file_err fuel meta def s h = rw h

  module _ (content : S → String → Option String) (disk : IsDisk os content) where
    pub write_boot_yaml_file-IsKept :
        (fuel : ℕ) (meta : PluginMetadata) (def : ConfigModelDefinition) (s u : S)
        → write_boot_yaml_file os text fuel path meta def s ≡ some (ok tt, u)
        → IsBootable meta def
          × (content u path ≡ some (boot_yaml_text meta def))
          × IsKept content path s u
    write_boot_yaml_file-IsKept fuel meta def s u e = elim (generate-cases meta def) [
      | inl (bootable, made) ↦
          let e' = sym (write_boot_yaml_file_of fuel meta def s made) ∙ e in
          let (x, t, backed, written) =
            after-eq-ok (backup_existing_file os text fuel path s) _ e' in
          let (kept, there) =
            IsKept-write_file content path os disk text s t u (boot_yaml_text meta def)
              (IsKept-backup_existing_file content path os disk text fuel s backed) written in
          (bootable, there, kept)
      | inr (f, failed) ↦ cc (write_boot_yaml_file_err fuel meta def s failed, e)
    ]
