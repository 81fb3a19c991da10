-- ===== src/Artifacts/Written.antt =====
-- What is on the disk after WriteArtifacts.
use Prim.Native.Nat.{ℕ}
use mathlib.Core.List.{List, [], ◌∷◌}
use griffino_go.Base.{
  String, ◌==◌, Bool, false, ◌||◌, arith, eq_iff, Option, none, some, ◌≡◌, refl, Bool-cases, inl,
  inr, eq_of_test, ne_of_test, OneOf, subst,
}
use griffino_go.Json.{Json, object}
use griffino_go.Errors.{Result, ok, err}
use griffino_go.Models.{PluginMetadata}
use griffino_go.Declarative.{ConfigModelDefinition}
use griffino_go.Declarative.Reflect.{GoType}
use griffino_go.Declarative.Models.{parse_boot_config, parse_user_config}
use griffino_go.Generator.Disk.{IsDisk, Io, after, lift}
use griffino_go.Generator.Manifest.{generate_manifest}
use griffino_go.Generator.Configs.{generate_boot_config, generate_user_config}
use griffino_go.Generator.Files.{backup_path}
use griffino_go.Generator.Files.Contents.{after-eq-ok, IsKept, write_json_file-IsKept}
use griffino_go.Generator.Files.Yaml.{IsBootable, boot_yaml_text, write_boot_yaml_file-IsKept}
use griffino_go.Client.Interface.{Client}
use griffino_go.Artifacts.{
  Tools, write_json, write_boot, write_user, write_artifacts, is_given, manifest_file_name,
  boot_config_file_name, user_config_file_name, boot_yaml_file_name,
}

abbrev pub file_names : List String
file_names =
    manifest_file_name ∷ boot_config_file_name ∷ boot_yaml_file_name ∷ user_config_file_name ∷ []

pub lift-eq-ok :
    {S A B : Type 0} (r : Result A) (s : S) (next : A → Io S B) {b : B} {u : S}
    → after (lift r s) next ≡ some (ok b, u)
    → (a : A) × (r ≡ ok a) × (next a s ≡ some (ok b, u))
lift-eq-ok (ok a) s next e = (a, refl, e)
lift-eq-ok (err f) s next e = cc

unfoldable pub is_in : String → List String → Bool
is_in name [] = false
is_in name (n ∷ names) = name == n || is_in name names

pub not-OneOf :
    (name : String) (names : List String) → is_in name names ≡ false → OneOf name names → ⊥
unfolding is_in
not-OneOf name [] h o = o
not-OneOf name (n ∷ names) h (inl e) = ground (arith, eq_iff name n)
not-OneOf name (n ∷ names) h (inr o) =
    let rest = not-OneOf name names in ground (arith, rest (ground arith) o)

module _ {S : Type 0} (tools : Tools S) (dir : String) where
  -- The four names stand for four files of the directory.
  abbrev pub AreSeparate : Type 0
  AreSeparate =
      (a b : String)
      → OneOf a file_names
      → OneOf b file_names
      → tools.join_path dir a ≡ tools.join_path dir b
      → a ≡ b

  module _ (content : S → String → Option String) where
    -- A file of the directory holds the encoding of a value.
    abbrev pub Holds : (name : String) → Json → S → Type 0
    Holds name value s =
        (body : String) × (tools.encode value ≡ ok body)
        × (content s (tools.join_path dir name) ≡ some body)

    -- The files that belong to a boot model.
    abbrev pub HasBoot : PluginMetadata → (model : Option GoType) → S → Type 0
    HasBoot meta none s = Unit
    HasBoot meta (some t) s =
        (def : ConfigModelDefinition) × (parse_boot_config tools.parse_float (some t) ≡ ok def)
        × IsBootable meta def
        × Holds boot_config_file_name (object (generate_boot_config meta def)) s
        × (content s (tools.join_path dir boot_yaml_file_name) ≡ some (boot_yaml_text meta def))

    -- The file that belongs to a user model.
    abbrev pub HasUser : PluginMetadata → (model : Option GoType) → S → Type 0
    HasUser meta none s = Unit
    HasUser meta (some t) s =
        (def : ConfigModelDefinition) × (parse_user_config tools.parse_float (some t) ≡ ok def)
        × Holds user_config_file_name (object (generate_user_config meta def)) s

    -- What was in any file is still in some file.
    abbrev pub Survives : S → S → Type 0
    Survives s u =
        (at body : String) → content s at ≡ some body → (at' : String) × (content u at' ≡ some body)

    Survives-IsKept : (path : String) (s u : S) → IsKept content path s u → Survives s u
    Survives-IsKept path s u k at body held = elim (Bool-cases (at == path)) [
      | inl t ↦
          let same = eq_of_test at path t in
          let (index, there) =
            k.moved body (subst (λ (p : String). content s p ≡ some body) same held) in
          (backup_path path index, there)
      | inr f ↦ (at, k.others at body (ne_of_test at path f) held)
    ]

    Survives-trans : (s t u : S) → Survives s t → Survives t u → Survives s u
    Survives-trans s t u first second at body held =
        let (there, held') = first at body held in second there body held'

    -- Files other than the ones with the given names keep what they hold.
    abbrev Leaves : List String → S → S → Type 0
    Leaves names s u =
        (name body : String)
        → OneOf name file_names
        → (OneOf name names → ⊥)
        → content s (tools.join_path dir name) ≡ some body
        → content u (tools.join_path dir name) ≡ some body

    Holds-Leaves :
        (names : List String) (name : String) (value : Json) (s u : S)
        → Leaves names s u
        → OneOf name file_names
        → is_in name names ≡ false
        → Holds name value s
        → Holds name value u
    Holds-Leaves names name value s u leaves is away (body, shown, held) =
        (body, shown, leaves name body is (not-OneOf name names away) held)

    module _ (fuel : ℕ) (disk : IsDisk tools.os content) (separate : AreSeparate) where
      Leaves-IsKept :
          (name : String) (s u : S)
          → OneOf name file_names
          → IsKept content (tools.join_path dir name) s u
          → Leaves (name ∷ []) s u
      Leaves-IsKept name s u is k at body is' away held =
          k.others (tools.join_path dir at) body (λ e. away (inl (separate at name is' is e))) held

      write_json-Holds :
          (name : String) (value : Json) (s u : S)
          → OneOf name file_names
          → write_json tools fuel dir name value s ≡ some (ok tt, u)
          → Holds name value u × Leaves (name ∷ []) s u × Survives s u
      write_json-Holds name value s u is e =
          let (body, shown, there, kept) =
            write_json_file-IsKept content (tools.join_path dir name) tools.os disk tools.text
              tools.encode fuel value s u e in
          (
            (body, shown, there),
            Leaves-IsKept name s u is kept,
            Survives-IsKept (tools.join_path dir name) s u kept,
          )

      write_boot-HasBoot :
          (meta : PluginMetadata) (model : Option GoType) (s u : S)
          → write_boot tools fuel dir meta model s ≡ some (ok tt, u)
          → HasBoot meta model u
            × Leaves (boot_config_file_name ∷ boot_yaml_file_name ∷ []) s u
            × Survives s u
      unfolding is_in
      write_boot-HasBoot meta none s u e =
          let same : s ≡ u = cc e in
          (
            tt,
            subst (Leaves (boot_config_file_name ∷ boot_yaml_file_name ∷ []) s) same
                (λ name body is away held. held),
            subst (Survives s) same (λ at body held. (at, held)),
          )
      write_boot-HasBoot meta (some t) s u e =
          let (def, parsed, e₁) = lift-eq-ok (parse_boot_config tools.parse_float (some t)) s _ e in
          let config = object (generate_boot_config meta def) in
          let (x, t', first, e₂) =
            after-eq-ok (write_json tools fuel dir boot_config_file_name config s) _ e₁ in
          let (held, leaves, lives) =
            write_json-Holds boot_config_file_name config s t' (inr (inl refl)) first in
          let (bootable, yaml, kept) =
            write_boot_yaml_file-IsKept (tools.join_path dir boot_yaml_file_name) tools.os
              tools.text content disk fuel meta def t' u e₂ in
          let leaves' = Leaves-IsKept boot_yaml_file_name t' u (inr (inr (inl refl))) kept in
          (
            (
              def,
              parsed,
              bootable,
              Holds-Leaves (boot_yaml_file_name ∷ []) boot_config_file_name config t' u leaves'
                  (inr (inl refl)) refl held,
              yaml,
            ),
            λ name body is away there.
                leaves' name body is (λ o. away (inr o))
                  (leaves name body is
                    (λ o. elim o [ inl e ↦ away (inl e) | inr nowhere ↦ nowhere ]) there),
            Survives-trans s t' u lives
                (Survives-IsKept (tools.join_path dir boot_yaml_file_name) t' u kept),
          )

      write_user-HasUser :
          (meta : PluginMetadata) (model : Option GoType) (s u : S)
          → write_user tools fuel dir meta model s ≡ some (ok tt, u)
          → HasUser meta model u × Leaves (user_config_file_name ∷ []) s u × Survives s u
      write_user-HasUser meta none s u e =
          let same : s ≡ u = cc e in
          (
            tt,
            subst (Leaves (user_config_file_name ∷ []) s) same (λ name body is away held. held),
            subst (Survives s) same (λ at body held. (at, held)),
          )
      write_user-HasUser meta (some t) s u e =
          let (def, parsed, e₁) = lift-eq-ok (parse_user_config tools.parse_float (some t)) s _ e in
          let (held, leaves, lives) =
            write_json-Holds user_config_file_name (object (generate_user_config meta def)) s u
              (inr (inr (inr (inl refl)))) e₁ in
          ((def, parsed, held), leaves, lives)

      HasBoot-Leaves :
          (meta : PluginMetadata) (model : Option GoType) (s u : S)
          → Leaves (user_config_file_name ∷ []) s u
          → HasBoot meta model s
          → HasBoot meta model u
      unfolding is_in
      HasBoot-Leaves meta none s u leaves h = tt
      HasBoot-Leaves meta (some t) s u leaves (def, parsed, bootable, held, yaml) = (
        def,
        parsed,
        bootable,
        Holds-Leaves (user_config_file_name ∷ []) boot_config_file_name _ s u leaves
            (inr (inl refl)) refl held,
        leaves boot_yaml_file_name _ (inr (inr (inl refl)))
            (not-OneOf boot_yaml_file_name (user_config_file_name ∷ []) refl) yaml,
      )

      -- After a WriteArtifacts that succeeded, into four separate files of the directory, the
      -- manifest holds the generated data; with a boot model, which then has a definition, a main
      -- service id is set, config.boot.json holds the generated data and plugin.boot.yml the lines
      -- for it; with a user model config.user.json holds the generated data; and what any file held
      -- before is still in some file.
      pub write_artifacts-Holds :
          {T : Type 0} (c : Client T) (boot user : Option GoType) (s u : S)
          → write_artifacts tools fuel dir c boot user s ≡ some (ok tt, u)
          → Holds manifest_file_name
              (object (
                generate_manifest c.metadata c.providers c.consumer_capabilities c.actions
                  (is_given boot)
                  (is_given user)))
              u
            × HasBoot c.metadata boot u
            × HasUser c.metadata user u
            × Survives s u
      unfolding write_artifacts is_in
      write_artifacts-Holds c boot user s u e =
          let manifest = object (
            generate_manifest c.metadata c.providers c.consumer_capabilities c.actions
              (is_given boot) (is_given user)) in
          let (x, t, first, e₁) =
            after-eq-ok (write_json tools fuel dir manifest_file_name manifest s) _ e in
          let (y, t', second, third) =
            after-eq-ok (write_boot tools fuel dir c.metadata boot t) _ e₁ in
          let (held, _, lives) =
            write_json-Holds manifest_file_name manifest s t (inl refl) first in
          let (boots, leaves, lives') = write_boot-HasBoot c.metadata boot t t' second in
          let (users, leaves', lives'') = write_user-HasUser c.metadata user t' u third in
          (
            Holds-Leaves (user_config_file_name ∷ []) manifest_file_name manifest t' u leaves'
                (inl refl) refl
                (Holds-Leaves (boot_config_file_name ∷ boot_yaml_file_name ∷ []) manifest_file_name
                  manifest t t' leaves (inl refl) refl held),
            HasBoot-Leaves c.metadata boot t' u leaves' boots,
            users,
            Survives-trans s t u lives (Survives-trans t t' u lives' lives''),
          )
