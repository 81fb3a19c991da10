-- ===== src/Artifacts/Fresh.antt =====
-- WriteArtifacts in a directory that has none of the files yet.
use Prim.Native.Nat.{ℕ}
use mathlib.Core.List.{List, [], ◌∷◌}
use griffino_go.Base.{
  String, Option, none, some, ◌≡◌, ◌≢◌, refl, sym, ◌∙◌, subst, inl, inr, OneOf, false,
}
use griffino_go.Json.{Json, object}
use griffino_go.Errors.{ok}
use griffino_go.Models.{PluginMetadata}
use griffino_go.Declarative.Reflect.{GoType}
use griffino_go.Declarative.Models.{parse_boot_config, parse_user_config}
use griffino_go.Generator.Disk.{IsDisk, lift, missing}
use griffino_go.Generator.Configs.{generate_boot_config, generate_user_config}
use griffino_go.Generator.Files.Contents.{after-eq-ok}
use griffino_go.Generator.Files.Fresh.{
  Ends, Ends-after, Ends-lift, Ends-write_json_file, Ends-write_boot_yaml_file,
  stat-write_json_file, stat-write_boot_yaml_file,
}
use griffino_go.Client.Interface.{Client}
use griffino_go.Artifacts.{
  Tools, write_json, write_boot, write_user, write_artifacts, manifest_file_name,
  boot_config_file_name, user_config_file_name, boot_yaml_file_name,
}
use griffino_go.Artifacts.Written.{AreSeparate, file_names, lift-eq-ok, is_in, not-OneOf}

module _ {S : Type 0} (tools : Tools S) (fuel : ℕ) (dir : String)
    (content : S → String → Option String) (disk : IsDisk tools.os content)
    (separate : AreSeparate tools dir) where
  -- None of the files is there.
  abbrev pub IsFresh : List String → S → Type 0
  IsFresh names s =
      (name : String) → OneOf name names → tools.os.stat s (tools.join_path dir name) ≡ missing

  IsFresh-write_json :
      (name : String) (names : List String) (value : Json) (s u : S)
      → OneOf name file_names
      → ((other : String) → OneOf other names → OneOf other file_names × (name ≢ other))
      → IsFresh (name ∷ names) s
      → write_json tools fuel dir name value s ≡ some (ok tt, u)
      → IsFresh names u
  IsFresh-write_json name names value s u is among fresh e other o =
      let (is', differ) = among other o in
      stat-write_json_file tools.os tools.text (tools.join_path dir name) fuel s
        (fresh name (inl refl)) content disk tools.encode value u (tools.join_path dir other) e
        (λ p. differ (separate name other is is' p))
      ∙ fresh other (inr o)

  Ends-write_json :
      (name : String) (names : List String) (value : Json) (s : S)
      → IsFresh (name ∷ names) s
      → Ends (write_json tools fuel dir name value s)
  Ends-write_json name names value s fresh =
      Ends-write_json_file tools.os tools.text (tools.join_path dir name) fuel s
        (fresh name (inl refl)) tools.encode value

  abbrev after_manifest : List String
  after_manifest = boot_config_file_name ∷ boot_yaml_file_name ∷ user_config_file_name ∷ []

  abbrev user_only : List String
  user_only = user_config_file_name ∷ []

  -- The files that come later are known, and are other ones.
  later :
      (name : String) (names : List String)
      → ((other : String) → OneOf other names → OneOf other file_names)
      → is_in name names ≡ false
      → (other : String) → OneOf other names
      → OneOf other file_names × (name ≢ other)
  later name names among away other o = (
    among other o,
    λ e. not-OneOf name names away (subst (λ (x : String). OneOf x names) (sym e) o),
  )

  IsFresh-write_boot :
      (meta : PluginMetadata) (model : Option GoType) (s u : S)
      → IsFresh after_manifest s
      → write_boot tools fuel dir meta model s ≡ some (ok tt, u)
      → IsFresh user_only u
  unfolding is_in
  IsFresh-write_boot meta none s u fresh e =
      let same : s ≡ u = cc e in subst (IsFresh user_only) same (λ name o. fresh name (inr (inr o)))
  IsFresh-write_boot meta (some t) s u fresh e =
      let (def, parsed, e₁) = lift-eq-ok (parse_boot_config tools.parse_float (some t)) s _ e in
      let config = object (generate_boot_config meta def) in
      let (x, t', first, second) =
        after-eq-ok (write_json tools fuel dir boot_config_file_name config s) _ e₁ in
      let rest =
        IsFresh-write_json boot_config_file_name (boot_yaml_file_name ∷ user_only) config s t'
          (inr (inl refl))
          (later boot_config_file_name (boot_yaml_file_name ∷ user_only) (λ name o. inr (inr o))
            refl)
          fresh first in
      λ name o.
        stat-write_boot_yaml_file tools.os tools.text (tools.join_path dir boot_yaml_file_name) fuel
          t' (rest boot_yaml_file_name (inl refl)) content disk meta def u
          (tools.join_path dir name) second
          (λ p. not-OneOf boot_yaml_file_name user_only refl (
            subst (λ (n : String). OneOf n user_only)
              (sym (separate boot_yaml_file_name name (inr (inr (inl refl))) (inr (inr (inr o))) p))
              o))
        ∙ rest name (inr o)

  Ends-write_boot :
      (meta : PluginMetadata) (model : Option GoType) (s : S)
      → IsFresh after_manifest s
      → Ends (write_boot tools fuel dir meta model s)
  unfolding is_in
  Ends-write_boot meta none s fresh = ((ok tt, s), refl)
  Ends-write_boot meta (some t) s fresh =
      Ends-after (lift (parse_boot_config tools.parse_float (some t)) s) _ (Ends-lift _ s)
        (λ def s' e.
          let same : s ≡ s' = cc e in
          let fresh' = subst (IsFresh after_manifest) same fresh in
          let config = object (generate_boot_config meta def) in
          Ends-after (write_json tools fuel dir boot_config_file_name config s') _
            (Ends-write_json boot_config_file_name (boot_yaml_file_name ∷ user_only) config s'
              fresh')
            (λ u t' first.
              let rest =
                IsFresh-write_json boot_config_file_name (boot_yaml_file_name ∷ user_only) config s'
                  t' (inr (inl refl))
                  (later boot_config_file_name (boot_yaml_file_name ∷ user_only)
                    (λ name o. inr (inr o)) refl)
                  fresh' first in
              Ends-write_boot_yaml_file tools.os tools.text
                (tools.join_path dir boot_yaml_file_name) fuel t'
                (rest boot_yaml_file_name (inl refl)) meta def))

  Ends-write_user :
      (meta : PluginMetadata) (model : Option GoType) (s : S)
      → IsFresh user_only s
      → Ends (write_user tools fuel dir meta model s)
  Ends-write_user meta none s fresh = ((ok tt, s), refl)
  Ends-write_user meta (some t) s fresh =
      Ends-after (lift (parse_user_config tools.parse_float (some t)) s) _ (Ends-lift _ s)
        (λ def s' e.
          let same : s ≡ s' = cc e in
          Ends-write_json user_config_file_name [] (object (generate_user_config meta def)) s'
            (subst (IsFresh user_only) same fresh))

  -- WriteArtifacts into a directory that has none of the four files ends, with success or with an
  -- error, whatever the fuel, since no name for a backup is ever looked for.
  pub write_artifacts-Ends :
      {T : Type 0} (c : Client T) (boot user : Option GoType) (s : S)
      → IsFresh file_names s
      → Ends (write_artifacts tools fuel dir c boot user s)
  unfolding write_artifacts is_in
  write_artifacts-Ends c boot user s fresh =
      Ends-after (write_json tools fuel dir manifest_file_name _ s) _
        (Ends-write_json manifest_file_name after_manifest _ s fresh)
        (λ x t first.
          let rest =
            IsFresh-write_json manifest_file_name after_manifest _ s t (inl refl)
              (later manifest_file_name after_manifest (λ name o. inr o) refl) fresh first in
          Ends-after (write_boot tools fuel dir c.metadata boot t) _
            (Ends-write_boot c.metadata boot t rest)
            (λ y t' second.
              Ends-write_user c.metadata user t'
                (IsFresh-write_boot c.metadata boot t t' rest second)))
