-- ===== src/Generator/Files/Fresh.antt =====
-- Writing a file where there is none: nothing is renamed, so no fuel is needed.
use Prim.Native.Nat.{ℕ}
use mathlib.Core.List.{List}
use griffino_go.Base.{String, Option, none, some, ◌≡◌, ◌≢◌, refl, sym, ◌∙◌, ap, subst}
use griffino_go.Json.{Json}
use griffino_go.Errors.{Error, Result, ok, err}
use griffino_go.Models.{PluginMetadata}
use griffino_go.Declarative.{ConfigModelDefinition}
use griffino_go.Generator.Disk.{Os, IsDisk, Io, after, lift, missing}
use griffino_go.Generator.BootYaml.{generate_boot_yaml_data}
use griffino_go.Generator.Files.{
  backup_existing_file, write_file, write_json_file, write_boot_yaml_file, encoded, asserted,
  service_environment,
}
use griffino_go.Generator.Files.Backup.{or_error-some, or_error-eq-ok}
use griffino_go.Generator.Files.Contents.{after-eq-ok, encoded-eq-ok}

-- The step does not run out of fuel.
abbrev pub Ends : {S A : Type 0} → Option (Result A × S) → Type 0
Ends {S} {A} m = (r : Result A × S) × (m ≡ some r)

pub Ends-after :
    {S A B : Type 0} (first : Option (Result A × S)) (next : A → Io S B)
    → Ends first
    → ((a : A) (t : S) → first ≡ some (ok a, t) → Ends (next a t))
    → Ends (after first next)
Ends-after none next (r, e) h = cc
Ends-after (some (err f, s)) next h h' = ((err f, s), refl)
Ends-after (some (ok a, s)) next h h' = h' a s refl

pub Ends-lift : {S A : Type 0} (r : Result A) (s : S) → Ends (lift r s)
Ends-lift r s = ((r, s), refl)

module _ {S : Type 0} (os : Os S) (text : Error → String) (path : String) (fuel : ℕ) (s : S)
    (free : os.stat s path ≡ missing) where
  backup-free : backup_existing_file os text fuel path s ≡ some (ok tt, s)
  unfolding backup_existing_file
  backup-free = rw free

  Ends-backup : Ends (backup_existing_file os text fuel path s)
  Ends-backup = ((ok tt, s), backup-free)

  module _ (encode : Json → Result String) where
    Ends-encoded : (r : Result String) (t : S) → Ends (encoded os text encode path r t)
    Ends-encoded (ok body) t = ((ok body, t), refl)
    Ends-encoded (err e) t = ((err _, t), refl)

    pub Ends-write_json_file :
        (value : Json) → Ends (write_json_file os text encode fuel path value s)
    unfolding write_json_file write_file
    Ends-write_json_file value =
        Ends-after (backup_existing_file os text fuel path s) _ Ends-backup (λ u t e.
          Ends-after (encoded os text encode path (encode value) t) _
            (Ends-encoded (encode value) t)
            (λ body t' e'. or_error-some (os.write_file path body t') _))

  Ends-asserted : (o : Option (List String)) (t : S) → Ends (asserted os text o t)
  Ends-asserted none t = ((err _, t), refl)
  Ends-asserted (some environment) t = ((ok environment, t), refl)

  same_after :
      (o : Option (List String)) (t u : S) {environment : List String}
      → asserted os text o t ≡ some (ok environment, u)
      → t ≡ u
  same_after none t u e = cc
  same_after (some found) t u e = cc

  pub Ends-write_boot_yaml_file :
      (meta : PluginMetadata) (def : ConfigModelDefinition)
      → Ends (write_boot_yaml_file os text fuel path meta def s)
  unfolding write_boot_yaml_file write_file
  Ends-write_boot_yaml_file meta def =
      Ends-after (lift (generate_boot_yaml_data meta def) s) _ (Ends-lift _ s) (λ yaml t e.
        let same : s ≡ t = cc e in
        Ends-after (backup_existing_file os text fuel path t) _
          (subst (λ (x : S). Ends (backup_existing_file os text fuel path x)) same Ends-backup)
          (λ u t' e'.
            Ends-after (asserted os text (service_environment yaml meta.main_service_id) t') _
              (Ends-asserted _ t')
              (λ environment t'' e''. or_error-some (os.write_file path _ t'') _)))

  -- A file that is written where there was none changes nothing else.
  module _ (content : S → String → Option String) (disk : IsDisk os content)
      (encode : Json → Result String) where
    pub stat-write_json_file :
        (value : Json) (u : S) (at : String)
        → write_json_file os text encode fuel path value s ≡ some (ok tt, u)
        → path ≢ at
        → os.stat u at ≡ os.stat s at
    unfolding write_json_file write_file
    stat-write_json_file value u at e away =
        let (x, t, backed, e₁) = after-eq-ok (backup_existing_file os text fuel path s) _ e in
        let (body, t', shown, e₂) =
          after-eq-ok (encoded os text encode path (encode value) t) _ e₁ in
        let (_, same) = encoded-eq-ok content path os disk text encode (encode value) t t' shown in
        let first : s ≡ t = cc (backup-free, backed) in
        disk.undisturbed path body t' u (or_error-eq-ok (os.write_file path body t') _ e₂) at away
        ∙ ap (λ (y : S). os.stat y at) (sym (first ∙ same))

  module _ (content : S → String → Option String) (disk : IsDisk os content) where
    pub stat-write_boot_yaml_file :
        (meta : PluginMetadata) (def : ConfigModelDefinition) (u : S) (at : String)
        → write_boot_yaml_file os text fuel path meta def s ≡ some (ok tt, u)
        → path ≢ at
        → os.stat u at ≡ os.stat s at
    unfolding write_boot_yaml_file write_file
    stat-write_boot_yaml_file meta def u at e away =
        let (yaml, t, made, e₁) = after-eq-ok (lift (generate_boot_yaml_data meta def) s) _ e in
        let same : s ≡ t = cc made in
        let (x, t', backed, e₂) = after-eq-ok (backup_existing_file os text fuel path t) _ e₁ in
        let backed' : backup_existing_file os text fuel path s ≡ some (ok x, t') =
          ap (λ (y : S). backup_existing_file os text fuel path y) same ∙ backed in
        let (environment, t'', read, e₃) =
          after-eq-ok (asserted os text (service_environment yaml meta.main_service_id) t') _ e₂ in
        let first : s ≡ t' = cc (backup-free, backed') in
        let second = same_after _ t' t'' read in
        disk.undisturbed path _ t'' u (or_error-eq-ok (os.write_file path _ t'') _ e₃) at away
        ∙ ap (λ (y : S). os.stat y at) (sym (first ∙ second))
