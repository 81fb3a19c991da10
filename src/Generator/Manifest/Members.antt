-- ===== src/Generator/Manifest/Members.antt =====
-- The members of a manifest.
use mathlib.Core.Option
use mathlib.Core.List.{List, [], ◌∷◌, ◌++◌, map}
use griffino_go.Base.{
  Bool, true, false, Option, none, some, ◌≡◌, ◌≢◌, ◌⊎◌, inl, inr, refl, ap, ◌∙◌, ◌==◌, test_of_ne,
  Bool-cases,
}
use griffino_go.Base.Text.{◌<>◌}
use griffino_go.Base.Maps.{lookup}
use griffino_go.Json.{Json, Object, bool, int, str, object}
use griffino_go.Models.{
  ProviderRegistration, ConsumerCapabilityRegistration, ActionRegistration, PluginMetadata,
}
use griffino_go.Models.{to_manifest}
use griffino_go.Generator.{object_list, translated}
use griffino_go.Generator.Lookups.{text_or_none, list_or_none, or_else, entry_laws}
use griffino_go.Generator.Manifest.{
  generate_manifest, provider_capability, consumer_capability, provider_name, action_entry,
  permission_entry, languages_entry, configuration_files, files_or_none, slots_to_manifest,
}

-- What is said of a provider.
pub record IsProvider (meta : PluginMetadata) (p : ProviderRegistration) (m : Object) : Type 0 where
  pub id : lookup "id" m ≡ some (str p.capability_id)
  pub role : lookup "role" m ≡ some (str "provider")
  pub type : lookup "type" m ≡ some (str p.capability_type)
  pub name : (p.name.default ≢ "") ⊎ (p.name.key ≢ "") → lookup "name" m ≡ some (translated p.name)
  pub id_as_name :
      p.name.default ≡ ""
      → p.name.key ≡ ""
      → lookup "name" m ≡ some (object (("default", str p.capability_id) ∷ []))
  pub entry_point :
      lookup "entryPoint" m
      ≡ some (
          object (
            ("type", str "rabbitmq_topic")
            ∷ (
              "details",
              object (
                  (
                    "requestTopicPattern",
                    str ("invoke." <> meta.id <> "." <> p.capability_id <> ".v1"),
                  )
                  ∷ []),
            )
            ∷ []))
  pub slots : lookup "slots" m ≡ or_else (list_or_none (slots_to_manifest p.slots)) none
  pub timeout : lookup "defaultTimeoutMilliseconds" m ≡ or_else (Option.map int p.timeout_ms) none

provider_name_given :
    (p : ProviderRegistration)
    → (p.name.default ≢ "") ⊎ (p.name.key ≢ "")
    → provider_name p ≡ p.name
provider_name_given p (inl given) = rw (test_of_ne p.name.default "" given) refl
provider_name_given p (inr given) =
    rw (test_of_ne p.name.key "" given)
      (elim (Bool-cases (p.name.default == "")) [ inl e ↦ rw e refl | inr e ↦ rw e refl ])

provider_name_else :
    (p : ProviderRegistration)
    → p.name.default ≡ ""
    → p.name.key ≡ ""
    → provider_name p ≡ record { default = p.capability_id; key = "" }
provider_name_else p no_default no_key = rw (no_default, no_key) refl

provider_capability-name :
    (meta : PluginMetadata) (p : ProviderRegistration)
    → lookup "name" (provider_capability meta p) ≡ some (translated (provider_name p))
unfolding provider_capability lookup
provider_capability-name meta p = simp entry_laws

provider_capability-IsProvider :
    (meta : PluginMetadata) (p : ProviderRegistration)
    → IsProvider meta p (provider_capability meta p)
unfolding provider_capability lookup to_manifest
provider_capability-IsProvider meta p = record {
  id = simp entry_laws;
  role = simp entry_laws;
  type = simp entry_laws;
  name = λ given.
      provider_capability-name meta p ∙ ap (λ n. some (translated n)) (provider_name_given p given);
  id_as_name = λ no_default no_key.
      provider_capability-name meta p
      ∙ ap (λ n. some (translated n)) (provider_name_else p no_default no_key);
  entry_point = simp entry_laws;
  slots = simp entry_laws;
  timeout = simp entry_laws;
}

abbrev pub All2 : {A B : Type 0} → (A → B → Type 0) → List A → List B → Type 0
All2 P [] [] = Unit
All2 P (x ∷ xs) (y ∷ ys) = P x y × All2 P xs ys
All2 P _ _ = ⊥

All_of :
    {A B : Type 0} (P : A → B → Type 0) (f : A → B)
    → ((x : A) → P x (f x))
    → (xs : List A) → All2 P xs (map f xs)
All_of P f h [] = tt
All_of P f h (x ∷ xs) = (h x, All_of P f h xs)

-- What is said of a consumer.
pub record IsConsumer (c : ConsumerCapabilityRegistration) (m : Object) : Type 0 where
  pub id : lookup "id" m ≡ some (str c.capability_id)
  pub role : lookup "role" m ≡ some (str "consumer")
  pub type : lookup "type" m ≡ some (str c.capability_type)
  pub consumes : lookup "consumesCapabilityType" m ≡ some (str c.capability_type)
  pub optional : lookup "optional" m ≡ some (bool c.optional)

consumer_capability-IsConsumer :
    (c : ConsumerCapabilityRegistration) → IsConsumer c (consumer_capability c)
unfolding consumer_capability lookup
consumer_capability-IsConsumer c = record {
  id = simp entry_laws;
  role = simp entry_laws;
  type = simp entry_laws;
  consumes = simp entry_laws;
  optional = simp entry_laws;
}

-- The member `configurationFiles`, with a model for the boot, for the user, for both or for none.
abbrev pub promised_files : (boot user : Bool) → Option Json
promised_files false false = none
promised_files false true = some (object (("userConfig", str "config.user.json") ∷ []))
promised_files true false =
    some (
      object (("bootConfig", str "config.boot.json") ∷ ("runtimeBoot", str "plugin.boot.yml") ∷ []))
promised_files true true = some (
    object (
      ("bootConfig", str "config.boot.json")
      ∷ ("runtimeBoot", str "plugin.boot.yml")
      ∷ ("userConfig", str "config.user.json")
      ∷ []))

files_or_none-promised_files :
    (boot user : Bool)
    → or_else (files_or_none (configuration_files boot user)) none ≡ promised_files boot user
files_or_none-promised_files false false = refl
files_or_none-promised_files false true = refl
files_or_none-promised_files true false = refl
files_or_none-promised_files true true = refl

-- What is said of the plugin: each member with a guard is there exactly if it is not empty.
pub record IsManifest (meta : PluginMetadata) (providers : List ProviderRegistration)
    (consumers : List ConsumerCapabilityRegistration) (regs : List ActionRegistration)
    (boot user : Bool) (m : Object) : Type 0 where
  pub id : lookup "id" m ≡ some (str meta.id)
  pub version : lookup "pluginVersion" m ≡ some (str meta.version)
  pub name : lookup "name" m ≡ some (translated meta.name)
  pub capabilities :
      lookup "capabilities" m
      ≡ some (
          object_list
            (map (provider_capability meta) providers ++ map consumer_capability consumers))
  pub actions : lookup "actions" m ≡ or_else (list_or_none (map action_entry regs)) none
  pub site : lookup "site" m ≡ some (str meta.site)
  pub schema : lookup "$schema" m ≡ or_else (text_or_none meta.manifest_schema) none
  pub author : lookup "author" m ≡ or_else (text_or_none meta.author) none
  pub tutorial : lookup "tutorial" m ≡ or_else (text_or_none meta.tutorial) none
  pub permissions :
      lookup "permissionsRequested" m
      ≡ or_else (list_or_none (map permission_entry meta.permissions_requested)) none
  pub languages :
      lookup "internationalization" m
      ≡ or_else (Option.map languages_entry meta.internationalization) none
  pub files : lookup "configurationFiles" m ≡ promised_files boot user
  pub each : All2 (IsProvider meta) providers (map (provider_capability meta) providers)
  pub each_consumer : All2 IsConsumer consumers (map consumer_capability consumers)

generate_manifest-files :
    (meta : PluginMetadata) (providers : List ProviderRegistration)
    (consumers : List ConsumerCapabilityRegistration) (actions : List ActionRegistration)
    (boot user : Bool)
    → lookup "configurationFiles" (generate_manifest meta providers consumers actions boot user)
      ≡ or_else (files_or_none (configuration_files boot user)) none
unfolding generate_manifest lookup
generate_manifest-files meta providers consumers actions boot user = simp entry_laws

-- The manifest has the id, the version, the name and the site of the metadata; the capabilities are
-- the providers and then the consumers in the order of registration, and each provider's has its
-- id, its role, its type, its name, or its id where the name has neither a text nor a key, the
-- topic invoke.<plugin id>.<capability id>.v1, its slots and its timeout; each consumer's has its
-- id, its role, its type and whether it is optional; each other member is there exactly if it is
-- not empty, and the configuration files are the three, two, one or none that belong to the models
-- that were given.
pub generate_manifest-IsManifest :
    (meta : PluginMetadata) (providers : List ProviderRegistration)
    (consumers : List ConsumerCapabilityRegistration) (actions : List ActionRegistration)
    (boot user : Bool)
    → IsManifest meta providers consumers actions boot user
        (generate_manifest meta providers consumers actions boot user)
unfolding generate_manifest lookup
generate_manifest-IsManifest meta providers consumers actions boot user = record {
  id = simp entry_laws;
  version = simp entry_laws;
  name = simp entry_laws;
  capabilities = simp entry_laws;
  actions = simp entry_laws;
  site = simp entry_laws;
  schema = simp entry_laws;
  author = simp entry_laws;
  tutorial = simp entry_laws;
  permissions = simp entry_laws;
  languages = simp entry_laws;
  files =
      generate_manifest-files meta providers consumers actions boot user
      ∙ files_or_none-promised_files boot user;
  each_consumer = All_of IsConsumer consumer_capability consumer_capability-IsConsumer consumers;
  each =
      All_of (IsProvider meta) (provider_capability meta) (provider_capability-IsProvider meta)
        providers;
}
