-- ===== src/Generator/BootYaml/Environment.antt =====
-- The environment of the main service.
use mathlib.Core.List.{List, [], ◌∷◌, ◌++◌, map}
use Prim.Native.Char.{Char, code}
use griffino_go.Base.{
  String, ◌==◌, true, false, ◌≡◌, ◌↔◌, refl, sym, ap, ◌∙◌, Bool-cases, Option-cases, inl, inr, All,
  OneOf, eqb, if◌then◌else◌, arith, eq_of_test, eq_refl,
}
use Prim.Native.String.{[], ◌∷◌}
use griffino_go.Strings.{cut}
use griffino_go.Strings.Split.{Lacks}
use griffino_go.Declarative.{ConfigModelDefinition}
use griffino_go.Generator.BootYaml.{
  system_environment_variables, system_env_keys, env_key, has_key, plugin_entries,
  build_boot_yaml_environment, declared_environment, field_key,
}

-- The names of the platform's variables.
abbrev pub platform_names : List String
platform_names =
    "RABBITMQ_HOST" ∷ "RABBITMQ_PORT" ∷ "RABBITMQ_USER" ∷ "RABBITMQ_PASSWORD" ∷ "REDIS_HOST"
    ∷ "REDIS_PORT" ∷ "REDIS_USER" ∷ "REDIS_PASSWORD" ∷ []

-- An entry that is a name, alone or with '=' and any value behind it.
abbrev pub Names : (name entry : String) → Type 0
Names [] [] = Unit
Names [] (c ∷ entry) = code c ≡ b'='
Names (a ∷ name) [] = ⊥
Names (a ∷ name) (c ∷ entry) = (a ≡ c) × Names name entry

-- An entry that sets one of the platform's variables.
abbrev pub SetsPlatform : String → Type 0
SetsPlatform entry = (name : String) × OneOf name platform_names × Names name entry

-- An entry that the code takes for none of the platform's.
abbrev IsPlugin : String → Type 0
IsPlugin entry = has_key system_env_keys (env_key entry) ≡ false

-- The entries that set none of the platform's variables, all of them and in their order.
pub data Keeps : List String → List String → Type 0 where
  done : Keeps [] []
  kept :
      {entry : String} {from to : List String}
      → (SetsPlatform entry → ⊥)
      → Keeps from to
      → Keeps (entry ∷ from) (entry ∷ to)
  dropped :
      {entry : String} {from to : List String}
      → SetsPlatform entry
      → Keeps from to
      → Keeps (entry ∷ from) to

env_key-cons :
    (c : Char) (entry : String)
    → env_key (c ∷ entry) ≡ (if eqb (code c) b'=' then [] else c ∷ env_key entry)
unfolding env_key cut
env_key-cons c entry = ground (arith, Option-cases (cut b'=' entry))

Names-env_key : (entry : String) → Names (env_key entry) entry
Names-env_key [] = unfold env_key cut in tt
Names-env_key (c ∷ entry) = elim (Bool-cases (eqb (code c) b'=')) [
  | inl e ↦ rw (env_key-cons c entry, e) (ground arith)
  | inr e ↦ rw (env_key-cons c entry, e) (refl, Names-env_key entry)
]

env_key_of_Names : (name entry : String) → Lacks b'=' name → Names name entry → env_key entry ≡ name
env_key_of_Names [] [] l h = unfold env_key cut in refl
env_key_of_Names [] (c ∷ entry) l h = rw (env_key-cons c entry) (ground arith)
env_key_of_Names (a ∷ name) [] l h = absurd h
env_key_of_Names (a ∷ name) (c ∷ entry) (ne, l) (same, h) =
    rw (env_key-cons c entry, env_key_of_Names name entry l h) (ground (arith, same))

OneOf-has_key : (keys : List String) (key : String) → has_key keys key ≡ true → OneOf key keys
OneOf-has_key [] key h = cc
OneOf-has_key (k ∷ keys) key h = elim (Bool-cases (k == key)) [
  | inl e ↦ inl (sym (eq_of_test k key e))
  | inr e ↦ inr (OneOf-has_key keys key (rw e at h))
]

has_key_of_OneOf : (keys : List String) (key : String) → OneOf key keys → has_key keys key ≡ true
has_key_of_OneOf [] key o = absurd o
has_key_of_OneOf (k ∷ keys) key (inl e) = rw (e, eq_refl k) refl
has_key_of_OneOf (k ∷ keys) key (inr o) = rw (has_key_of_OneOf keys key o) (ground arith)

system_env_keys-platform_names : system_env_keys ≡ platform_names
unfolding env_key cut
system_env_keys-platform_names = refl

Lacks-OneOf :
    (names : List String) (name : String)
    → All (Lacks b'=') names
    → OneOf name names
    → Lacks b'=' name
Lacks-OneOf [] name h o = absurd o
Lacks-OneOf (n ∷ names) name (h, hs) (inl e) = rw e h
Lacks-OneOf (n ∷ names) name (h, hs) (inr o) = Lacks-OneOf names name hs o

has_key-platform_names : (key : String) → has_key system_env_keys key ≡ has_key platform_names key
has_key-platform_names key =
    ap (λ (keys : List String). has_key keys key) system_env_keys-platform_names

-- The test of the code tells exactly the entries that set a variable of the platform.
has_key_iff :
    (entry : String) → (has_key system_env_keys (env_key entry) ≡ true) ↔ SetsPlatform entry
has_key_iff entry = (
  λ h. (
    env_key entry,
    OneOf-has_key platform_names (env_key entry) (sym (has_key-platform_names (env_key entry)) ∙ h),
    Names-env_key entry,
  ),
  λ (name, is, names).
      let lacks = Lacks-OneOf platform_names name (omega arith) is in
      has_key-platform_names (env_key entry)
      ∙ (ap (has_key platform_names) (env_key_of_Names name entry lacks names)
          ∙ has_key_of_OneOf platform_names name is),
)

Keeps-plugin_entries : (environment : List String) → Keeps environment (plugin_entries environment)
unfolding plugin_entries
Keeps-plugin_entries [] = done
Keeps-plugin_entries (entry ∷ environment) =
    elim (Bool-cases (has_key system_env_keys (env_key entry))) [
      | inl t ↦ rw t (dropped ((has_key_iff entry).0 t) (Keeps-plugin_entries environment))
      | inr f ↦
          rw f (kept (λ o. cc (f, (has_key_iff entry).1 o)) (Keeps-plugin_entries environment))
    ]

All-plugin_entries : (environment : List String) → All IsPlugin (plugin_entries environment)
unfolding plugin_entries
All-plugin_entries [] = tt
All-plugin_entries (entry ∷ environment) =
    elim (Bool-cases (has_key system_env_keys (env_key entry))) [
      | inl t ↦ rw t (All-plugin_entries environment)
      | inr f ↦ rw f (f, All-plugin_entries environment)
    ]

plugin_entries_of_All :
    (environment : List String)
    → All IsPlugin environment
    → plugin_entries environment ≡ environment
unfolding plugin_entries
plugin_entries_of_All [] h = refl
plugin_entries_of_All (entry ∷ environment) (h, hs) = rw (h, plugin_entries_of_All environment hs)

plugin_entries-append :
    (xs ys : List String) → plugin_entries (xs ++ ys) ≡ plugin_entries xs ++ plugin_entries ys
unfolding plugin_entries
plugin_entries-append [] ys = refl
plugin_entries-append (entry ∷ xs) ys =
    elim (Bool-cases (has_key system_env_keys (env_key entry))) [
      | inl t ↦ rw t (plugin_entries-append xs ys)
      | inr f ↦ rw (f, plugin_entries-append xs ys)
    ]

plugin_entries-system : plugin_entries system_environment_variables ≡ []
unfolding plugin_entries env_key cut
plugin_entries-system = refl

build-append :
    (environment : List String)
    → build_boot_yaml_environment (system_environment_variables ++ environment)
      ≡ build_boot_yaml_environment environment
unfolding build_boot_yaml_environment
build-append environment =
    rw (plugin_entries-append system_environment_variables environment, plugin_entries-system)

-- The environment of the main service is the platform's variables, then exactly those entries that
-- set none of them, a name alone or with '=' and a value, in their order; doing it a second time
-- changes nothing.
pub build_boot_yaml_environment_lem :
    (environment : List String)
    → (plugins : List String) × (build_boot_yaml_environment environment
        ≡ system_environment_variables ++ plugins)
      × Keeps environment plugins
      × (build_boot_yaml_environment (build_boot_yaml_environment environment)
          ≡ build_boot_yaml_environment environment)
unfolding build_boot_yaml_environment
build_boot_yaml_environment_lem environment = (
  plugin_entries environment,
  refl,
  Keeps-plugin_entries environment,
  rw (
    plugin_entries-append system_environment_variables (plugin_entries environment),
    plugin_entries-system,
    plugin_entries_of_All (plugin_entries environment) (All-plugin_entries environment),
  ),
)

-- The platform's variables that `GenerateBootYAMLData` puts first are not doubled in the file.
pub build-declared_environment :
    (def : ConfigModelDefinition)
    → build_boot_yaml_environment (declared_environment def)
      ≡ build_boot_yaml_environment (map field_key def.fields)
build-declared_environment def = build-append (map field_key def.fields)
