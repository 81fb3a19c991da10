-- ===== src/Generator.antt =====
-- generator.go: the platform's files for a plugin, as data in the children Manifest, Configs and
-- BootYaml, and on disk in Files.
pub mod Manifest
pub mod Configs
pub mod BootYaml
pub mod Lookups
pub mod Disk
pub mod Files
use mathlib.Core.List.{List, [], ◌∷◌, map}
use griffino_go.Base.{String, ◌==◌, Bool, Option, none, some, if◌then◌else◌}
use griffino_go.Base.Int.{ℤ}
use griffino_go.Base.Maps.{Map, insert}
use griffino_go.Json.{Json, Object, null, int, str, arr, object, of_items}
use griffino_go.Models.{I18nString, to_manifest}

-- `map[string]string` and `[]string` as JSON
abbrev pub texts : Map String → Json
texts m = object (map (λ (p : String × String). (p.0, str p.1)) m)

abbrev pub text_list : List String → Json
text_list ss = arr (of_items (map str ss))

-- `[]map[string]any`
abbrev pub object_list : List Object → Json
object_list ms = arr (of_items (map object ms))

abbrev pub translated : I18nString → Json
translated s = texts (to_manifest s)

-- `if s != "" { m[key] = s }`
abbrev pub insert_text : (key text : String) → Object → Object
insert_text key text m = if text == "" then m else insert key (str text) m

-- `if len(vs) > 0 { m[key] = vs }`
abbrev pub insert_list : (key : String) → List Object → Object → Object
insert_list key [] m = m
insert_list key (v ∷ vs) m = insert key (object_list (v ∷ vs)) m

-- `if v != nil { m[key] = *v }`
abbrev pub insert_some : (key : String) → Option Json → Object → Object
insert_some key none m = m
insert_some key (some v) m = insert key v m
