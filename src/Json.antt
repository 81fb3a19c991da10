-- ===== src/Json.antt =====
-- Values of type `any` that go into or come out of package encoding/json. A nil map or slice is
-- `null`, which is what it is on the wire. A float64 is kept as the text of its literal.
pub mod Wire
use griffino_go.Base.{String, Bool, Option, none, some, List, [], ◌∷◌}
use griffino_go.Base.Int.{ℤ}
use griffino_go.Base.Maps.{Map}

mutual
  pub data Json : Type 0 where
    null : Json
    bool : Bool → Json
    int : ℤ → Json
    float : String → Json
    str : String → Json
    arr : Items → Json
    obj : Members → Json

  pub data Items : Type 0 where
    nil : Items
    cons : Json → Items → Items

  pub data Members : Type 0 where
    end : Members
    member : String → Json → Members → Members

-- `map[string]any`
abbrev pub Object : Type 0
Object = Map Json

abbrev pub items : Items → List Json
items nil = []
items (cons v vs) = v ∷ items vs

abbrev pub of_items : List Json → Items
of_items [] = nil
of_items (v ∷ vs) = cons v (of_items vs)

abbrev pub members : Members → Object
members end = []
members (member k v ms) = (k, v) ∷ members ms

abbrev pub of_members : Object → Members
of_members [] = end
of_members ((k, v) ∷ ms) = member k v (of_members ms)

abbrev pub object : Object → Json
object ms = obj (of_members ms)

-- A map that may be nil.
abbrev pub object_or_null : Option Object → Json
object_or_null none = null
object_or_null (some ms) = object ms

-- The type assertions `v.(string)` and `v.(map[string]any)`; a missing key reads as nil.
abbrev pub as_string : Option Json → Option String
as_string (some (str s)) = some s
as_string _ = none

abbrev pub as_object : Option Json → Option Object
as_object (some (obj ms)) = some (members ms)
as_object _ = none
