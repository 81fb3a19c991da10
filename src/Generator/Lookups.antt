-- ===== src/Generator/Lookups.antt =====
-- What a key finds after the insertions that have a guard.
use mathlib.Core.List.{List, [], ◌∷◌}
use griffino_go.Base.{
  String, ◌==◌, Option, none, some, if◌then◌else◌, ◌≡◌, Bool-cases, inl, inr, arith,
}
use griffino_go.Base.Maps.{lookup, insert, lookup-insert}
use griffino_go.Json.{Json, Object, str}
use griffino_go.Generator.{insert_text, insert_list, insert_some, object_list}

-- `none` for what a guard leaves out
abbrev pub text_or_none : String → Option Json
text_or_none s = if s == "" then none else some (str s)

abbrev pub list_or_none : List Object → Option Json
list_or_none [] = none
list_or_none (v ∷ vs) = some (object_list (v ∷ vs))

abbrev pub or_else : Option Json → Option Json → Option Json
or_else none old = old
or_else (some v) old = some v

module _ (at key : String) (m : Object) where
  pub lookup-insert_text :
      (text : String)
      → lookup key (insert_text at text m)
        ≡ (if at == key then or_else (text_or_none text) (lookup key m) else lookup key m)
  lookup-insert_text text = elim (Bool-cases (text == "")) [
    | inl t ↦ rw t (ground arith)
    | inr f ↦ rw f (lookup-insert at key (str text) m)
  ]

  pub lookup-insert_list :
      (vs : List Object)
      → lookup key (insert_list at vs m)
        ≡ (if at == key then or_else (list_or_none vs) (lookup key m) else lookup key m)
  lookup-insert_list [] = ground arith
  lookup-insert_list (v ∷ vs) = lookup-insert at key (object_list (v ∷ vs)) m

  pub lookup-insert_some :
      (v : Option Json)
      → lookup key (insert_some at v m)
        ≡ (if at == key then or_else v (lookup key m) else lookup key m)
  lookup-insert_some none = ground arith
  lookup-insert_some (some v) = lookup-insert at key v m

pub ruleset entry_laws = (lookup-insert, lookup-insert_text, lookup-insert_list, lookup-insert_some)
