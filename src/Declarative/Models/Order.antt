-- ===== src/Declarative/Models/Order.antt =====
-- Which fields a configuration model has, and in which order.
use mathlib.Core.List.{[], ◌∷◌}
use griffino_go.Base.{
  String, ◌==◌, Option, none, some, List, if◌then◌else◌, ◌≡◌, refl, ◌↔◌, ◌++◌, map, ap, sym, ◌∙◌,
  Bool-cases, Option-cases, inl, inr, All, subst,
}
use griffino_go.Base.Maps.{lookup}
use griffino_go.Errors.{Result, ok, >>=-eq-ok, ok-injective}
use griffino_go.Errors.Succeeds.{in_order, in_order_iff}
use griffino_go.Declarative.{ConfigKind, ConfigField, ConfigModelDefinition}
use griffino_go.Declarative.Reflect.{StructField, GoType, pointer_to, struct_of, other}
use griffino_go.Declarative.Fields.{parse_field_tag}
use griffino_go.Declarative.Fields.WellFormed.{IsWellFormed, parse_field_tag-IsWellFormed}
use griffino_go.Declarative.Models.{
  parse_config_model, parse_struct, parse_fields, pointed_to, struct_tag_name,
}

abbrev with_tag : StructField → Option String → List (StructField × String)
with_tag sf none = []
with_tag sf (some tag) = (sf, tag) ∷ []

-- The fields that count, each with its tag: exported, and tagged with `griffino`.
unfoldable pub declared : List StructField → List (StructField × String)
declared [] = []
declared (sf ∷ sfs) =
    let rest = declared sfs in
    if sf.pkg_path == "" then with_tag sf (lookup struct_tag_name sf.tags) ++ rest else rest

-- A struct with these fields behind any number of pointers, none included.
pub data IsBehind (sfs : List StructField) : GoType → Type 0 where
  here : IsBehind sfs (struct_of sfs)
  behind : {t : GoType} → IsBehind sfs t → IsBehind sfs (pointer_to t)

pointed_to_of_IsBehind :
    (sfs : List StructField) (t : GoType) → IsBehind sfs t → pointed_to t ≡ struct_of sfs
pointed_to_of_IsBehind sfs t here = refl
pointed_to_of_IsBehind sfs t (behind {t = u} h) = pointed_to_of_IsBehind sfs u h

IsBehind-pointed_to :
    (sfs : List StructField) (t : GoType) → pointed_to t ≡ struct_of sfs → IsBehind sfs t
IsBehind-pointed_to sfs (pointer_to t) e = behind (IsBehind-pointed_to sfs t e)
IsBehind-pointed_to sfs (struct_of fields) e =
    let same : fields ≡ sfs = cc e in
    subst (λ (fs : List StructField). IsBehind sfs (struct_of fs)) (sym same) here
IsBehind-pointed_to sfs (other k) e = cc

module _ (parse_float : String → Option String) where
  abbrev pub parsed : StructField × String → Result ConfigField
  parsed (sf, tag) = parse_field_tag parse_float sf tag

  -- The loop with its guards is the parser on every field that counts, up to the first error.
  parse_fields-declared :
      (sfs : List StructField) → parse_fields parse_float sfs ≡ in_order (map parsed (declared sfs))
  unfolding parse_fields declared
  parse_fields-declared [] = refl
  parse_fields-declared (sf ∷ sfs) =
      let ih = parse_fields-declared sfs in
      elim (Bool-cases (sf.pkg_path == "")) [
        | inl exported ↦ elim (Option-cases (lookup struct_tag_name sf.tags)) [
          | inl untagged ↦ rw (exported, untagged) ih
          | inr (tag, found) ↦ rw (exported, found, ih)
        ]
        | inr hidden ↦ rw hidden ih
      ]

  -- What a definition has to do with the model that it was read from.
  pub record IsReadFrom (t : GoType) (kind : ConfigKind) (d : ConfigModelDefinition) : Type 0 where
    pub fields : List StructField
    pub is_struct : IsBehind fields t
    pub in_turn : map parsed (declared fields) ≡ map ok d.fields
    pub same_kind : d.kind ≡ kind

  parse_struct_of_IsReadFrom :
      (t : GoType) (kind : ConfigKind) (d : ConfigModelDefinition)
      → IsReadFrom t kind d
      → parse_struct parse_float (pointed_to t) kind ≡ ok d
  parse_struct_of_IsReadFrom t kind d h =
      let read : parse_fields parse_float h.fields ≡ ok d.fields =
        parse_fields-declared h.fields
        ∙ (in_order_iff (map parsed (declared h.fields)) d.fields).1 h.in_turn in
      rw (pointed_to_of_IsBehind h.fields t h.is_struct, read, ← h.same_kind)

  IsReadFrom-parse_struct :
      (t u : GoType) (kind : ConfigKind) (d : ConfigModelDefinition)
      → pointed_to t ≡ u
      → parse_struct parse_float u kind ≡ ok d
      → IsReadFrom t kind d
  IsReadFrom-parse_struct t (struct_of sfs) kind d is e =
      let (fs, read, e') = >>=-eq-ok (parse_fields parse_float sfs) _ e in
      let turn =
        (in_order_iff (map parsed (declared sfs)) fs).0 (sym (parse_fields-declared sfs) ∙ read) in
      record {
        fields = sfs;
        is_struct = IsBehind-pointed_to sfs t is;
        in_turn = turn ∙ ap (λ (x : ConfigModelDefinition). map ok x.fields) (ok-injective e');
        same_kind = sym (ap (λ (x : ConfigModelDefinition). x.kind) (ok-injective e'));
      }
  IsReadFrom-parse_struct t (pointer_to u) kind d is e = cc
  IsReadFrom-parse_struct t (other k) kind d is e = cc

  -- ParseConfigModel of a model that is not nil gives a definition exactly if the model is a struct
  -- behind any number of pointers, the definition has the given kind, and its fields are what the
  -- tags of the exported fields that have a griffino tag give, all of them in the order of
  -- declaration.
  pub parse_config_model_iff :
      (t : GoType) (kind : ConfigKind) (d : ConfigModelDefinition)
      → (parse_config_model parse_float (some t) kind ≡ ok d) ↔ IsReadFrom t kind d
  unfolding parse_config_model
  parse_config_model_iff t kind d = (
    λ e. IsReadFrom-parse_struct t (pointed_to t) kind d refl e,
    λ h. parse_struct_of_IsReadFrom t kind d h,
  )

  All-IsWellFormed :
      (tagged : List (StructField × String)) (fs : List ConfigField)
      → map parsed tagged ≡ map ok fs
      → All IsWellFormed fs
  All-IsWellFormed tagged [] e = tt
  All-IsWellFormed [] (f ∷ fs) e = cc
  All-IsWellFormed ((sf, tag) ∷ tagged) (f ∷ fs) e =
      (parse_field_tag-IsWellFormed parse_float sf tag (cc e), All-IsWellFormed tagged fs (cc e))

  -- Every field of a parsed model has a key and a name that are not empty, one of the seven types,
  -- a default of that type if it has one (an int64 for int) and null if not, and no validation or
  -- bounds under minimum and maximum only.
  pub parse_config_model-All-IsWellFormed :
      (t : GoType) (kind : ConfigKind) (d : ConfigModelDefinition)
      → parse_config_model parse_float (some t) kind ≡ ok d
      → All IsWellFormed d.fields
  parse_config_model-All-IsWellFormed t kind d e =
      let read = (parse_config_model_iff t kind d).0 e in
      All-IsWellFormed (declared read.fields) d.fields read.in_turn
