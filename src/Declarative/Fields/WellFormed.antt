-- ===== src/Declarative/Fields/WellFormed.antt =====
-- What the fields of a parsed configuration struct are like.
use griffino_go.Base.{
  String, ◌==◌, Bool, true, false, Option, none, some, ◌≡◌, ◌≢◌, refl, subst, ne_of_test,
  Bool-cases, inl, inr, OneOf,
}
use griffino_go.Base.Maps.{lookup}
use griffino_go.Json.{Json, Object, null}
use griffino_go.Errors.{ok, >>=-eq-ok, ok-injective}
use griffino_go.Declarative.{ConfigFieldType, ConfigField}
use griffino_go.Declarative.Reflect.{StructField}
use griffino_go.Declarative.Tags.{parse_tag_attrs, resolve_field_type}
use griffino_go.Declarative.Tags.Bounds.{FitsValidation, FitsValidation-parse_validation}
use griffino_go.Declarative.Fields.Types.{
  field_types, FitsDefault, HasType-convert_default, OneOf-resolve_field_type,
}
use griffino_go.Declarative.Fields.{
  required, optional_attr, convert_default, default_attr, validation_attr, parse_field_tag,
}

pub record IsWellFormed (f : ConfigField) : Type 0 where
  pub key : f.key ≢ ""
  pub name : f.name ≢ ""
  pub type : OneOf f.type field_types
  pub default : FitsDefault f.type f.has_default f.default
  pub validation : FitsValidation f.validation

required-ne :
    (sf : StructField) (message : String) (attr : Option String) {v : String}
    → required sf false message attr ≡ ok v
    → v ≢ ""
required-ne sf message none e = cc
required-ne sf message (some value) {v} e = elim (Bool-cases (value == "")) [
  | inl t ↦ cc (rw t at e)
  | inr f ↦ let same : value ≡ v = cc (rw f at e) in rw (← same) (ne_of_test value "" f)
]

FitsDefault-default_attr :
    (parse_float : String → Option String) (sf : StructField) (type : ConfigFieldType)
    (attr : Option String) {d : Bool × Json}
    → default_attr parse_float sf type attr ≡ ok d
    → FitsDefault type (d.0) (d.1)
FitsDefault-default_attr parse_float sf type none {d} e =
    let same : (false, null) ≡ d = cc e in
    subst (λ (p : Bool × Json). FitsDefault type (p.0) (p.1)) same refl
FitsDefault-default_attr parse_float sf type (some raw) {d} e =
    let (v, converted, e') = >>=-eq-ok (convert_default parse_float sf type raw) _ e in
    let same : (true, v) ≡ d = cc e' in
    subst (λ (p : Bool × Json). FitsDefault type (p.0) (p.1)) same
      (HasType-convert_default sf type raw parse_float converted)

FitsValidation-validation_attr :
    (parse_float : String → Option String) (sf : StructField) (attr : Option String)
    {v : Option Object}
    → validation_attr parse_float sf attr ≡ ok v
    → FitsValidation v
FitsValidation-validation_attr parse_float sf none {v} e =
    let same : none ≡ v = cc e in subst FitsValidation same tt
FitsValidation-validation_attr parse_float sf (some raw) e =
    FitsValidation-parse_validation parse_float sf.name raw e

pub parse_field_tag-IsWellFormed :
    (parse_float : String → Option String) (sf : StructField) (tag : String) {f : ConfigField}
    → parse_field_tag parse_float sf tag ≡ ok f
    → IsWellFormed f
unfolding parse_field_tag
parse_field_tag-IsWellFormed parse_float sf tag {f} h =
    let (attrs, _, h₁) = >>=-eq-ok (parse_tag_attrs tag) _ h in
    let (key, e₂, h₂) = >>=-eq-ok (required sf false _ (lookup "key" attrs)) _ h₁ in
    let (name, e₃, h₃) = >>=-eq-ok (required sf false _ (lookup "name" attrs)) _ h₂ in
    let (description, _, h₄) = >>=-eq-ok (required sf true _ (lookup "description" attrs)) _ h₃ in
    let (optional, _, h₅) = >>=-eq-ok (optional_attr sf (lookup "optional" attrs)) _ h₄ in
    let (type, e₆, h₆) = >>=-eq-ok (resolve_field_type sf attrs) _ h₅ in
    let (bounds, e₇, h₇) =
      >>=-eq-ok (validation_attr parse_float sf (lookup "validation" attrs)) _ h₆ in
    let (def, e₈, h₈) =
      >>=-eq-ok (default_attr parse_float sf type (lookup "default" attrs)) _ h₇ in
    subst IsWellFormed (ok-injective h₈) (record {
      key = required-ne sf _ (lookup "key" attrs) e₂;
      name = required-ne sf _ (lookup "name" attrs) e₃;
      type = OneOf-resolve_field_type sf attrs e₆;
      default = FitsDefault-default_attr parse_float sf type (lookup "default" attrs) e₈;
      validation = FitsValidation-validation_attr parse_float sf (lookup "validation" attrs) e₇;
    })
