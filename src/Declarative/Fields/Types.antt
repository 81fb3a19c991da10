-- ===== src/Declarative/Fields/Types.antt =====
-- The types of configuration fields and of their defaults.
use mathlib.Core.List.{[], ◌∷◌}
use griffino_go.Base.{
  String, ◌==◌, Bool, true, false, Option, none, some, List, ◌≡◌, ◌≢◌, refl, subst, arith, eq_iff,
  eq_of_test, ne_of_test, Bool-cases, inl, inr, OneOf,
}
use griffino_go.Base.Int.{ℤ, IsInt64}
use griffino_go.Base.Number.{atoi, parse_bool}
use griffino_go.Base.Number.Decimal.{atoi-IsInt64}
use griffino_go.Base.Maps.{Map, lookup}
use griffino_go.Strings.{trim_space}
use griffino_go.Json.{Json, null, bool, int, float, str}
use griffino_go.Errors.{ok}
use griffino_go.Declarative.{
  ConfigFieldType, config_type_string, config_type_int, config_type_float, config_type_boolean,
  config_type_password, config_type_options, config_type_multiline_string,
}
use griffino_go.Declarative.Reflect.{StructField, Kind}
use griffino_go.Declarative.Tags.{
  resolve_field_type, is_field_type, resolved, or_no_type, inferred_type,
}
use griffino_go.Declarative.Fields.{convert_default, int_default, float_default, boolean_default}

abbrev pub field_types : List ConfigFieldType
field_types =
    config_type_string ∷ config_type_int ∷ config_type_float ∷ config_type_boolean
    ∷ config_type_password ∷ config_type_options ∷ config_type_multiline_string ∷ []

-- A default that a field of the type can have.
pub data HasType : ConfigFieldType → Json → Type 0 where
  an_int : {t : ConfigFieldType} {n : ℤ} → t ≡ config_type_int → IsInt64 n → HasType t (int n)
  a_float : {t : ConfigFieldType} {f : String} → t ≡ config_type_float → HasType t (float f)
  a_boolean : {t : ConfigFieldType} {b : Bool} → t ≡ config_type_boolean → HasType t (bool b)
  a_text :
      {t : ConfigFieldType} {s : String}
      → t ≢ config_type_int
      → t ≢ config_type_float
      → t ≢ config_type_boolean
      → HasType t (str s)

-- The member `Default` next to `HasDefault`.
abbrev pub FitsDefault : ConfigFieldType → (has : Bool) → Json → Type 0
FitsDefault t true v = HasType t v
FitsDefault t false v = v ≡ null

OneOf-is_field_type : (t : ConfigFieldType) → is_field_type t ≡ true → OneOf t field_types
OneOf-is_field_type t h = ground (
  arith,
  eq_iff t config_type_string,
  eq_iff t config_type_int,
  eq_iff t config_type_float,
  eq_iff t config_type_boolean,
  eq_iff t config_type_password,
  eq_iff t config_type_options,
  eq_iff t config_type_multiline_string,
)

known : {t u : ConfigFieldType} → is_field_type u ≡ true → some u ≡ some t → is_field_type t ≡ true
known {t} {u} h e = let same : u ≡ t = cc e in rw (← same) h

is_field_type-inferred_type :
    (k : Kind) {t : ConfigFieldType} → inferred_type k ≡ some t → is_field_type t ≡ true
unfolding inferred_type
is_field_type-inferred_type Kind.string e = known refl e
is_field_type-inferred_type Kind.int e = known refl e
is_field_type-inferred_type Kind.int8 e = known refl e
is_field_type-inferred_type Kind.int16 e = known refl e
is_field_type-inferred_type Kind.int32 e = known refl e
is_field_type-inferred_type Kind.int64 e = known refl e
is_field_type-inferred_type Kind.float32 e = known refl e
is_field_type-inferred_type Kind.float64 e = known refl e
is_field_type-inferred_type Kind.bool e = known refl e
is_field_type-inferred_type _ e = cc

is_field_type-or_no_type :
    (sf : StructField) (o : Option ConfigFieldType) {t : ConfigFieldType}
    → ((u : ConfigFieldType) → o ≡ some u → is_field_type u ≡ true)
    → or_no_type sf o ≡ ok t
    → is_field_type t ≡ true
is_field_type-or_no_type sf none h e = cc
is_field_type-or_no_type sf (some u) {t} h e = known {t = t} {u = u} (h u refl) (cc e)

is_field_type-resolved :
    (sf : StructField) (attr : Option String) {t : ConfigFieldType}
    → resolved sf attr ≡ ok t
    → is_field_type t ≡ true
is_field_type-resolved sf none e =
    is_field_type-or_no_type sf (inferred_type sf.kind)
      (λ u i. is_field_type-inferred_type sf.kind i) e
is_field_type-resolved sf (some raw) {t = type} e =
    elim (Bool-cases (is_field_type (trim_space raw))) [
      | inl t ↦ known {t = type} {u = trim_space raw} t (cc (rw t at e))
      | inr f ↦ cc (rw f at e)
    ]

pub OneOf-resolve_field_type :
    (sf : StructField) (attrs : Map String) {t : ConfigFieldType}
    → resolve_field_type sf attrs ≡ ok t
    → OneOf t field_types
unfolding resolve_field_type
OneOf-resolve_field_type sf attrs {t} e =
    OneOf-is_field_type t (is_field_type-resolved sf (lookup "type" attrs) e)

module _ (sf : StructField) (type : ConfigFieldType) (raw : String) {v : Json} where
  HasType-int_default :
      (n : Option ℤ)
      → type ≡ config_type_int
      → ((z : ℤ) → n ≡ some z → IsInt64 z)
      → int_default sf raw n ≡ ok v
      → HasType type v
  HasType-int_default none t h e = cc
  HasType-int_default (some z) t h e =
      let same : int z ≡ v = cc e in subst (HasType type) same (an_int t (h z refl))

  HasType-float_default :
      (f : Option String)
      → type ≡ config_type_float
      → float_default sf raw f ≡ ok v
      → HasType type v
  HasType-float_default none t e = cc
  HasType-float_default (some f) t e =
      let same : float f ≡ v = cc e in subst (HasType type) same (a_float t)

  HasType-boolean_default :
      (b : Option Bool)
      → type ≡ config_type_boolean
      → boolean_default sf raw b ≡ ok v
      → HasType type v
  HasType-boolean_default none t e = cc
  HasType-boolean_default (some b) t e =
      let same : bool b ≡ v = cc e in subst (HasType type) same (a_boolean t)

  module _ (parse_float : String → Option String) where
    pub HasType-convert_default : convert_default parse_float sf type raw ≡ ok v → HasType type v
    unfolding convert_default
    HasType-convert_default e = elim (Bool-cases (type == config_type_int)) [
      | inl t ↦
          HasType-int_default (atoi (trim_space raw)) (eq_of_test type config_type_int t)
            (λ z read. atoi-IsInt64 (trim_space raw) read) (rw t at e)
      | inr not_int ↦ elim (Bool-cases (type == config_type_float)) [
        | inl t ↦
            HasType-float_default (parse_float (trim_space raw))
              (eq_of_test type config_type_float t) (rw (not_int, t) at e)
        | inr not_float ↦ elim (Bool-cases (type == config_type_boolean)) [
          | inl t ↦
              HasType-boolean_default (parse_bool (trim_space raw))
                (eq_of_test type config_type_boolean t) (rw (not_int, not_float, t) at e)
          | inr not_boolean ↦
              let same : str raw ≡ v = cc (rw (not_int, not_float, not_boolean) at e) in
              subst (HasType type) same (
                a_text (ne_of_test type config_type_int not_int)
                  (ne_of_test type config_type_float not_float)
                  (ne_of_test type config_type_boolean not_boolean))
        ]
      ]
    ]
