-- ===== src/Declarative/Tags/Bounds.antt =====
-- The bounds that a validation attribute gives.
use mathlib.Core.List.{[], ◌∷◌}
use griffino_go.Base.{
  String, ◌==◌, Option, none, some, List, ◌≡◌, ◌≢◌, refl, subst, arith, Bool-cases, inl, inr, All,
  OneOf,
}
use griffino_go.Base.Maps.{insert}
use griffino_go.Base.Text.{split}
use griffino_go.Strings.{trim_space, cut}
use griffino_go.Json.{Json, Object}
use griffino_go.Errors.{ok, >>=-eq-ok}
use griffino_go.Declarative.Tags.{
  parse_validation, parse_number, bound_key, nil_if_empty, add_items, add_item, add_bound,
  put_bound,
}

abbrev pub IsBound : String × Json → Type 0
IsBound b = OneOf (b.0) ("minimum" ∷ "maximum" ∷ [])

-- No bounds, or some of the two.
abbrev pub FitsValidation : Option Object → Type 0
FitsValidation none = Unit
FitsValidation (some bounds) = (bounds ≢ []) × All IsBound bounds

OneOf-bound_key :
    (key : String) {bound : String}
    → bound_key key ≡ some bound
    → OneOf bound ("minimum" ∷ "maximum" ∷ [])
unfolding bound_key
OneOf-bound_key key e = ground arith

All-insert :
    (bound : String) (v : Json) (m : Object)
    → OneOf bound ("minimum" ∷ "maximum" ∷ [])
    → All IsBound m
    → All IsBound (insert bound v m)
unfolding insert
All-insert bound v [] h hs = (h, tt)
All-insert bound v ((at, old) ∷ m) h (p, hs) = elim (Bool-cases (at == bound)) [
  | inl t ↦ rw t (p, hs)
  | inr f ↦ rw f (p, All-insert bound v m h hs)
]

FitsValidation-nil_if_empty : (m : Object) → All IsBound m → FitsValidation (nil_if_empty m)
FitsValidation-nil_if_empty [] h = tt
FitsValidation-nil_if_empty (b ∷ m) h = (λ e. cc, h)

module _ (parse_float : String → Option String) (field_name : String) where
  put_bound-IsBound :
      (key value : String) (m : Object) (o : Option String) {m' : Object}
      → ((bound : String) → o ≡ some bound → OneOf bound ("minimum" ∷ "maximum" ∷ []))
      → All IsBound m
      → put_bound parse_float field_name key value m o ≡ ok m'
      → All IsBound m'
  put_bound-IsBound key value m none h hs e = cc
  put_bound-IsBound key value m (some bound) h hs e =
      let same : insert bound (parse_number parse_float (trim_space value)) m ≡ _ = cc e in
      subst (All IsBound) same (All-insert bound _ m (h bound refl) hs)

  add_bound-IsBound :
      (item : String) (m : Object) (o : Option (String × String)) {m' : Object}
      → All IsBound m
      → add_bound parse_float field_name item m o ≡ ok m'
      → All IsBound m'
  add_bound-IsBound item m none hs e = cc
  add_bound-IsBound item m (some (key, value)) hs e =
      put_bound-IsBound (trim_space key) value m (bound_key (trim_space key))
        (λ bound i. OneOf-bound_key (trim_space key) i) hs e

  add_item-IsBound :
      (item : String) (m : Object) {m' : Object}
      → All IsBound m
      → add_item parse_float field_name item m ≡ ok m'
      → All IsBound m'
  add_item-IsBound item m {m'} hs e = elim (Bool-cases (item == "")) [
    | inl t ↦ let same : m ≡ m' = cc (rw t at e) in subst (All IsBound) same hs
    | inr f ↦ add_bound-IsBound item m (cut b':' item) hs (rw f at e)
  ]

  add_items-IsBound :
      (items : List String) (m : Object) {m' : Object}
      → All IsBound m
      → add_items parse_float field_name items m ≡ ok m'
      → All IsBound m'
  unfolding add_items
  add_items-IsBound [] m {m'} hs e = let same : m ≡ m' = cc e in subst (All IsBound) same hs
  add_items-IsBound (item ∷ items) m hs e =
      let (more, first, rest) =
        >>=-eq-ok (add_item parse_float field_name (trim_space item) m) _ e in
      add_items-IsBound items more (add_item-IsBound (trim_space item) m hs first) rest

  pub FitsValidation-parse_validation :
      (raw : String) {v : Option Object}
      → parse_validation parse_float field_name raw ≡ ok v
      → FitsValidation v
  unfolding parse_validation
  FitsValidation-parse_validation raw {v} e =
      let (m, items, e') = >>=-eq-ok (add_items parse_float field_name (split b';' raw) []) _ e in
      let same : nil_if_empty m ≡ v = cc e' in
      subst FitsValidation same
        (FitsValidation-nil_if_empty m (add_items-IsBound (split b';' raw) [] tt items))
