-- ===== src/Declarative/Tags/Attributes.antt =====
-- Tags that are printed as the documentation of `ParseConfigModel` says.
use Prim.Native.String.{[], ◌∷◌}
use text.Mathlib.TextLemmas.{append-eq-nil_iff}
use mathlib.Core.List.{[], ◌∷◌, ◌++◌}
use griffino_go.Base.{
  String, none, ◌≡◌, ◌≢◌, refl, ap, ◌∙◌, map, All, All-map, append_assoc, append-nil, eq_refl,
  arith, test_of_ne,
}
use griffino_go.Base.Maps.{Map, lookup, insert}
use griffino_go.Base.Text.{◌<>◌, split}
use griffino_go.Strings.{trim_space, trim_right, join, is_space}
use griffino_go.Strings.Split.{Lacks, split-join, cut-append, Lacks-append}
use griffino_go.Strings.Trim.{trim_space-append}
use griffino_go.Errors.{ok}
use griffino_go.Declarative.Tags.{parse_tag_attrs, add_pairs, add_pair, comma}

-- attr=value
abbrev pub print_attr : String × String → String
print_attr (name, value) = name <> "=" <> value

unfoldable pub print_attrs : Map String → String
print_attrs attrs = join "," (map print_attr attrs)

-- A pair that a tag can hold: the name is not empty and free of white space round it, '=' and ',';
-- the value has no ',' and no white space at its end.
pub record IsAttr (attr : String × String) : Type 0 where
  pub name_ne : attr.0 ≢ ""
  pub name_trimmed : trim_space (attr.0) ≡ attr.0
  pub name_equals : Lacks b'=' (attr.0)
  pub name_comma : Lacks comma (attr.0)
  pub value_comma : Lacks comma (attr.1)
  pub value_trimmed : trim_right (attr.1) ≡ attr.1

-- No name twice.
abbrev pub Distinct : Map String → Type 0
Distinct [] = Unit
Distinct ((name, value) ∷ attrs) = (lookup name attrs ≡ none) × Distinct attrs

insert-fresh :
    (name value : String) (m : Map String)
    → lookup name m ≡ none
    → insert name value m ≡ m ++ (name, value) ∷ []
unfolding insert lookup
insert-fresh name value [] h = refl
insert-fresh name value ((at, old) ∷ m) h = ground (arith, insert-fresh name value m)

lookup-append_here :
    (m : Map String) (name value : String) (rest : Map String)
    → lookup name (m ++ (name, value) ∷ rest) ≢ none
unfolding lookup
lookup-append_here [] name value rest = ground (arith, eq_refl name)
lookup-append_here ((at, old) ∷ m) name value rest =
    ground (arith, lookup-append_here m name value rest)

-- A name behind others is none of them.
lookup_of_Distinct :
    (m : Map String) (name value : String) (rest : Map String)
    → Distinct (m ++ (name, value) ∷ rest)
    → lookup name m ≡ none
unfolding lookup
lookup_of_Distinct [] name value rest h = refl
lookup_of_Distinct ((at, old) ∷ m) name value rest (fresh, h) =
    let other : at ≢ name = λ e. lookup-append_here m name value rest (rw e at fresh) in
    rw (test_of_ne at name other) (lookup_of_Distinct m name value rest h)

add_pair-print_attr :
    (name value : String) (m : Map String)
    → IsAttr (name, value)
    → lookup name m ≡ none
    → add_pair (trim_space (print_attr (name, value))) m ≡ ok (m ++ (name, value) ∷ [])
add_pair-print_attr name value m h fresh =
    let filled : print_attr (name, value) ≢ "" = λ e. h.name_ne ((append-eq-nil_iff.0 e).0) in
    rw (
      trim_space-append name "=" value h.name_trimmed h.name_ne (unfold is_space in refl)
          h.value_trimmed,
      test_of_ne _ "" filled,
      cut-append b'=' "=" refl name value h.name_equals,
      h.name_trimmed,
      test_of_ne name "" h.name_ne,
      insert-fresh name value m fresh,
    )

add_pairs-print_attr :
    (attrs m : Map String)
    → All IsAttr attrs
    → Distinct (m ++ attrs)
    → add_pairs (map print_attr attrs) m ≡ ok (m ++ attrs)
unfolding add_pairs
add_pairs-print_attr [] m h d = rw append-nil
add_pairs-print_attr ((name, value) ∷ attrs) m (h, hs) d =
    let later = append_assoc m ((name, value) ∷ []) attrs in
    rw (add_pair-print_attr name value m h (lookup_of_Distinct m name value attrs d))
      (add_pairs-print_attr attrs (m ++ (name, value) ∷ []) hs (rw later d) ∙ ap ok later)

print_attr-Lacks : (attr : String × String) → IsAttr attr → Lacks comma (print_attr attr)
print_attr-Lacks (name, value) h =
    Lacks-append comma name _ h.name_comma
      (Lacks-append comma "=" value (omega arith) h.value_comma)

-- A tag that is printed from attributes with distinct names, attr=value with commas in between, is
-- read back as these attributes in their order, if no name is empty, has white space round it or
-- holds '=' or ',', and no value holds ',' or ends in white space.
pub parse_tag_attrs-print_attrs :
    (attrs : Map String)
    → All IsAttr attrs
    → Distinct attrs
    → parse_tag_attrs (print_attrs attrs) ≡ ok attrs
unfolding parse_tag_attrs print_attrs
parse_tag_attrs-print_attrs [] h d = unfold join split trim_space add_pairs in refl
parse_tag_attrs-print_attrs (attr ∷ attrs) h d =
    rw
      (split-join comma "," refl (print_attr attr) (map print_attr attrs)
        (All-map IsAttr (Lacks comma) print_attr print_attr-Lacks (attr ∷ attrs) h))
      (add_pairs-print_attr (attr ∷ attrs) [] h d)
