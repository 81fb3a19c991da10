-- ===== src/Declarative/Tags/Options.antt =====
-- Lists of options that are printed as the documentation of `ParseConfigModel` says.
use mathlib.Core.List.{[], ◌∷◌}
use text.Mathlib.TextLemmas.{append-eq-nil_iff}
use griffino_go.Base.{String, List, ◌≡◌, ◌≢◌, refl, arith, map, All, All-map, test_of_ne}
use griffino_go.Base.Text.{◌<>◌, split}
use griffino_go.Strings.{trim_space, trim_left, trim_right, cut, join, is_space}
use griffino_go.Strings.Split.{Lacks, split-join, cut-append, Lacks-append}
use griffino_go.Strings.Trim.{trim_space-append, trim_right_of_trim_space}
use griffino_go.Declarative.{ConfigOption}
use griffino_go.Declarative.Tags.{parse_values, value_items, option_of}

-- value:display
abbrev pub print_option : ConfigOption → String
print_option o = o.value <> ":" <> o.display

unfoldable pub print_options : List ConfigOption → String
print_options options = join "|" (map print_option options)

-- An option that the attribute can hold: both texts are free of white space round them and of '|',
-- the value is not empty and has no ':'.
pub record IsOption (o : ConfigOption) : Type 0 where
  pub value_ne : o.value ≢ ""
  pub value_trimmed : trim_space o.value ≡ o.value
  pub value_colon : Lacks b':' o.value
  pub value_bar : Lacks b'|' o.value
  pub display_trimmed : trim_space o.display ≡ o.display
  pub display_bar : Lacks b'|' o.display

print_option-trimmed :
    (o : ConfigOption) → IsOption o → trim_space (print_option o) ≡ print_option o
print_option-trimmed o h =
    trim_space-append o.value ":" o.display h.value_trimmed h.value_ne (unfold is_space in refl)
      (trim_right_of_trim_space o.display h.display_trimmed)

option_of-print_option :
    (o : ConfigOption) → IsOption o → option_of (print_option o) (cut b':' (print_option o)) ≡ o
option_of-print_option o h =
    rw (cut-append b':' ":" refl o.value o.display h.value_colon)
      (ground (arith, h.value_trimmed, h.display_trimmed))

value_items-print_option :
    (options : List ConfigOption)
    → All IsOption options
    → value_items (map print_option options) ≡ options
unfolding value_items
value_items-print_option [] h = refl
value_items-print_option (o ∷ options) (h, hs) =
    let filled : print_option o ≢ "" = λ e. h.value_ne ((append-eq-nil_iff.0 e).0) in
    rw (
      print_option-trimmed o h,
      test_of_ne (print_option o) "" filled,
      option_of-print_option o h,
      value_items-print_option options hs,
    )

print_option-Lacks : (o : ConfigOption) → IsOption o → Lacks b'|' (print_option o)
print_option-Lacks o h =
    Lacks-append b'|' o.value _ h.value_bar
      (Lacks-append b'|' ":" o.display (omega arith) h.display_bar)

pub parse_values-print_options :
    (options : List ConfigOption)
    → All IsOption options
    → parse_values (print_options options) ≡ options
unfolding parse_values print_options
parse_values-print_options [] h =
    unfold join split trim_space trim_left trim_right value_items in refl
parse_values-print_options (o ∷ options) h =
    rw
      (split-join b'|' "|" refl (print_option o) (map print_option options)
        (All-map IsOption (Lacks b'|') print_option print_option-Lacks (o ∷ options) h))
      (value_items-print_option (o ∷ options) h)
