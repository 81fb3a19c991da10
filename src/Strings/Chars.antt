-- ===== src/Strings/Chars.antt =====
-- Texts all of whose characters are of one kind.
use Prim.Native.Char.{Char, code}
use Prim.Native.String.{[], ◌∷◌}
use text.Mathlib.TextLemmas.{nil-append, cons-append}
use griffino_go.Base.{ℕ, String, false, ◌≡◌, ◌≢◌, refl}
use griffino_go.Base.Text.{◌<>◌}
use griffino_go.Strings.{is_space, trim_left, trim_right, trim_space}
use griffino_go.Strings.Split.{Lacks}

abbrev pub AllChars : (Char → Type 0) → String → Type 0
AllChars P [] = Unit
AllChars P (c ∷ s) = P c × AllChars P s

module _ (P : Char → Type 0) where
  pub AllChars-append : (s t : String) → AllChars P s → AllChars P t → AllChars P (s <> t)
  AllChars-append [] t hs ht = rw nil-append ht
  AllChars-append (c ∷ s) t (p, hs) ht = rw (cons-append c s t) (p, AllChars-append s t hs ht)

  pub Lacks-AllChars :
      (sep : ℕ) (s : String) → ((c : Char) → P c → code c ≢ sep) → AllChars P s → Lacks sep s
  Lacks-AllChars sep [] h hs = tt
  Lacks-AllChars sep (c ∷ s) h (p, hs) = (h c p, Lacks-AllChars sep s h hs)

  trim_right-AllChars :
      (s : String) → ((c : Char) → P c → is_space c ≡ false) → AllChars P s → trim_right s ≡ s
  unfolding trim_right
  trim_right-AllChars [] h hs = refl
  trim_right-AllChars (c ∷ []) h (p, hs) = rw (h c p)
  trim_right-AllChars (c ∷ d ∷ s) h (p, hs) = rw (trim_right-AllChars (d ∷ s) h hs)

  trim_left-AllChars :
      (s : String) → ((c : Char) → P c → is_space c ≡ false) → AllChars P s → trim_left s ≡ s
  unfolding trim_left
  trim_left-AllChars [] h hs = refl
  trim_left-AllChars (c ∷ s) h (p, hs) = rw (h c p)

  -- A text without white space is not trimmed.
  pub trim_space-AllChars :
      (s : String) → ((c : Char) → P c → is_space c ≡ false) → AllChars P s → trim_space s ≡ s
  unfolding trim_space
  trim_space-AllChars s h hs = rw (trim_right-AllChars s h hs) (trim_left-AllChars s h hs)
