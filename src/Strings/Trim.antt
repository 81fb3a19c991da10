-- ===== src/Strings/Trim.antt =====
-- Which texts `strings.TrimSpace` leaves alone.
use Prim.Native.Char.{Char}
use Prim.Native.String.{[], ◌∷◌}
use text.Mathlib.TextLemmas.{nil-append, cons-append, append-eq-nil_iff}
use griffino_go.Base.{String, ◌≡◌, ◌≢◌, refl, sym, ap, ◌∙◌, arith, false, inl, inr, Bool-cases}
use griffino_go.Base.Text.{◌<>◌, single}
use griffino_go.Strings.{is_space, trim_left, trim_right, trim_space, trim_onto}

trim_left-head : (s : String) {c : Char} {t : String} → trim_left s ≡ c ∷ t → is_space c ≡ false
unfolding trim_left
trim_left-head [] h = cc
trim_left-head (d ∷ s) h = elim (Bool-cases (is_space d)) [
  | inl t ↦ trim_left-head s (rw t at h)
  | inr f ↦ ground arith
]

pub trim_space-head :
    (s : String) {c : Char} {t : String} → trim_space s ≡ c ∷ t → is_space c ≡ false
unfolding trim_space
trim_space-head s h = trim_left-head (trim_right s) h

trim_onto-ne : (c : Char) (s : String) → s ≢ "" → trim_onto c s ≡ c ∷ s
trim_onto-ne c [] h = absurd (h refl)
trim_onto-ne c (d ∷ s) h = refl

pub append-ne : (s t : String) → t ≢ "" → s <> t ≢ ""
append-ne s t h e = h ((append-eq-nil_iff.0 e).1)

pub trim_right-append : (s t : String) → trim_right t ≡ t → t ≢ "" → trim_right (s <> t) ≡ s <> t
unfolding trim_right
trim_right-append [] t h ne = rw nil-append h
trim_right-append (c ∷ s) t h ne =
    rw (cons-append c s t, trim_right-append s t h ne) (trim_onto-ne c (s <> t) (append-ne s t ne))

trim_right-cons :
    (c : Char) (s : String) → is_space c ≡ false → trim_right s ≡ s → trim_right (c ∷ s) ≡ c ∷ s
unfolding trim_right
trim_right-cons c [] f h = rw f
trim_right-cons c (d ∷ s) f h = rw h

trim_left-cons : (c : Char) (s : String) → is_space c ≡ false → trim_left (c ∷ s) ≡ c ∷ s
unfolding trim_left
trim_left-cons c s f = rw f

-- Two texts around a separator, of which the first starts and the second ends without white space.
pub trim_space-append :
    (s : String) (d : Char) (t : String)
    → trim_space s ≡ s
    → s ≢ ""
    → is_space d ≡ false
    → trim_right t ≡ t
    → trim_space (s <> single d <> t) ≡ s <> single d <> t
unfolding trim_space
trim_space-append [] d t hs ne hd ht = absurd (ne refl)
trim_space-append (c ∷ s) d t hs ne hd ht =
    let tail : trim_right (single d <> t) ≡ single d <> t =
      rw (cons-append d [] t, nil-append) (trim_right-cons d t hd ht) in
    let some_tail : single d <> t ≢ "" = λ e. cc (rw (cons-append d [] t) at e) in
    let whole = trim_right-append (c ∷ s) (single d <> t) tail some_tail in
    rw (whole, cons-append c s (single d <> t))
      (trim_left-cons c (s <> single d <> t) (trim_space-head (c ∷ s) hs))

trim_onto-cons : (c : Char) (s : String) → is_space c ≡ false → trim_onto c s ≡ c ∷ s
trim_onto-cons c [] f = rw f
trim_onto-cons c (d ∷ s) f = refl

-- A text without white space round it has none at its end.
pub trim_right_of_trim_space : (s : String) → trim_space s ≡ s → trim_right s ≡ s
unfolding trim_space trim_right
trim_right_of_trim_space [] h = refl
trim_right_of_trim_space (c ∷ s) h =
    let first : is_space c ≡ false = trim_left-head (trim_right (c ∷ s)) h in
    let whole = trim_onto-cons c (trim_right s) first in
    whole ∙ sym (trim_left-cons c (trim_right s) first) ∙ ap trim_left (sym whole) ∙ h
