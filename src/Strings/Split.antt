-- ===== src/Strings/Split.antt =====
-- What `strings.Split` and a cut at the first separator give on texts that are put together.
use Prim.Native.Char.{Char, code}
use Prim.Native.String.{[], ◌∷◌}
use text.Mathlib.TextLemmas.{nil-append, cons-append}
use mathlib.Core.List.{List, [], ◌∷◌, ◌++◌}
use griffino_go.Base.{ℕ, String, some, ◌≡◌, ◌≢◌, refl, arith, All, sym, ap, ◌∙◌}
use griffino_go.Base.Text.{◌<>◌, split, cons_part, single}
use griffino_go.Strings.{cut, join}

module _ (sep : ℕ) where
  -- A text without the separator.
  abbrev pub Lacks : String → Type 0
  Lacks [] = Unit
  Lacks (c ∷ s) = (code c ≢ sep) × Lacks s

  pub split_of_Lacks : (s : String) → Lacks s → split sep s ≡ s ∷ []
  unfolding split
  split_of_Lacks [] h = refl
  split_of_Lacks (c ∷ s) (p, h) = rw (split_of_Lacks s h) (ground arith)

  module _ (c : Char) where
    cons_part-ne-nil : (ps : List String) → cons_part sep c ps ≢ []
    cons_part-ne-nil [] h = cc
    cons_part-ne-nil (p ∷ ps) h = cc

    cons_part-append :
        (ps qs : List String) → ps ≢ [] → cons_part sep c (ps ++ qs) ≡ cons_part sep c ps ++ qs
    cons_part-append [] qs h = absurd (h refl)
    cons_part-append (p ∷ ps) qs h = refl

  pub split-ne-nil : (s : String) → split sep s ≢ []
  unfolding split
  split-ne-nil [] h = cc
  split-ne-nil (c ∷ s) h = ground (arith, cons_part-ne-nil c (split sep s))

  module _ (d : Char) (is_sep : code d ≡ sep) where
    pub split-append : (s t : String) → split sep (s <> single d <> t) ≡ split sep s ++ split sep t
    unfolding split
    split-append [] t = rw (nil-append, cons-append, nil-append) (ground arith)
    split-append (c ∷ s) t = rw (cons-append c s (single d <> t)) (
        ground
          (arith, split-append s t, cons_part-append c (split sep s) (split sep t), split-ne-nil s))

    -- A join of parts that hold no separator is split into these parts.
    pub split-join :
        (p : String) (ps : List String)
        → All Lacks (p ∷ ps)
        → split sep (join (single d) (p ∷ ps)) ≡ p ∷ ps
    unfolding join
    split-join p [] h = split_of_Lacks p (h.0)
    split-join p (q ∷ qs) h =
        rw
          (split-append p (join (single d) (q ∷ qs)), split_of_Lacks p (h.0), split-join q qs (h.1))

    -- A text is cut at the first separator.
    pub cut-append : (s t : String) → Lacks s → cut sep (s <> single d <> t) ≡ some (s, t)
    unfolding cut
    cut-append [] t h = rw (nil-append, cons-append, nil-append) (ground arith)
    cut-append (c ∷ s) t (p, h) =
        rw (cons-append c s (single d <> t)) (rw (cut-append s t h) (ground arith))

    -- What stands before and after the first separator is determined by the whole.
    pub first_parts :
        (s t x y : String)
        → Lacks s
        → Lacks t
        → s <> single d <> x ≡ t <> single d <> y
        → (s ≡ t) × (x ≡ y)
    first_parts s t x y hs ht e =
        let both : some (s, x) ≡ some (t, y) =
          sym (cut-append s x hs) ∙ ap (cut sep) e ∙ cut-append t y ht in
        (cc both, cc both)

  pub Lacks-append : (s t : String) → Lacks s → Lacks t → Lacks (s <> t)
  Lacks-append [] t hs ht = rw (nil-append) ht
  Lacks-append (c ∷ s) t (p, hs) ht = rw (cons-append c s t) (p, Lacks-append s t hs ht)
