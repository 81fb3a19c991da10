-- ===== src/Rabbit/Triple.antt =====
-- Pre- and postconditions of steps: one condition for success, one for failure.
use griffino_go.Base.{◌≡◌, none, some, ◌++◌, [], ◌∷◌, Option-cases, inl, inr}
use griffino_go.Errors.{Error, Result, ok, err}
use griffino_go.Rabbit.Broker.{
  World, Call, Externals, Step, ◌>>=◌, after, pure, fail, catch, or_else, ask,
}

abbrev pub Post :
    {A : Type 0} → (A → World → Type 0) → (Error → World → Type 0) → Result A × World → Type 0
Post Q E (ok a, w) = Q a w
Post Q E (err e, w) = E e w

-- From a world with `P`, `m` ends well in one with `Q`, or fails in one with `E`.
pub record Triple {A : Type 0} (P : World → Type 0) (m : Step A) (Q : A → World → Type 0)
    (E : Error → World → Type 0) : Type 0 where
  pub at : (w : World) → P w → Post Q E (m w)

Post-after :
    {E : Error → World → Type 0} {A B : Type 0} {R : A → World → Type 0} {Q : B → World → Type 0}
    (f : A → Step B) (r : Result A × World)
    → ((a : A) → Triple (R a) (f a) Q E)
    → Post R E r
    → Post Q E (after r f)
Post-after f (ok a, w) h p = (h a).at w p
Post-after f (err e, w) h p = p

module _ {P : World → Type 0} {E : Error → World → Type 0} where
  pub Triple-bind :
      {A B : Type 0} {R : A → World → Type 0} {Q : B → World → Type 0} {m : Step A} {f : A → Step B}
      → Triple P m R E
      → ((a : A) → Triple (R a) (f a) Q E)
      → Triple P (m >>= f) Q E
  Triple-bind {m} {f} hm hf = record { at = λ w p. Post-after f (m w) hf (hm.at w p) }

  pub Triple-pure :
      {A : Type 0} {Q : A → World → Type 0} (a : A)
      → ((w : World) → P w → Q a w)
      → Triple P (pure a) Q E
  Triple-pure a h = record { at = h }

  pub Triple-fail :
      {A : Type 0} {Q : A → World → Type 0} (e : Error)
      → ((w : World) → P w → E e w)
      → Triple P (fail {A = A} e) Q E
  Triple-fail e h = record { at = h }

Post-or_else :
    {A : Type 0} {Q : A → World → Type 0} {E R : Error → World → Type 0} (h : Error → Step A)
    (r : Result A × World)
    → ((e : Error) → Triple (R e) (h e) Q E)
    → Post Q R r
    → Post Q E (or_else r h)
Post-or_else h (ok a, w) t p = p
Post-or_else h (err e, w) t p = (t e).at w p

module _ {P : World → Type 0} {A : Type 0} {Q : A → World → Type 0}
    {E R : Error → World → Type 0} where
  pub Triple-catch :
      {m : Step A} {h : Error → Step A}
      → Triple P m Q R
      → ((e : Error) → Triple (R e) (h e) Q E)
      → Triple P (catch m h) Q E
  Triple-catch {m} {h} hm hh = record { at = λ w p. Post-or_else h (m w) hh (hm.at w p) }

pub Post-map :
    {A : Type 0} {Q Q' : A → World → Type 0} {E E' : Error → World → Type 0} (r : Result A × World)
    → ((a : A) (w : World) → Q a w → Q' a w)
    → ((e : Error) (w : World) → E e w → E' e w)
    → Post Q E r
    → Post Q' E' r
Post-map (ok a, w) f g p = f a w p
Post-map (err e, w) f g p = g e w p

module _ (x : Externals) where
  -- What is left of a world after a call, apart from the answer.
  abbrev pub called : Call → World → World
  called c w = record w { calls = w.calls ++ c ∷ [] }

  pub Triple-ask :
      {P : World → Type 0} {Q : Unit {0} → World → Type 0} {E : Error → World → Type 0} (c : Call)
      → ((w : World) → P w → x.answer w.calls c ≡ none → Q tt (called c w))
      → ((w : World) (e : Error) → P w → x.answer w.calls c ≡ some e → E e (called c w))
      → Triple P (ask x c) Q E
  Triple-ask {P} {Q} {E} c h k = record {
    at = λ w p. elim (Option-cases (x.answer w.calls c)) [
      | inl e ↦ rw e (h w p e)
      | inr (error, e) ↦ rw e (k w error p e)
    ];
  }
