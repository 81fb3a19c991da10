-- ===== src/Errors/Classified.antt =====
-- Results all of whose errors are of one kind, by how they are built.
use griffino_go.Base.{◌≡◌, refl, true, false, Bool, String, List, if◌then◌else◌}
use griffino_go.Errors.{Error, Sentinel, Result, ok, err, is, ◌>>=◌, config_error, configuration}

-- Whenever `m` fails, the error is one that `errors.Is` finds under `t`.
pub record Classified {ℓ} {A : Type ℓ} (t : Sentinel) (m : Result A) : Type ℓ where
  pub at : (e : Error) → m ≡ err e → is e t ≡ true

module _ {ℓ} {A : Type ℓ} {t : Sentinel} where
  pub Classified-ok : (a : A) → Classified t (ok a)
  Classified-ok a = record { at = λ e h. cc }

  pub Classified-err : (e : Error) → is e t ≡ true → Classified {A = A} t (err e)
  Classified-err e h = record { at = λ e' p. let q : e ≡ e' = cc in rw q at h }

  pub Classified-if :
      (test : Bool) (m m' : Result A)
      → Classified t m
      → Classified t m'
      → Classified t (if test then m else m')
  Classified-if true m m' h h' = h
  Classified-if false m m' h h' = h'

pub Classified-config_error {ℓ} :
    {A : Type ℓ} (f : String) (args : List String)
    → Classified {A = A} configuration (err (config_error f args))
unfolding is config_error
Classified-config_error f args = Classified-err (config_error f args) refl

module _ {ℓ κ} {A : Type ℓ} {B : Type κ} {t : Sentinel} where
  pub Classified-bind :
      (m : Result A) (f : A → Result B)
      → Classified t m
      → ((a : A) → Classified t (f a))
      → Classified t (m >>= f)
  Classified-bind (ok a) f hm hf = hf a
  Classified-bind (err e) f hm hf = Classified-err e (hm.at e refl)
