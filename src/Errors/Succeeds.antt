-- ===== src/Errors/Succeeds.antt =====
-- Results that are no errors, by how they are built.
use griffino_go.Base.{◌≡◌, refl, subst, ◌↔◌}
use mathlib.Core.List.{List, [], ◌∷◌, map}
use griffino_go.Errors.{Result, ok, err, ◌>>=◌, >>=-eq-ok, ok-injective}

abbrev pub Succeeds {ℓ} : {A : Type ℓ} → Result A → Type ℓ
Succeeds {A} m = (a : A) × (m ≡ ok a)

module _ {ℓ κ} {A : Type ℓ} {B : Type κ} where
  pub Succeeds-bind :
      (m : Result A) (f : A → Result B)
      → Succeeds m
      → ((a : A) → m ≡ ok a → Succeeds (f a))
      → Succeeds (m >>= f)
  Succeeds-bind (ok a) f hm hf = hf a refl
  Succeeds-bind (err e) f hm hf = cc (hm.1)

-- One result after the other, up to the first error.
module _ {ℓ} {A : Type ℓ} where
  abbrev pub in_order : List (Result A) → Result (List A)
  in_order [] = ok []
  in_order (m ∷ ms) = m >>= λ a. in_order ms >>= λ as'. ok (a ∷ as')

  all_ok : (ms : List (Result A)) {xs : List A} → in_order ms ≡ ok xs → ms ≡ map ok xs
  all_ok [] h = rw (← ok-injective h)
  all_ok (m ∷ ms) h =
      let (a, e, h') = >>=-eq-ok m _ h in
      let (rest, e', h'') = >>=-eq-ok (in_order ms) _ h' in
      subst (λ (ys : List A). m ∷ ms ≡ map ok ys) (ok-injective h'') (rw (e, all_ok ms e'))

  in_order-map-ok : (xs : List A) → in_order (map ok xs) ≡ ok xs
  in_order-map-ok [] = refl
  in_order-map-ok (x ∷ xs) = rw (in_order-map-ok xs)

  pub in_order_iff : (ms : List (Result A)) (xs : List A) → (in_order ms ≡ ok xs) ↔ (ms ≡ map ok xs)
  in_order_iff ms xs = (λ h. all_ok ms h, λ h. rw h (in_order-map-ok xs))
