-- ===== src/Config/Numbers.antt =====
-- The integers that the environment gives.
use griffino_go.Base.{
  String, true, refl, sym, ap, ◌⊎◌, ◌↔◌, ltb, arith, ◌≡◌, Bool-cases, inl, inr, test_of_ne,
}
use Prim.Native.Nat.{◌^◌}
use griffino_go.Base.Int.{ℤ, pos, negsuc, IsInt64}
use griffino_go.Base.Number.{itoa}
use griffino_go.Base.Number.Decimal.{atoi-itoa, atoi-itoa-out, itoa-ne}
use griffino_go.Errors.{Error, ok, err, is, configuration, config_error, ok-injective}
use griffino_go.Errors.Classified.{Classified, Classified-ok, Classified-err}
use griffino_go.Config.{Env, int_env}

IsInt64-cases : (z : ℤ) → IsInt64 z ⊎ (IsInt64 z → ⊥)
IsInt64-cases (pos n) = elim (Bool-cases (ltb n (2 ^ 63))) [
  | inl t ↦ inl (ground arith)
  | inr f ↦ inr (λ h. ground arith)
]
IsInt64-cases (negsuc n) = elim (Bool-cases (ltb n (2 ^ 63))) [
  | inl t ↦ inl (ground arith)
  | inr f ↦ inr (λ h. ground arith)
]

int_env-inside :
    (env : Env) (name : String) (def n : ℤ)
    → env name ≡ itoa n
    → IsInt64 n
    → int_env env name def ≡ ok n
unfolding int_env
int_env-inside env name def n e h = rw (e, test_of_ne (itoa n) "" (itoa-ne n), atoi-itoa n h)

int_env-outside :
    (env : Env) (name : String) (def n : ℤ)
    → env name ≡ itoa n
    → (IsInt64 n → ⊥)
    → (error : Error) × (int_env env name def ≡ err error) × (is error configuration ≡ true)
unfolding int_env is config_error
int_env-outside env name def n e h =
    rw (e, test_of_ne (itoa n) "" (itoa-ne n), atoi-itoa-out n h) (_, refl, refl)

-- Where a variable is set to a number in decimal, that very number is read, exactly if it is in the
-- range of a 64-bit int; nothing else is ever read in its place, and what is refused is refused
-- with a configuration error.
pub int_env-bounds :
    (env : Env) (name : String) (def n : ℤ)
    → env name ≡ itoa n
    → ((m : ℤ) → (int_env env name def ≡ ok m) ↔ ((m ≡ n) × IsInt64 n))
      × Classified configuration (int_env env name def)
int_env-bounds env name def n e = elim (IsInt64-cases n) [
  | inl h ↦
      let read = int_env-inside env name def n e h in
      rw read (λ m. (λ s. (sym (ok-injective s), h), λ s. ap ok (sym (s.0))), Classified-ok n)
  | inr h ↦
      let (error, refused, is_configuration) = int_env-outside env name def n e h in
      rw refused (λ m. (λ s. cc s, λ s. absurd (h (s.1))), Classified-err error is_configuration)
]
