-- ===== src/Base/Number/Decimal.antt =====
-- What `Atoi` gives: an int64, and for what `Itoa` prints the same number again.
use Prim.Native.Nat.{ℕ, zero, suc, ◌+◌, ◌-◌, ◌*◌, ◌/◌, ◌%◌, ◌^◌, ◌<◌}
use Prim.Native.Char.{Char, code}
use Prim.Native.String.{String, [], ◌∷◌}
use mathlib.Core.Path.{◌≡◌, refl, ◌∙◌, subst}
use mathlib.Core.Logic.{◌≢◌, inl, inr}
use mathlib.Core.Bool.{true, false}
use mathlib.Core.Option.{Option, none, some}
use native.Mathlib.Omega.{arith}
use text.Mathlib.TextLemmas.{nil-append, cons-append, append-eq-nil_iff}
use griffino_go.Base.Tests.{eqb, leb, Bool-cases}
use griffino_go.Base.Int.{ℤ, pos, negsuc, neg, IsInt64}
use griffino_go.Base.Text.{◌<>◌, single}
use griffino_go.Base.Number.{digits_from, digits_value, atoi, at_most, is_digit, digit, emit, itoa}

-- The character of a decimal digit.
pub digit_char :
    (d : ℕ) → d < 10 → (c : Char) × (digit d ≡ single c) × (is_digit c ≡ true) × (code c - b'0' ≡ d)
digit_char zero h = ("0", refl, refl, refl)
digit_char (suc zero) h = ("1", refl, refl, refl)
digit_char (suc (suc zero)) h = ("2", refl, refl, refl)
digit_char (suc (suc (suc zero))) h = ("3", refl, refl, refl)
digit_char (suc (suc (suc (suc zero)))) h = ("4", refl, refl, refl)
digit_char (suc (suc (suc (suc (suc zero))))) h = ("5", refl, refl, refl)
digit_char (suc (suc (suc (suc (suc (suc zero)))))) h = ("6", refl, refl, refl)
digit_char (suc (suc (suc (suc (suc (suc (suc zero))))))) h = ("7", refl, refl, refl)
digit_char (suc (suc (suc (suc (suc (suc (suc (suc zero)))))))) h = ("8", refl, refl, refl)
digit_char (suc (suc (suc (suc (suc (suc (suc (suc (suc zero))))))))) h = ("9", refl, refl, refl)
digit_char (suc (suc (suc (suc (suc (suc (suc (suc (suc (suc n)))))))))) h = absurd (omega arith)

digits_from-digit :
    (d : ℕ) (out : String) (m : ℕ)
    → d < 10
    → digits_from (digit d <> out) m ≡ digits_from out (m * 10 + d)
unfolding digits_from
digits_from-digit d out m h =
    let (c, e, is, v) = digit_char d h in rw (e, cons-append c [] out, nil-append, is, v)

digits_from-emit :
    (f n : ℕ) (out : String) → n < f → digits_from (emit f n out) 0 ≡ digits_from out n
unfolding emit
digits_from-emit zero n out h = absurd (omega arith)
digits_from-emit (suc f) n out h = elim (Bool-cases (eqb (n / 10) 0)) [
  | inl last ↦
      let same : 0 * 10 + n % 10 ≡ n = ground arith in
      rw (last, digits_from-digit (n % 10) out 0 (omega arith), same)
  | inr more ↦
      let same : n / 10 * 10 + n % 10 ≡ n = omega arith in
      rw (more) (
        digits_from-emit f (n / 10) (digit (n % 10) <> out) (ground arith)
        ∙ rw (digits_from-digit (n % 10) out (n / 10) (omega arith), same))
]

digit-ne : (d : ℕ) → d < 10 → digit d ≢ ""
digit-ne d h e = let (c, is, _, _) = digit_char d h in cc

emit-ne : (f n : ℕ) (out : String) → out ≢ "" → emit f n out ≢ ""
unfolding emit
emit-ne zero n out h = h
emit-ne (suc f) n out h =
    let longer : digit (n % 10) <> out ≢ "" = λ e. h ((append-eq-nil_iff.0 e).1) in
    elim (Bool-cases (eqb (n / 10) 0)) [
      | inl last ↦ rw last longer
      | inr more ↦ rw more (emit-ne f (n / 10) _ longer)
    ]

emit-suc-ne : (f n : ℕ) (out : String) → emit (suc f) n out ≢ ""
unfolding emit
emit-suc-ne f n out =
    let longer : digit (n % 10) <> out ≢ "" =
      λ e. digit-ne (n % 10) (omega arith) ((append-eq-nil_iff.0 e).0) in
    elim (Bool-cases (eqb (n / 10) 0)) [
      | inl last ↦ rw last longer
      | inr more ↦ rw more (emit-ne f (n / 10) _ longer)
    ]

digits_value_of_ne : (s : String) → s ≢ "" → digits_value s ≡ digits_from s 0
unfolding digits_value
digits_value_of_ne [] h = absurd (h refl)
digits_value_of_ne (c ∷ s) h = refl

digits_value-emit : (f n : ℕ) → n < f → digits_value (emit f n "") ≡ some n
digits_value-emit zero n h = absurd (omega arith)
digits_value-emit (suc f) n h =
    digits_value_of_ne (emit (suc f) n "") (emit-suc-ne f n "")
    ∙ digits_from-emit (suc f) n "" h
    ∙ unfold digits_from in refl

atoi_of_digits :
    (s : String) (n : ℕ) → digits_value s ≡ some n → atoi s ≡ at_most (2 ^ 63 - 1) pos (some n)
unfolding atoi digits_from
atoi_of_digits [] n e = cc
atoi_of_digits (c ∷ s) n e = elim (Bool-cases (is_digit c)) [
  | inl is ↦
      let first : (eqb (code c) b'-' ≡ false) × (eqb (code c) b'+' ≡ false) =
        (ground arith, ground arith) in
      rw (first.0, first.1, e) refl
  | inr other ↦ cc (rw other at e)
]

-- What is printed is read back if it fits in 64 bits.
abbrev pub in_range : ℤ → Option ℤ
in_range (pos n) = at_most (2 ^ 63 - 1) pos (some n)
in_range (negsuc n) = at_most (2 ^ 63) neg (some (n + 1))

atoi_of_itoa : (z : ℤ) → atoi (itoa z) ≡ in_range z
unfolding itoa atoi
atoi_of_itoa (pos n) =
    atoi_of_digits (emit (n + 1) n "") n (digits_value-emit (n + 1) n (omega arith))
atoi_of_itoa (negsuc n) =
    rw
      (
        cons-append "-" [] (emit (n + 2) (n + 1) ""),
        nil-append,
        digits_value-emit (n + 2) (n + 1) (omega arith),
      )
      refl

in_range-some : (z : ℤ) → IsInt64 z → in_range z ≡ some z
in_range-some (pos n) h = ground arith
in_range-some (negsuc n) h = ground arith

in_range-none : (z : ℤ) → (IsInt64 z → ⊥) → in_range z ≡ none
in_range-none (pos n) h = ground arith
in_range-none (negsuc n) h = ground arith

pub atoi-itoa : (z : ℤ) → IsInt64 z → atoi (itoa z) ≡ some z
atoi-itoa z h = atoi_of_itoa z ∙ in_range-some z h

pub atoi-itoa-out : (z : ℤ) → (IsInt64 z → ⊥) → atoi (itoa z) ≡ none
atoi-itoa-out z h = atoi_of_itoa z ∙ in_range-none z h

at_most-IsInt64 :
    (limit : ℕ) (f : ℕ → ℤ) (v : Option ℕ) {z : ℤ}
    → ((n : ℕ) → leb n limit ≡ true → IsInt64 (f n))
    → at_most limit f v ≡ some z
    → IsInt64 z
at_most-IsInt64 limit f none {z} h e = cc
at_most-IsInt64 limit f (some n) {z} h e = elim (Bool-cases (leb n limit)) [
  | inl t ↦ let same : f n ≡ z = cc (rw t at e) in subst IsInt64 same (h n t)
  | inr g ↦ cc (rw g at e)
]

neg-IsInt64 : (n : ℕ) → leb n (2 ^ 63) ≡ true → IsInt64 (neg n)
neg-IsInt64 zero h = omega arith
neg-IsInt64 (suc n) h = ground arith

pos-IsInt64 : (n : ℕ) → leb n (2 ^ 63 - 1) ≡ true → IsInt64 (pos n)
pos-IsInt64 n h = ground arith

-- A number that is read is an int64.
pub atoi-IsInt64 : (s : String) {z : ℤ} → atoi s ≡ some z → IsInt64 z
unfolding atoi
atoi-IsInt64 [] e = cc
atoi-IsInt64 (c ∷ s) e = elim (Bool-cases (eqb (code c) b'-')) [
  | inl minus ↦ at_most-IsInt64 (2 ^ 63) neg (digits_value s) neg-IsInt64 (rw minus at e)
  | inr signless ↦ elim (Bool-cases (eqb (code c) b'+')) [
    | inl plus ↦
        at_most-IsInt64 (2 ^ 63 - 1) pos (digits_value s) pos-IsInt64 (rw (signless, plus) at e)
    | inr bare ↦
        at_most-IsInt64 (2 ^ 63 - 1) pos (digits_value (c ∷ s)) pos-IsInt64
          (rw (signless, bare) at e)
  ]
]

emit-positive-ne : (f n : ℕ) (out : String) → 0 < f → emit f n out ≢ ""
emit-positive-ne zero n out h = absurd (omega arith)
emit-positive-ne (suc f) n out h = emit-suc-ne f n out

pub itoa-ne : (z : ℤ) → itoa z ≢ ""
unfolding itoa
itoa-ne (pos n) = emit-positive-ne (n + 1) n "" (omega arith)
itoa-ne (negsuc n) = λ e. cc ((append-eq-nil_iff.0 e).0)
