-- ===== src/Strings/Numerals.antt =====
-- The characters that `Itoa` prints.
use Prim.Native.Nat.{ℕ, zero, suc, ◌+◌, ◌/◌, ◌%◌, ◌<◌}
use Prim.Native.Char.{Char, code}
use griffino_go.Base.{String, true, false, ◌≡◌, ◌≢◌, ◌⊎◌, inl, inr, refl, arith, Bool-cases, eqb}
use griffino_go.Base.Int.{ℤ, pos, negsuc}
use griffino_go.Base.Number.{itoa, emit, digit, is_digit}
use griffino_go.Base.Number.Decimal.{digit_char}
use griffino_go.Base.Text.{◌<>◌}
use griffino_go.Strings.{is_space, trim_space}
use griffino_go.Strings.Split.{Lacks}
use griffino_go.Strings.Chars.{AllChars, AllChars-append, Lacks-AllChars, trim_space-AllChars}

-- A digit or a minus.
abbrev IsNumeral : Char → Type 0
IsNumeral c = (is_digit c ≡ true) ⊎ (code c ≡ b'-')

digit-AllChars : (d : ℕ) → d < 10 → AllChars IsNumeral (digit d)
digit-AllChars d h = let (c, e, is, _) = digit_char d h in rw e (inl is, tt)

emit-AllChars :
    (f n : ℕ) (out : String) → AllChars IsNumeral out → AllChars IsNumeral (emit f n out)
unfolding emit
emit-AllChars zero n out h = h
emit-AllChars (suc f) n out h =
    let longer =
      AllChars-append IsNumeral (digit (n % 10)) out (digit-AllChars (n % 10) (omega arith)) h in
    elim (Bool-cases (eqb (n / 10) 0)) [
      | inl last ↦ rw last longer
      | inr more ↦ rw more (emit-AllChars f (n / 10) (digit (n % 10) <> out) longer)
    ]

itoa-AllChars : (z : ℤ) → AllChars IsNumeral (itoa z)
unfolding itoa
itoa-AllChars (pos n) = emit-AllChars (n + 1) n "" tt
itoa-AllChars (negsuc n) =
    AllChars-append IsNumeral "-" (emit (n + 2) (n + 1) "") (inr refl, tt)
      (emit-AllChars (n + 2) (n + 1) "" tt)

IsNumeral-is_space : (c : Char) → IsNumeral c → is_space c ≡ false
unfolding is_space
IsNumeral-is_space c h = ground arith

-- A printed number is not trimmed.
pub trim_space-itoa : (z : ℤ) → trim_space (itoa z) ≡ itoa z
trim_space-itoa z = trim_space-AllChars IsNumeral (itoa z) IsNumeral-is_space (itoa-AllChars z)

-- It holds none of the separators of a tag.
pub Lacks-itoa :
    (sep : ℕ) (z : ℤ)
    → ((c : Char) → (is_digit c ≡ true) ⊎ (code c ≡ b'-') → code c ≢ sep)
    → Lacks sep (itoa z)
Lacks-itoa sep z h = Lacks-AllChars IsNumeral sep (itoa z) h (itoa-AllChars z)
