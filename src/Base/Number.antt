-- ===== src/Base/Number.antt =====
-- Package strconv, as far as the source calls it: `Atoi` and `Itoa` for a 64-bit int, `ParseBool`.
pub mod Decimal
use Prim.Native.Nat.{ℕ, zero, suc, ◌+◌, ◌-◌, ◌*◌, ◌/◌, ◌%◌, ◌^◌}
use Prim.Native.Char.{Char, code}
use Prim.Native.String.{String, [], ◌∷◌}
use mathlib.Core.Path.{◌≡◌, refl}
use mathlib.Core.Bool.{Bool, true, false, ◌||◌, ◌&&◌}
use mathlib.Core.Option.{Option, none, some}
use text.Mathlib.Text.{◌==◌}
use griffino_go.Base.Tests.{eqb, leb, if◌then◌else◌}
use griffino_go.Base.Int.{ℤ, pos, negsuc, neg}
use griffino_go.Base.Text.{◌<>◌}

abbrev pub is_digit : Char → Bool
is_digit c = leb b'0' (code c) && leb (code c) b'9'

digits_from : String → ℕ → Option ℕ
digits_from [] n = some n
digits_from (c ∷ s) n =
    let rest = digits_from s (n * 10 + (code c - b'0')) in if is_digit c then rest else none

unfoldable pub digits_value : String → Option ℕ
unfolding digits_from
digits_value [] = none
digits_value (c ∷ s) = digits_from (c ∷ s) 0

abbrev at_most : ℕ → (ℕ → ℤ) → Option ℕ → Option ℤ
at_most limit f none = none
at_most limit f (some n) = if leb n limit then some (f n) else none

-- `strconv.Atoi`: a sign, then at least one digit; an error out of the range of int64
unfoldable pub atoi : String → Option ℤ
unfolding digits_value
atoi [] = none
atoi (c ∷ s) =
    if eqb (code c) b'-'
    then at_most (2 ^ 63) neg (digits_value s)
    else if eqb (code c) b'+'
    then at_most (2 ^ 63 - 1) pos (digits_value s)
    else at_most (2 ^ 63 - 1) pos (digits_value (c ∷ s))

-- a digit, in base 16 as well
abbrev pub digit : ℕ → String
digit zero = "0"
digit (suc zero) = "1"
digit (suc (suc zero)) = "2"
digit (suc (suc (suc zero))) = "3"
digit (suc (suc (suc (suc zero)))) = "4"
digit (suc (suc (suc (suc (suc zero))))) = "5"
digit (suc (suc (suc (suc (suc (suc zero)))))) = "6"
digit (suc (suc (suc (suc (suc (suc (suc zero))))))) = "7"
digit (suc (suc (suc (suc (suc (suc (suc (suc zero)))))))) = "8"
digit (suc (suc (suc (suc (suc (suc (suc (suc (suc zero))))))))) = "9"
digit (suc (suc (suc (suc (suc (suc (suc (suc (suc (suc n)))))))))) =
    if eqb n 0
    then "a"
    else if eqb n 1
    then "b"
    else if eqb n 2
    then "c"
    else if eqb n 3
    then "d"
    else if eqb n 4
    then "e"
    else "f"

-- The digits of `n` in front of `out`; `n + 1` rounds are enough, each divides by ten.
unfoldable pub emit : ℕ → ℕ → String → String
emit zero n out = out
emit (suc f) n out =
    let longer = emit f (n / 10) (digit (n % 10) <> out) in
    if eqb (n / 10) 0 then digit (n % 10) <> out else longer

-- `strconv.Itoa`
unfoldable pub itoa : ℤ → String
unfolding emit
itoa (pos n) = emit (n + 1) n ""
itoa (negsuc n) = "-" <> emit (n + 2) (n + 1) ""

-- `strconv.ParseBool`
unfoldable pub parse_bool : String → Option Bool
parse_bool s =
    if s == "1" || s == "t" || s == "T" || s == "true" || s == "TRUE" || s == "True"
    then some true
    else if s == "0" || s == "f" || s == "F" || s == "false" || s == "FALSE" || s == "False"
    then some false
    else none

atoi_tests :
    (atoi "5672" ≡ some (pos 5672))
    × (atoi "-3" ≡ some (negsuc 2))
    × (atoi "" ≡ none)
    × (atoi "12x" ≡ none)
    × (atoi "+" ≡ none)
    × (atoi "9223372036854775808" ≡ none)
    × (atoi "-9223372036854775808" ≡ some (negsuc 9223372036854775807))
unfolding atoi
atoi_tests = (refl, refl, refl, refl, refl, refl, refl)

itoa_tests : (itoa (pos 0) ≡ "0") × (itoa (pos 60000) ≡ "60000") × (itoa (negsuc 11) ≡ "-12")
unfolding itoa
itoa_tests = (refl, refl, refl)
