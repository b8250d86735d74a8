-- ===== src/Base/Decimal.antt =====
-- %d of fmt: the decimal digits of a number.
use Prim.Native.Nat.{ℕ, zero, suc, ◌/◌, ◌%◌}
use Prim.Native.Char.{Char}
use Prim.Native.String.{String}
use mathlib.Core.Bool.{true, false}
use karpenter_provider_huawe.Base.Int.{ℤ, pos, negsuc}
use karpenter_provider_huawe.Base.Tests.{ltb, eqb, if◌then◌else◌}

digit_char : ℕ → Char
digit_char d =
    if eqb d 0
    then "0"
    else if eqb d 1
    then "1"
    else if eqb d 2
    then "2"
    else if eqb d 3
    then "3"
    else if eqb d 4
    then "4"
    else if eqb d 5
    then "5"
    else if eqb d 6
    then "6"
    else if eqb d 7
    then "7"
    else if eqb d 8
    then "8"
    else "9"

-- The digits in front of `rest`. A number has fewer digits than its successor counts, so the fuel
-- of `decimal` is enough.
digits_before : ℕ → ℕ → String → String
unfolding digit_char
digits_before zero n rest = rest
digits_before (suc fuel) n rest = elim (ltb n 10) [
  | true ↦ String.◌∷◌ (digit_char n) rest
  | false ↦ digits_before fuel (n / 10) (String.◌∷◌ (digit_char (n % 10)) rest)
]

unfoldable pub decimal : ℕ → String
unfolding digits_before
decimal n = digits_before (suc n) n String.[]

-- %d of an integer with a sign.
unfoldable pub decimal_int : ℤ → String
unfolding decimal
decimal_int (pos n) = decimal n
decimal_int (negsuc n) = Prim.Native.String.◌++◌ "-" (decimal (suc n))
