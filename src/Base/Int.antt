-- ===== src/Base/Int.antt =====
-- Signed integers over the native numbers, and the wrapping arithmetic of Go's int32.
use Prim.Native.Nat.{ℕ, suc, ◌+◌, ◌-◌, ◌%◌, ◌^◌, ◌≤◌, ◌<◌}
use mathlib.Core.Path.{◌≡◌}
use mathlib.Core.Bool.{Bool}
use native.Mathlib.Omega.{arith}
use karpenter_provider_huawe.Base.Tests.{ltb, leb, eqb, if◌then◌else◌}

-- `negsuc n` is -(n + 1).
pub data ℤ : Type 0 where
  pos : ℕ → ℤ
  negsuc : ℕ → ℤ

abbrev pub pos_part : ℤ → ℕ
pos_part (pos n) = n
pos_part (negsuc n) = 0

abbrev pub neg_part : ℤ → ℕ
neg_part (pos n) = 0
neg_part (negsuc n) = suc n

-- a - b, as an integer.
abbrev pub sub_ℕ : ℕ → ℕ → ℤ
sub_ℕ a b = if leb b a then pos (a - b) else negsuc (b - a - 1)

infixl 65 ◌+ℤ◌ ◌-ℤ◌
infix 50 ◌≤ℤ◌ ◌<ℤ◌
unfoldable pub ◌+ℤ◌ : ℤ → ℤ → ℤ
a +ℤ b = sub_ℕ (pos_part a + pos_part b) (neg_part a + neg_part b)

unfoldable pub ◌-ℤ◌ : ℤ → ℤ → ℤ
a -ℤ b = sub_ℕ (pos_part a + neg_part b) (neg_part a + pos_part b)

abbrev pub ◌≤ℤ◌ : ℤ → ℤ → Type 0
a ≤ℤ b = pos_part a + neg_part b ≤ pos_part b + neg_part a

abbrev pub ◌<ℤ◌ : ℤ → ℤ → Type 0
a <ℤ b = pos_part a + neg_part b < pos_part b + neg_part a

abbrev pub ltb_ℤ : ℤ → ℤ → Bool
ltb_ℤ a b = ltb (pos_part a + neg_part b) (pos_part b + neg_part a)

abbrev pub leb_ℤ : ℤ → ℤ → Bool
leb_ℤ a b = leb (pos_part a + neg_part b) (pos_part b + neg_part a)

abbrev pub eqb_ℤ : ℤ → ℤ → Bool
eqb_ℤ a b = eqb (pos_part a + neg_part b) (pos_part b + neg_part a)

pub +ℤ_parts :
    (a b : ℤ)
    → pos_part (a +ℤ b) + neg_part a + neg_part b ≡ neg_part (a +ℤ b) + pos_part a + pos_part b
unfolding ◌+ℤ◌
+ℤ_parts a b = ground arith

pub -ℤ_parts :
    (a b : ℤ)
    → pos_part (a -ℤ b) + neg_part a + pos_part b ≡ neg_part (a -ℤ b) + pos_part a + neg_part b
unfolding ◌-ℤ◌
-ℤ_parts a b = ground arith

pub eq_of_parts : (a b : ℤ) → pos_part a + neg_part b ≡ pos_part b + neg_part a → a ≡ b
eq_of_parts a b h = ground arith

pub ruleset int_laws = (arith, +ℤ_parts, -ℤ_parts, eq_of_parts)

-- The bit pattern of an integer in 32 bits, and the signed number that a pattern stands for.
abbrev bits32 : ℤ → ℕ
bits32 (pos n) = n % 2 ^ 32
bits32 (negsuc n) = 2 ^ 32 - 1 - n % 2 ^ 32

abbrev signed32 : ℕ → ℤ
signed32 w = if ltb w (2 ^ 31) then pos w else negsuc (2 ^ 32 - w - 1)

-- The conversion int32(z).
unfoldable pub wrap32 : ℤ → ℤ
wrap32 z = signed32 (bits32 z)

-- z is a value of type int32.
pub record IsInt32 (z : ℤ) : Type 0 where
  pub above : neg_part z ≤ 2 ^ 31
  pub below : pos_part z < 2 ^ 31

pub wrap32-IsInt32 : (z : ℤ) → IsInt32 (wrap32 z)
unfolding wrap32
wrap32-IsInt32 (pos n) = ground arith
wrap32-IsInt32 (negsuc n) = ground arith

pub wrap32_id : (z : ℤ) → IsInt32 z → wrap32 z ≡ z
unfolding wrap32
wrap32_id (pos n) h = ground arith
wrap32_id (negsuc n) h = ground arith

-- int32 subtraction and addition.
infixl 65 ◌-i32◌ ◌+i32◌
unfoldable pub ◌-i32◌ : ℤ → ℤ → ℤ
a -i32 b = wrap32 (a -ℤ b)

unfoldable pub ◌+i32◌ : ℤ → ℤ → ℤ
a +i32 b = wrap32 (a +ℤ b)

pub IsInt32-of_bounds :
    (z : ℤ) → neg_part z ≤ 2 ^ 31 + pos_part z → pos_part z < 2 ^ 31 + neg_part z → IsInt32 z
IsInt32-of_bounds (pos n) h k = omega arith
IsInt32-of_bounds (negsuc n) h k = omega arith

-- z is the sum of v and the number n, in parts that `omega` reads.
abbrev pub IsSum : ℤ → ℤ → ℕ → Type 0
IsSum z v n = pos_part z + neg_part v ≡ pos_part v + n + neg_part z

-- Where the difference and the sum fit in 32 bits, the wrapping operations are exact.
pub sub_exact :
    (a : ℤ) (k : ℕ) → IsInt32 a → neg_part a + k ≤ 2 ^ 31 + pos_part a → IsSum a (a -i32 pos k) k
unfolding ◌-i32◌
sub_exact a k h fits =
    rw
      (wrap32_id (a -ℤ pos k) (
        IsInt32-of_bounds _ (omega (int_laws, -ℤ_parts a (pos k)))
          (omega (int_laws, h.below, -ℤ_parts a (pos k)))))
      (omega (int_laws, -ℤ_parts a (pos k)))

pub add_exact :
    (a : ℤ) (k : ℕ) → IsInt32 a → pos_part a + k < 2 ^ 31 + neg_part a → IsSum (a +i32 pos k) a k
unfolding ◌+i32◌
add_exact a k h fits =
    rw
      (wrap32_id (a +ℤ pos k) (
        IsInt32-of_bounds _ (omega (int_laws, h.above, +ℤ_parts a (pos k)))
          (omega (int_laws, +ℤ_parts a (pos k)))))
      (omega (int_laws, +ℤ_parts a (pos k)))
