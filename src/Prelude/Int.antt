-- ===== src/Prelude/Int.antt =====
-- Signed integers over the native numbers, and the fixed-width integers of the program.
use Prim.Native.Nat.{ℕ, suc, ◌+◌, ◌-◌, ◌%◌, ◌≤◌, ◌<◌}
use mathlib.Core.Path.{◌≡◌, refl}
use mathlib.Core.Logic.{◌⊎◌, inl, inr}
use native.Mathlib.Omega.{arith}
use fireactions.Prelude.Tests.{ltb, leb, if◌then◌else◌}

-- `negsuc n` is -(n + 1).
pub data ℤ : Type 0 where
  pos : ℕ → ℤ
  negsuc : ℕ → ℤ

abbrev pub pos_part : ℤ → ℕ
pos_part (pos n) = n
pos_part (negsuc n) = 0

abbrev pub neg_part : ℤ → ℕ
neg_part (pos n) = 0
neg_part (negsuc n) = suc n

-- a - b, as an integer.
abbrev pub sub_ℕ : ℕ → ℕ → ℤ
sub_ℕ a b = if leb b a then pos (a - b) else negsuc (b - a - 1)

infixl 65 ◌+ℤ◌ ◌-ℤ◌
infix 50 ◌≤ℤ◌
unfoldable pub ◌+ℤ◌ : ℤ → ℤ → ℤ
a +ℤ b = sub_ℕ (pos_part a + pos_part b) (neg_part a + neg_part b)

unfoldable pub ◌-ℤ◌ : ℤ → ℤ → ℤ
a -ℤ b = sub_ℕ (pos_part a + neg_part b) (neg_part a + pos_part b)

abbrev pub ◌≤ℤ◌ : ℤ → ℤ → Type 0
a ≤ℤ b = pos_part a + neg_part b ≤ pos_part b + neg_part a

pub +ℤ_parts :
    (a b : ℤ)
    → pos_part (a +ℤ b) + neg_part a + neg_part b ≡ neg_part (a +ℤ b) + pos_part a + pos_part b
unfolding ◌+ℤ◌
+ℤ_parts a b = ground arith

pub -ℤ_parts :
    (a b : ℤ)
    → pos_part (a -ℤ b) + neg_part a + pos_part b ≡ neg_part (a -ℤ b) + pos_part a + neg_part b
unfolding ◌-ℤ◌
-ℤ_parts a b = ground arith

pub eq_of_parts : (a b : ℤ) → pos_part a + neg_part b ≡ pos_part b + neg_part a → a ≡ b
eq_of_parts a b h = ground arith

-- An int32 is kept as its bit pattern, a number below 2 ^ 32.
abbrev pub wrap32 : ℕ → ℕ
wrap32 n = n % 4294967296

-- The integer that a pattern stands for.
unfoldable pub signed32 : ℕ → ℤ
signed32 w = if ltb w 2147483648 then pos w else negsuc (4294967296 - w - 1)

-- int32(x): the low 32 bits of the two's complement.
unfoldable pub to_int32 : ℤ → ℕ
to_int32 (pos n) = wrap32 n
to_int32 (negsuc n) = 4294967295 - wrap32 n

-- atomic.Int32's Add(1) and Add(-1).
abbrev pub inc32 : ℕ → ℕ
inc32 w = wrap32 (w + 1)

abbrev pub dec32 : ℕ → ℕ
dec32 w = wrap32 (w + 4294967295)

-- A count below 2 ^ 31 is read back as it is.
pub signed32-wrap32 : (n : ℕ) → n < 2147483648 → signed32 (wrap32 n) ≡ pos n
unfolding signed32
signed32-wrap32 n h = ground arith

-- An integer in the range of int32 survives the conversion and the reading.
pub signed32-to_int32 :
    (z : ℤ) → z ≤ℤ pos 2147483647 → negsuc 2147483647 ≤ℤ z → signed32 (to_int32 z) ≡ z
unfolding signed32 to_int32
signed32-to_int32 (pos n) h k = ground arith
signed32-to_int32 (negsuc n) h k = ground arith

pub parts_cases : (z : ℤ) → (pos_part z ≡ 0) ⊎ (neg_part z ≡ 0)
parts_cases (pos n) = inr refl
parts_cases (negsuc n) = inl refl
