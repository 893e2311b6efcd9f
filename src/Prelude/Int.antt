-- ===== src/Prelude/Int.antt =====
-- Signed integers over the native numbers, and the arithmetic of a 64-bit signed word.
use managed_serviceaccount.Prelude.Tests.{ltb, leb, if◌then◌else◌}
use Prim.Native.Nat.{ℕ, suc, ◌+◌, ◌-◌, ◌*◌, ◌/◌, ◌%◌, ◌^◌, ◌≤◌, ◌<◌}
use mathlib.Core.Path.{◌≡◌, refl}
use mathlib.Core.Bool.{Bool}
use native.Mathlib.Omega.{arith}

-- `negsuc n` is -(n + 1).
pub data ℤ : Type 0 where
  pos : ℕ → ℤ
  negsuc : ℕ → ℤ

abbrev pub pos_part : ℤ → ℕ
pos_part (pos n) = n
pos_part (negsuc n) = 0

abbrev pub neg_part : ℤ → ℕ
neg_part (pos n) = 0
neg_part (negsuc n) = suc n

-- a - b, as an integer.
abbrev pub sub_ℕ : ℕ → ℕ → ℤ
sub_ℕ a b = if leb b a then pos (a - b) else negsuc (b - a - 1)

infixl 65 ◌+ℤ◌ ◌-ℤ◌
infix 50 ◌≤ℤ◌ ◌<ℤ◌
unfoldable pub ◌+ℤ◌ : ℤ → ℤ → ℤ
a +ℤ b = sub_ℕ (pos_part a + pos_part b) (neg_part a + neg_part b)

unfoldable pub ◌-ℤ◌ : ℤ → ℤ → ℤ
a -ℤ b = sub_ℕ (pos_part a + neg_part b) (neg_part a + pos_part b)

-- a * k for a natural factor.
unfoldable pub scale : ℤ → ℕ → ℤ
scale a k = sub_ℕ (pos_part a * k) (neg_part a * k)

-- a / k for a natural divisor, rounded towards zero.
unfoldable pub quo : ℤ → ℕ → ℤ
quo a k = sub_ℕ (pos_part a / k) (neg_part a / k)

abbrev pub ◌≤ℤ◌ : ℤ → ℤ → Type 0
a ≤ℤ b = pos_part a + neg_part b ≤ pos_part b + neg_part a

abbrev pub ◌<ℤ◌ : ℤ → ℤ → Type 0
a <ℤ b = pos_part a + neg_part b < pos_part b + neg_part a

abbrev pub ltb_ℤ : ℤ → ℤ → Bool
ltb_ℤ a b = ltb (pos_part a + neg_part b) (pos_part b + neg_part a)

pub +ℤ_parts :
    (a b : ℤ)
    → pos_part (a +ℤ b) + neg_part a + neg_part b ≡ neg_part (a +ℤ b) + pos_part a + pos_part b
unfolding ◌+ℤ◌
+ℤ_parts a b = ground arith

pub -ℤ_parts :
    (a b : ℤ)
    → pos_part (a -ℤ b) + neg_part a + pos_part b ≡ neg_part (a -ℤ b) + pos_part a + neg_part b
unfolding ◌-ℤ◌
-ℤ_parts a b = ground arith

pub eq_of_parts : (a b : ℤ) → pos_part a + neg_part b ≡ pos_part b + neg_part a → a ≡ b
eq_of_parts a b h = ground arith

pub ruleset int_laws = (arith, +ℤ_parts, -ℤ_parts, eq_of_parts)

pub scale_pos : (n k : ℕ) → scale (pos n) k ≡ pos (n * k)
unfolding scale
scale_pos n k = ground arith

pub quo_pos : (n k : ℕ) → quo (pos n) k ≡ pos (n / k)
unfolding quo
quo_pos n k = ground arith

-- One more than the greatest value of a signed 64-bit word.
abbrev pub half64 : ℕ
half64 = 2 ^ 63

-- The values that a signed 64-bit word holds.
abbrev pub Fits64 : ℤ → Type 0
Fits64 a = (pos_part a < half64) × (neg_part a ≤ half64)

-- The remainder modulo 2^64, from 0 on.
unfoldable pub residue64 : ℤ → ℕ
residue64 (pos n) = n % 2 ^ 64
residue64 (negsuc n) = 2 ^ 64 - 1 - n % 2 ^ 64

-- What a signed 64-bit operation leaves of an exact result: wrap-around in two's complement.
unfoldable pub wrap64 : ℤ → ℤ
unfolding residue64
wrap64 a = let r = residue64 a in if ltb r half64 then pos r else negsuc (2 ^ 64 - 1 - r)

-- The nearest value that a signed 64-bit word holds.
unfoldable pub saturate64 : ℤ → ℤ
saturate64 (pos n) = if ltb n half64 then pos n else pos (half64 - 1)
saturate64 (negsuc n) = if ltb n half64 then negsuc n else negsuc (half64 - 1)

pub wrap64_id : (a : ℤ) → Fits64 a → wrap64 a ≡ a
unfolding wrap64
wrap64_id (pos n) h = ground arith
wrap64_id (negsuc n) h = ground arith

pub saturate64_id : (a : ℤ) → Fits64 a → saturate64 a ≡ a
unfolding saturate64
saturate64_id (pos n) h = ground arith
saturate64_id (negsuc n) h = ground arith

pub saturate64-Fits64 : (a : ℤ) → Fits64 (saturate64 a)
unfolding saturate64
saturate64-Fits64 (pos n) = ground arith
saturate64-Fits64 (negsuc n) = ground arith

wrap64_wraps : wrap64 (pos half64) ≡ negsuc (half64 - 1)
unfolding wrap64
wrap64_wraps = refl
