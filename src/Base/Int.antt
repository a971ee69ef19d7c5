-- ===== src/Base/Int.antt =====
-- Integers over the native numbers, and the arithmetic of `i64` on them.
use Prim.Native.Nat.{ℕ, suc, ◌+◌, ◌-◌, ◌%◌, ◌≤◌, ◌<◌}
use mathlib.Core.Path.{◌≡◌}
use mathlib.Core.Bool.{Bool}
use native.Mathlib.Omega.{arith}
use dag_bft_sigmod.Base.Tests.{ltb, leb, if◌then◌else◌}

-- `negsuc n` is -(n + 1).
pub data ℤ : Type 0 where
  pos : ℕ → ℤ
  negsuc : ℕ → ℤ

abbrev pub pos_part : ℤ → ℕ
pos_part (pos n) = n
pos_part (negsuc n) = 0

abbrev pub neg_part : ℤ → ℕ
neg_part (pos n) = 0
neg_part (negsuc n) = suc n

abbrev pub sub_ℕ : ℕ → ℕ → ℤ
sub_ℕ a b = if leb b a then pos (a - b) else negsuc (b - a - 1)

infixl 65 ◌+ℤ◌ ◌-ℤ◌
infix 50 ◌≤ℤ◌
unfoldable pub ◌+ℤ◌ : ℤ → ℤ → ℤ
a +ℤ b = sub_ℕ (pos_part a + pos_part b) (neg_part a + neg_part b)

unfoldable pub ◌-ℤ◌ : ℤ → ℤ → ℤ
a -ℤ b = sub_ℕ (pos_part a + neg_part b) (neg_part a + pos_part b)

abbrev pub ◌≤ℤ◌ : ℤ → ℤ → Type 0
a ≤ℤ b = pos_part a + neg_part b ≤ pos_part b + neg_part a

abbrev pub ltb_ℤ : ℤ → ℤ → Bool
ltb_ℤ a b = ltb (pos_part a + neg_part b) (pos_part b + neg_part a)

pub +ℤ_parts :
    (a b : ℤ)
    → pos_part (a +ℤ b) + neg_part a + neg_part b ≡ neg_part (a +ℤ b) + pos_part a + pos_part b
unfolding ◌+ℤ◌
+ℤ_parts a b = ground arith

pub -ℤ_parts :
    (a b : ℤ)
    → pos_part (a -ℤ b) + neg_part a + pos_part b ≡ neg_part (a -ℤ b) + pos_part a + neg_part b
unfolding ◌-ℤ◌
-ℤ_parts a b = ground arith

pub eq_of_parts : (a b : ℤ) → pos_part a + neg_part b ≡ pos_part b + neg_part a → a ≡ b
eq_of_parts a b h = ground arith

-- The value is one of an `i64`.
abbrev pub FitsI64 : ℤ → Type 0
FitsI64 a = (pos_part a < 9223372036854775808) × (neg_part a ≤ 9223372036854775808)

-- The nearest `i64` (`saturating_add`, `saturating_sub`).
unfoldable pub saturate_i64 : ℤ → ℤ
saturate_i64 (pos n) = if ltb n 9223372036854775808 then pos n else pos 9223372036854775807
saturate_i64 (negsuc n) = if ltb n 9223372036854775808 then negsuc n else negsuc 9223372036854775807

-- The `i64` with the same 64 low bits: release builds have no overflow checks.
unfoldable pub wrap_i64 : ℤ → ℤ
wrap_i64 (pos n) =
    let r = n % 18446744073709551616 in
    if ltb r 9223372036854775808 then pos r else negsuc (18446744073709551615 - r)
wrap_i64 (negsuc n) =
    let r = n % 18446744073709551616 in
    if ltb r 9223372036854775808 then negsuc r else pos (18446744073709551615 - r)

pub saturate_i64-FitsI64 : (a : ℤ) → FitsI64 a → saturate_i64 a ≡ a
unfolding saturate_i64
saturate_i64-FitsI64 (pos n) h = ground arith
saturate_i64-FitsI64 (negsuc n) h = ground arith

pub wrap_i64-FitsI64 : (a : ℤ) → FitsI64 a → wrap_i64 a ≡ a
unfolding wrap_i64
wrap_i64-FitsI64 (pos n) h = ground arith
wrap_i64-FitsI64 (negsuc n) h = ground arith

pub FitsI64-saturate_i64 : (a : ℤ) → FitsI64 (saturate_i64 a)
unfolding saturate_i64
FitsI64-saturate_i64 (pos n) = ground arith
FitsI64-saturate_i64 (negsuc n) = ground arith

pub FitsI64-wrap_i64 : (a : ℤ) → FitsI64 (wrap_i64 a)
unfolding wrap_i64
FitsI64-wrap_i64 (pos n) = ground arith
FitsI64-wrap_i64 (negsuc n) = ground arith

pub ruleset int_laws = (arith, +ℤ_parts, -ℤ_parts, eq_of_parts)
