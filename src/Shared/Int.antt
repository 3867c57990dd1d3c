-- ===== src/Shared/Int.antt =====
-- Signed integers over the native numbers: what the code holds in `i32`, `i64`, and, counted in
-- the smallest positive step of the format, in a finite `f32`.
use Prim.Native.Nat.{ℕ, suc, ◌+◌, ◌-◌, ◌≤◌, ◌<◌}
use mathlib.Core.Path.{◌≡◌}
use mathlib.Core.Bool.{Bool}
use native.Mathlib.Omega.{arith}
use cockatiel_engine_rs.Shared.Tests.{ltb, if◌then◌else◌}

-- `negsuc n` is -(n + 1).
pub data ℤ : Type 0 where
  pos : ℕ → ℤ
  negsuc : ℕ → ℤ

abbrev pub pos_part : ℤ → ℕ
pos_part (pos n) = n
pos_part (negsuc n) = 0

abbrev pub neg_part : ℤ → ℕ
neg_part (pos n) = 0
neg_part (negsuc n) = suc n

infix 50 ◌≤ℤ◌ ◌<ℤ◌
abbrev pub ◌≤ℤ◌ : ℤ → ℤ → Type 0
a ≤ℤ b = pos_part a + neg_part b ≤ pos_part b + neg_part a

abbrev pub ◌<ℤ◌ : ℤ → ℤ → Type 0
a <ℤ b = pos_part a + neg_part b < pos_part b + neg_part a

abbrev pub ltb_ℤ : ℤ → ℤ → Bool
ltb_ℤ a b = ltb (pos_part a + neg_part b) (pos_part b + neg_part a)

-- The `as i32` of a `u32`: the bit pattern read as two's complement.
unfoldable pub to_i32 : ℕ → ℤ
to_i32 n = if ltb n 0x80000000 then pos n else negsuc (0x100000000 - n - 1)

-- The `as u32` of an `i32`.
unfoldable pub to_u32 : ℤ → ℕ
to_u32 (pos n) = n
to_u32 (negsuc n) = 0x100000000 - suc n

pub to_u32-to_i32 : (n : ℕ) → n < 0x100000000 → to_u32 (to_i32 n) ≡ n
unfolding to_i32 to_u32
to_u32-to_i32 n h = ground arith
