-- ===== src/Base/Int.antt =====
-- Signed machine integers (`i8`, `i64`) as integers, with the comparisons that the code makes.
use Prim.Native.Nat.{ℕ, suc, ◌+◌}
use mathlib.Core.Bool.{Bool, not}
use ic_oss.Base.Tests.{ltb, ◌==◌}

-- `negsuc n` is -(n + 1).
pub data ℤ : Type 0 where
  pos : ℕ → ℤ
  negsuc : ℕ → ℤ

abbrev pub pos_part : ℤ → ℕ
pos_part (pos n) = n
pos_part (negsuc n) = 0

abbrev pub neg_part : ℤ → ℕ
neg_part (pos n) = 0
neg_part (negsuc n) = suc n

-- `a < b`
abbrev pub int_lt : ℤ → ℤ → Bool
int_lt a b = ltb (pos_part a + neg_part b) (pos_part b + neg_part a)

-- `a == b`
abbrev pub int_eq : ℤ → ℤ → Bool
int_eq a b = pos_part a + neg_part b == pos_part b + neg_part a

-- `a <= b`
abbrev pub int_le : ℤ → ℤ → Bool
int_le a b = not (int_lt b a)
