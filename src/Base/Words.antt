-- ===== src/Base/Words.antt =====
-- Machine integers as numbers below a power of two. The canisters run on a 32-bit target, so a
-- `usize` has 32 bits there.
use Prim.Native.Nat.{ℕ, ◌+◌, ◌%◌, min}

abbrev pub u32_max : ℕ
u32_max = 4294967295

abbrev pub usize_max : ℕ
usize_max = 4294967295

-- `a + b` on `u32` and `usize`, where overflow wraps around.
abbrev pub add_u32 : ℕ → ℕ → ℕ
add_u32 a b = (a + b) % 4294967296

-- `a + b` on `u64`
abbrev pub add_u64 : ℕ → ℕ → ℕ
add_u64 a b = (a + b) % 18446744073709551616

-- `a.saturating_add(b)` on `u32`
abbrev pub saturating_add_u32 : ℕ → ℕ → ℕ
saturating_add_u32 a b = min (a + b) u32_max
