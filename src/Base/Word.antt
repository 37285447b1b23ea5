-- ===== src/Base/Word.antt =====
-- Go's fixed-width integers as native numbers: an `int64` is its two's-complement bit pattern.
use fuse.Base.Tests.{ltb, leb}
use Prim.Native.Nat.{ℕ, ◌+◌, ◌%◌, ◌^◌}
use mathlib.Core.Bool.{Bool}

abbrev pub two63 : ℕ
two63 = 2 ^ 63

abbrev pub two64 : ℕ
two64 = 2 ^ 64

-- Conversions to `uint64` and `uint32` keep the low bits.
abbrev pub u64 : ℕ → ℕ
u64 n = n % 2 ^ 64

abbrev pub u32 : ℕ → ℕ
u32 n = n % 2 ^ 32

-- The sign of an `int64`.
abbrev pub is_negative : ℕ → Bool
is_negative n = leb two63 n

-- `a < b` and `a <= b` between `int64`s: the sign bit is flipped and the patterns are compared.
abbrev pub signed_lt : ℕ → ℕ → Bool
signed_lt a b = ltb (u64 (a + two63)) (u64 (b + two63))

abbrev pub signed_le : ℕ → ℕ → Bool
signed_le a b = leb (u64 (a + two63)) (u64 (b + two63))
