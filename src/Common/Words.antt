-- ===== src/Common/Words.antt =====
-- The wrap-around of C's unsigned types, and tests of a flag.
use Prim.Native.Nat.{ℕ, ◌%◌, ◌^◌, bit_and}
use mathlib.Core.Bool.{Bool, not}
use trs.Common.Tests.{◌==◌}

-- Conversions to `unsigned char`, `unsigned short`, `unsigned int` and `unsigned long long`.
abbrev pub u8 : ℕ → ℕ
u8 n = n % 2 ^ 8

abbrev pub u16 : ℕ → ℕ
u16 n = n % 2 ^ 16

abbrev pub u32 : ℕ → ℕ
u32 n = n % 2 ^ 32

abbrev pub u64 : ℕ → ℕ
u64 n = n % 2 ^ 64

-- C's test of a number, `if(n)`, and of a masked one, `if(n & mask)`.
abbrev pub nonzero : ℕ → Bool
nonzero n = not (n == 0)

abbrev pub has_bits : ℕ → ℕ → Bool
has_bits n mask = nonzero (bit_and n mask)
