-- ===== src/Common/Int.antt =====
-- C's `int` results: 0, counts, and the negative error codes, as integers over the native numbers.
use Prim.Native.Nat.{ℕ}

-- `negsuc n` is -(n + 1).
pub data ℤ : Type 0 where
  pos : ℕ → ℤ
  negsuc : ℕ → ℤ

-- `-1`, the code that most of the kernel's functions return on failure.
abbrev pub minus_one : ℤ
minus_one = negsuc 0
