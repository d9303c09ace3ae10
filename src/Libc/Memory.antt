-- ===== src/Libc/Memory.antt =====
-- memset, memcpy, memmove and memcmp of libc/string.c over byte-addressed memory.
-- Addresses are plain numbers: an object does not reach past the end of the address space.
pub mod Moved
pub mod Copy
pub mod Compare
use trs.Common.{
  ℕ, zero, suc, ◌+◌, ◌-◌, Bool, not, ◌&&◌, ◌==◌, ltb, leb, if◌then◌else◌, bit_and, u8, ℤ, pos,
  negsuc,
}
use trs.Common.Memory.{Mem, store}

-- `while(len--) *d++ = (unsigned char)val;`
unfoldable pub memset : Mem → ℕ → ℕ → ℕ → Mem
memset m dst val zero = m
memset m dst val (suc len) = memset (store m dst (u8 val)) (dst + 1) val len

-- `*d = *s` of a byte and of an aligned `uint32_t`: four bytes are read, then written.
abbrev pub copy_byte : Mem → ℕ → ℕ → Mem
copy_byte m d s = store m d (m s)

abbrev pub copy_word : Mem → ℕ → ℕ → Mem
copy_word m d s =
    store (store (store (store m d (m s)) (d + 1) (m (s + 1))) (d + 2) (m (s + 2))) (d + 3)
      (m (s + 3))

-- The eight assignments of the unrolled loop.
unfoldable pub copy_words : ℕ → Mem → ℕ → ℕ → Mem
copy_words zero m d s = m
copy_words (suc n) m d s = copy_words n (copy_word m d s) (d + 4) (s + 4)

-- Where a loop of `memcpy` stands.
pub record Cursor : Type 0 where
  pub mem : Mem
  pub d : ℕ
  pub s : ℕ
  pub len : ℕ

abbrev pub is_aligned : ℕ → Bool
is_aligned a = bit_and a 3 == 0

-- `k` bytes further on.
abbrev pub advance : ℕ → Mem → Cursor → Cursor
advance k m c = record { mem = m; d = c.d + k; s = c.s + k; len = c.len - k }

-- `while(len > 0 && ((uintptr_t)d & 3) != 0)`; the first number bounds the turns.
unfoldable pub align_loop : ℕ → Cursor → Cursor
align_loop zero c = c
align_loop (suc fuel) c =
    let rest = align_loop fuel (advance 1 (copy_byte c.mem c.d c.s) c) in
    if ltb 0 c.len && not (is_aligned c.d) then rest else c

-- `while(len >= 32 && s_is_aligned)`
unfoldable pub block_loop : ℕ → Bool → Cursor → Cursor
block_loop zero s_is_aligned c = c
block_loop (suc fuel) s_is_aligned c =
    let rest = block_loop fuel s_is_aligned (advance 32 (copy_words 8 c.mem c.d c.s) c) in
    if leb 32 c.len && s_is_aligned then rest else c

-- `while(len >= 4 && s_is_aligned)`
unfoldable pub word_loop : ℕ → Bool → Cursor → Cursor
word_loop zero s_is_aligned c = c
word_loop (suc fuel) s_is_aligned c =
    let rest = word_loop fuel s_is_aligned (advance 4 (copy_word c.mem c.d c.s) c) in
    if leb 4 c.len && s_is_aligned then rest else c

-- `while(len > 0)`
unfoldable pub byte_loop : ℕ → Cursor → Cursor
byte_loop zero c = c
byte_loop (suc fuel) c =
    let rest = byte_loop fuel (advance 1 (copy_byte c.mem c.d c.s) c) in
    if ltb 0 c.len then rest else c

-- Every turn of a loop copies a byte at least, so `len` turns are enough for each.
unfoldable pub memcpy : Mem → ℕ → ℕ → ℕ → Mem
memcpy m dst src len =
    let c = align_loop len (record { mem = m; d = dst; s = src; len = len }) in
    let s_is_aligned = is_aligned c.s in
    (byte_loop len (word_loop len s_is_aligned (block_loop len s_is_aligned c))).mem

-- `while(len--) *--d = *--s;` where `d` and `s` began `len` bytes further on.
unfoldable pub copy_back : Mem → ℕ → ℕ → ℕ → Mem
copy_back m d s zero = m
copy_back m d s (suc len) = copy_back (copy_byte m (d + len) (s + len)) d s len

unfoldable pub memmove : Mem → ℕ → ℕ → ℕ → Mem
memmove m dst src len =
    if ltb src dst then copy_back m dst src len else if ltb dst src then memcpy m dst src len else m

-- `*first - *second`, an `int`.
abbrev pub byte_difference : ℕ → ℕ → ℤ
byte_difference a b = if leb b a then pos (a - b) else negsuc (b - a - 1)

unfoldable pub memcmp : Mem → ℕ → ℕ → ℕ → ℤ
memcmp m first second zero = pos 0
memcmp m first second (suc len) =
    let rest = memcmp m (first + 1) (second + 1) len in
    if m first == m second then rest else byte_difference (m first) (m second)
