-- ===== src/Sys/Entry.antt =====
-- What a program finds where SYS_READDIR has stored an entry, and how results reach it.
use trs.Common.{
  ℕ, ◌+◌, ◌-◌, ◌≤◌, ◌<◌, ◌≡◌, ◌^◌, ap, arith, ◌⊎◌, ltb, u32, length, take, length-take, pos, negsuc,
  true, false,
}
use trs.Common.Memory.{Mem, store_le, store_list-outside}
use trs.Libc.Memory.{memset}
use trs.Libc.Memory.Compare.{memset_lem}
use trs.Sys.{DirInfo, int_of, reg_of, name_count, store_info}

-- An `int` that a call returns in a register is the `int` that the program reads from it.
pub int_of-reg_of :
    (n : ℕ)
    → n < 2 ^ 31
    → (int_of (reg_of (pos n)) ≡ pos n) × (int_of (reg_of (negsuc n)) ≡ negsuc n)
unfolding int_of reg_of
int_of-reg_of n h =
    let low : ltb (u32 n) (2 ^ 31) ≡ true = ground arith in
    let high : ltb (u32 (2 ^ 64 - 1 - n)) (2 ^ 31) ≡ false = ground arith in
    (
      rw low (ap pos {x = u32 n} {y = n} (omega arith)),
      rw high (ap negsuc {x = 2 ^ 32 - 1 - u32 (2 ^ 64 - 1 - n)} {y = n} (omega arith)),
    )

-- The stored entry stays inside its 44 bytes, and its name, of at most 32 bytes, ends with a zero
-- byte there.
pub store_info_lem :
    (m : Mem) (out : ℕ) (info : DirInfo)
    → (store_info m out info (out + 32) ≡ 0)
      × ((a : ℕ) → (a < out) ⊎ (out + 44 ≤ a) → store_info m out info a ≡ m a)
unfolding store_info store_le
store_info_lem m out info =
    let n = name_count info in
    let cleared = memset m out 0 33 in
    let short : length (take n info.name) ≤ 32 = ground (arith, length-take n info.name) in
    (
      ground (
        arith,
        store_list-outside cleared out (out + 32) (take n info.name) (omega arith),
        memset_lem m out 0 33 (out + 32),
      ),
      λ a p. ground (
        arith,
        store_list-outside cleared out a (take n info.name) (omega arith),
        memset_lem m out 0 33 a,
      ),
    )
