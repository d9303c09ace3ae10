-- ===== src/Pmm.antt =====
-- kernel/memory_paging.c: the physical memory manager, a bitmap with a bit for each page.
-- The bitmap lies in physical memory, at the address `bitmap` (0 while it is NULL). A set bit is a
-- page in use. The kernel image's ends come from the linker and are arguments of `pmm_init`.
pub mod Bitmap
pub mod Alloc
pub mod Free
pub mod Held
pub mod Runs
pub mod Init
pub mod Tests
use trs.Common.{
  ℕ, zero, suc, ◌+◌, ◌-◌, ◌*◌, ◌/◌, ◌^◌, Bool, true, false, not, ◌&&◌, ◌||◌, Option, none, some,
  ◌==◌, ltb, leb, if◌then◌else◌, bit_and, bit_or, u8, u64, nonzero, List, [], ◌∷◌,
}
use trs.Common.Memory.{Mem, store}
use trs.Libc.Memory.{memset}

abbrev pub page_size : ℕ
page_size = 4096

-- The file's static variables, and the memory that the bitmap lies in.
pub record Pmm : Type 0 where
  pub mem : Mem
  pub bitmap : ℕ
  pub bitmap_bytes : ℕ
  pub total_pages : ℕ
  pub used_pages : ℕ
  pub usable_pages : ℕ
  pub last_alloc : ℕ

-- `bitmap[p >> 3]`, `1u << (p & 7)`
abbrev pub byte_address : Pmm → ℕ → ℕ
byte_address s p = s.bitmap + p / 2 ^ 3

abbrev pub mask_of : ℕ → ℕ
mask_of p = 2 ^ bit_and p 7

unfoldable pub bitmap_set : Pmm → ℕ → Pmm
bitmap_set s p = record s {
  mem = store s.mem (byte_address s p) (bit_or (s.mem (byte_address s p)) (mask_of p));
}

unfoldable pub bitmap_clear : Pmm → ℕ → Pmm
bitmap_clear s p = record s {
  mem = store s.mem (byte_address s p) (bit_and (s.mem (byte_address s p)) (255 - mask_of p));
}

-- The whole rest of the byte from bit `p & 7` on, as the source returns it.
unfoldable pub bitmap_test : Pmm → ℕ → ℕ
bitmap_test s p = s.mem (byte_address s p) / mask_of p

-- `(v + a - 1) & ~(a - 1)`
unfoldable pub align_up : ℕ → ℕ → ℕ
align_up v a = bit_and (u64 (v + a - 1)) (2 ^ 64 - 1 - (a - 1))

-- The loop of `reserv_range`, over the pages left from `p` to `last`.
unfoldable pub reserve_loop : ℕ → ℕ → Pmm → Pmm
reserve_loop zero p s = s
reserve_loop (suc left) p s =
    let s' =
      if bitmap_test s p == 0
      then record (bitmap_set s p) { used_pages = u64 (s.used_pages + 1) }
      else s in
    let rest = reserve_loop left (p + 1) s' in if ltb p s.total_pages then rest else s

unfoldable pub reserv_range : ℕ → ℕ → Pmm → Pmm
reserv_range start size s =
    let first = start / page_size in
    let last = align_up (u64 (start + size)) page_size / page_size in
    reserve_loop (last - first) first s

-- The marking loop of an allocation: `n` pages from `p` on.
unfoldable pub set_pages : ℕ → ℕ → Pmm → Pmm
set_pages zero p s = s
set_pages (suc n) p s = set_pages n (p + 1) (bitmap_set s p)

-- The loop of `pmm_alloc_pages`: `left` pages to visit from `p` on, a free run of `run` pages that
-- began at `start`. The first page of the allocation and the new state, if there is one.
unfoldable pub alloc_loop : ℕ → ℕ → ℕ → ℕ → ℕ → Pmm → Option (ℕ × Pmm)
alloc_loop zero p run start pages s = none
alloc_loop (suc left) p run start pages s =
    let is_free = bitmap_test s p == 0 in
    let start' = if is_free && run == 0 then p else start in
    let run' = if is_free then run + 1 else 0 in
    let rest = alloc_loop left (p + 1) run' start' pages s in
    if is_free && run' == pages
    then some (
      start',
      record (set_pages (p + 1 - start') start' s) {
        used_pages = u64 (s.used_pages + pages);
        last_alloc = p + 1;
      },
    )
    else rest

-- The pointer, 0 for NULL, and the new state.
unfoldable pub pmm_alloc_pages : ℕ → Pmm → ℕ × Pmm
pmm_alloc_pages pages s =
    if s.bitmap == 0 || pages == 0 then (0, s) else elim (alloc_loop s.total_pages 0 0 0 pages s) [
      | none ↦ (0, s)
      | some (start, s') ↦ (start * page_size, s')
    ]

unfoldable pub pmm_free_page : ℕ → Pmm → Pmm
pmm_free_page page s =
    let p = page / page_size in
    if s.bitmap == 0 || leb s.total_pages p || bitmap_test s p == 0
    then s
    else record (bitmap_clear s p) {
      used_pages = u64 (s.used_pages + (2 ^ 64 - 1));
      last_alloc = if ltb p s.last_alloc then p else s.last_alloc;
    }

unfoldable pub pmm_usable_pages : Pmm → ℕ
pmm_usable_pages s = s.usable_pages

unfoldable pub pmm_used_pages : Pmm → ℕ
pmm_used_pages s = s.used_pages
