-- ===== src/Pmm/Init.antt =====
-- `pmm_init` of kernel/memory_paging.c. `kpanic` does not return: its calls end the function.
pub mod Reserve
pub mod Kept
use trs.Common.{
  ℕ, zero, suc, ◌+◌, ◌-◌, ◌*◌, ◌/◌, ◌^◌, Bool, true, false, not, ◌&&◌, ◌||◌, ◌==◌, ltb, leb,
  if◌then◌else◌, u64, List, [], ◌∷◌,
}
use trs.Common.Memory.{Mem}
use trs.Libc.Memory.{memset}
use trs.BootInfo.{BootInfo, MemDesc, Framebuffer, conventional_memory, load_desc}
use trs.Pmm.{Pmm, page_size, align_up, bitmap_clear, reserv_range}

pub data Panic : Type 0 where
  map_missing no_memory no_room : Panic

pub data InitResult : Type 0 where
  panicked : Panic → InitResult
  ready : Pmm → InitResult

unfoldable pub desc_at : BootInfo → ℕ → Mem → MemDesc
desc_at bi i m = load_desc m (u64 (bi.mmap_addr + i * bi.mmap_dsize))

abbrev pub is_conventional : MemDesc → Bool
is_conventional d = d.kind == conventional_memory

-- The first loop, over the `left` descriptors from `i` on.
unfoldable pub max_addr_loop : ℕ → ℕ → BootInfo → Mem → ℕ → ℕ
max_addr_loop zero i bi m max_addr = max_addr
max_addr_loop (suc left) i bi m max_addr =
    let d = desc_at bi i m in
    let last = u64 (d.phys + d.pages * page_size) in
    max_addr_loop left (i + 1) bi m
      (if is_conventional d && ltb max_addr last then last else max_addr)

-- The second loop: `best` and `best_pages`.
unfoldable pub best_loop : ℕ → ℕ → BootInfo → Mem → ℕ × ℕ → ℕ × ℕ
best_loop zero i bi m best = best
best_loop (suc left) i bi m best =
    let d = desc_at bi i m in
    best_loop left (i + 1) bi m
      (if is_conventional d && ltb best.1 d.pages then (d.phys, d.pages) else best)

-- `for(p = first; p < first + d->pages && p < total_pages; ++p) bitmap_clear(p);`
unfoldable pub clear_pages : ℕ → ℕ → Pmm → Pmm
clear_pages zero p s = s
clear_pages (suc left) p s =
    let rest = clear_pages left (p + 1) (bitmap_clear s p) in
    if ltb p s.total_pages then rest else s

-- The third loop.
unfoldable pub clear_loop : ℕ → ℕ → BootInfo → Pmm → Pmm
clear_loop zero i bi s = s
clear_loop (suc left) i bi s =
    let d = desc_at bi i s.mem in
    let first = d.phys / page_size in
    let cleared = clear_pages (u64 (first + d.pages) - first) first s in
    clear_loop left (i + 1) bi (
      if is_conventional d
      then record cleared { usable_pages = u64 (s.usable_pages + d.pages) }
      else s)

-- `start` and `size` of the calls of `reserv_range`, in their order.
unfoldable pub reserved_ranges : BootInfo → ℕ → ℕ → Pmm → List (ℕ × ℕ)
reserved_ranges bi kernel_start kernel_end s =
    (0, 0x100000)
    ∷ (0x400000, 0x100000)
    ∷ (kernel_start, kernel_end - kernel_start)
    ∷ (s.bitmap, s.bitmap_bytes)
    ∷ (bi.fb.base, bi.fb.size)
    ∷ (u64 (bi.stack_top + (2 ^ 64 - 128 * 1024)), 128 * 1024)
    ∷ (bi.mmap_addr, bi.mmap_size)
    ∷ (0x400000, 0x100000)
    ∷ []

unfoldable pub reserve_all : List (ℕ × ℕ) → Pmm → Pmm
reserve_all [] s = s
reserve_all ((start, size) ∷ rest) s = reserve_all rest (reserv_range start size s)

-- The bitmap filled with ones and cleared for the usable pages, before the reservations.
unfoldable pub build_bitmap : BootInfo → ℕ → ℕ → ℕ → Pmm → Pmm
build_bitmap bi count total base s =
    let bytes = align_up (u64 (total / 8 + 1)) page_size in
    clear_loop count 0 bi (record s {
      mem = memset s.mem base 0xff bytes;
      bitmap = base;
      bitmap_bytes = bytes;
      total_pages = total;
    })

unfoldable pub pmm_init : BootInfo → ℕ → ℕ → Pmm → InitResult
pmm_init bi kernel_start kernel_end s =
    let count = bi.mmap_size / bi.mmap_dsize in
    let max_addr = max_addr_loop count 0 bi s.mem 0 in
    let total = max_addr / page_size in
    let bytes = align_up (u64 (total / 8 + 1)) page_size in
    let (best, best_pages) = best_loop count 0 bi s.mem (0, 0) in
    let base = align_up best page_size in
    let built = build_bitmap bi count total base s in
    if bi.mmap_dsize == 0 || bi.mmap_size == 0
    then panicked map_missing
    else if max_addr == 0
    then panicked no_memory
    else if ltb (u64 (best + best_pages * page_size)) (u64 (base + bytes))
    then panicked no_room
    else ready (reserve_all (reserved_ranges bi kernel_start kernel_end built) built)
