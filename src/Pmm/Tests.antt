-- ===== src/Pmm/Tests.antt =====
-- The theorems on the physical memory manager at concrete states.
use trs.Common.{
  ℕ, ◌+◌, ◌-◌, ◌*◌, ◌/◌, ◌^◌, ◌≤◌, ◌≡◌, refl, ◌⊎◌, arith, ◌==◌, if◌then◌else◌, u64, false, [], ◌∙◌,
  ◌↔◌,
}
use trs.Common.Memory.{Mem}
use trs.BootInfo.{BootInfo, load_desc, load_le}
use trs.Pmm.{
  Pmm, page_size, bitmap_test, pmm_alloc_pages, alloc_loop, pmm_free_page, align_up, bitmap_clear,
}
use trs.Pmm.Bitmap.{bit_at, IsBytes, IsTestedWith, bitmap_test-zero}
use trs.Pmm.Alloc.{Allocates, pmm_alloc_pages_lem, pmm_alloc_pages_succeeds}
use trs.Pmm.Free.{Frees, pmm_free_page_lem, free_of_free_page}
use trs.Pmm.Init.{
  ready, pmm_init, reserved_ranges, max_addr_loop, best_loop, desc_at, build_bitmap, reserve_all,
  clear_loop, clear_pages,
}
use trs.Libc.Memory.{memset}
use trs.Pmm.Init.Kept.{IsKept, build_bitmap-IsBytes, pmm_init-IsOwned}
use trs.Pmm.Init.Reserve.{reserve_all-total}
use trs.Pmm.Held.{is_held}
use trs.Pmm.Runs.{Owners, acquire, ends, steps, acquires, IsOwned}

-- Sixteen pages; the byte of the first eight is `bits`, that of the others is 0.
abbrev sixteen : ℕ → Pmm
sixteen bits = record {
  mem = λ a. if a == 100 then bits else 0;
  bitmap = 100;
  bitmap_bytes = 4096;
  total_pages = 16;
  used_pages = 1;
  usable_pages = 16;
  last_alloc = 0;
}

sixteen_two-IsBytes : IsBytes (sixteen 2)
sixteen_two-IsBytes a = ground arith

-- Three pages go behind page 1, though page 0 is free as well.
takes_from_two : (pmm_alloc_pages 3 (sixteen 2)).0 ≡ 2 * 4096
unfolding pmm_alloc_pages alloc_loop bitmap_test
takes_from_two = refl

bitmap_test-zero_example :
    (bitmap_test (sixteen 2) 0 ≡ 0) ↔ ((q : ℕ) → IsTestedWith 0 q → bit_at (sixteen 2) q ≡ 0)
bitmap_test-zero_example = bitmap_test-zero (sixteen 2) 0 sixteen_two-IsBytes

pmm_alloc_pages_lem_example :
    (pmm_alloc_pages 3 (sixteen 2) ≡ (0, sixteen 2))
    ⊎ ((start : ℕ) × (t : Pmm) × (pmm_alloc_pages 3 (sixteen 2) ≡ (start * page_size, t))
        × Allocates 3 (sixteen 2) start t)
pmm_alloc_pages_lem_example = pmm_alloc_pages_lem 3 (sixteen 2) sixteen_two-IsBytes

pmm_alloc_pages_succeeds_example :
    (start : ℕ) × (t : Pmm) × (pmm_alloc_pages 3 (sixteen 2) ≡ (start * page_size, t))
    × Allocates 3 (sixteen 2) start t
unfolding bitmap_test
pmm_alloc_pages_succeeds_example =
    pmm_alloc_pages_succeeds 3 8 (sixteen 2) sixteen_two-IsBytes (omega arith) (omega arith)
      (omega arith) λ q lo hi. ground arith

pmm_free_page_lem_example :
    ((((sixteen 2).bitmap ≡ 0)
        ⊎ (16 ≤ 4096 / page_size)
        ⊎ (bitmap_test (sixteen 2) (4096 / page_size) ≡ 0))
      × (pmm_free_page 4096 (sixteen 2) ≡ sixteen 2))
    ⊎ Frees (4096 / page_size) (sixteen 2) (pmm_free_page 4096 (sixteen 2))
pmm_free_page_lem_example = pmm_free_page_lem 4096 (sixteen 2) sixteen_two-IsBytes

free_of_free_page_example :
    ((r : ℕ) → bit_at (pmm_free_page 0 (sixteen 2)) r ≡ bit_at (sixteen 2) r)
    × ((pmm_free_page 0 (sixteen 2)).used_pages ≡ u64 (1 + (2 ^ 64 - 1)))
unfolding bit_at
free_of_free_page_example =
    free_of_free_page 0 1 (sixteen 2) sixteen_two-IsBytes (omega arith) (omega arith) refl
      (refl, omega arith) refl

-- One descriptor at 0x9000: 2048 pages of conventional memory from 0x100000 on.
abbrev map_memory : Mem
map_memory a = if a == 0x9000 then 7 else if a == 0x900a then 0x10 else if a == 0x9019 then 8 else 0

abbrev boot : BootInfo
boot = record {
  fb = record {
    base = 0xc0000000;
    size = 0x300000;
    width = 1024;
    height = 768;
    pitch = 4096;
    bpp = 32;
    rmask = 0xff0000;
    gmask = 0xff00;
    bmask = 0xff;
    reserved_mask = 0;
  };
  mmap_addr = 0x9000;
  mmap_size = 40;
  mmap_dsize = 40;
  stack_top = 0x80000;
}

abbrev at_boot : Pmm
at_boot = record {
  mem = map_memory;
  bitmap = 0;
  bitmap_bytes = 0;
  total_pages = 0;
  used_pages = 0;
  usable_pages = 0;
  last_alloc = 0;
}

abbrev built : Pmm
built = build_bitmap boot 1 2304 0x100000 at_boot

abbrev started : Pmm
started = reserve_all (reserved_ranges boot 0x100000 0x140000 built) built

starts : pmm_init boot 0x100000 0x140000 at_boot ≡ ready started
unfolding pmm_init max_addr_loop best_loop desc_at load_desc load_le align_up
starts = refl

-- The bitmap starts at 0x100000 and has one page.
built_place : (built.bitmap ≡ 0x100000) × (built.bitmap_bytes ≡ 4096)
unfolding build_bitmap clear_loop clear_pages desc_at load_desc load_le align_up bitmap_clear memset
built_place = (refl, refl)

started_place : (started.bitmap ≡ 0x100000) × (started.bitmap_bytes ≡ 4096)
started_place =
    let bytes = build_bitmap-IsBytes boot 1 2304 0x100000 at_boot (λ a. ground arith) in
    let (_, base, size) =
      reserve_all-total (reserved_ranges boot 0x100000 0x140000 built) built bytes in
    (base ∙ built_place.0, size ∙ built_place.1)

abbrev free_hands : Owners
free_hands = record { pmm = started; held = [] }

pmm_init-IsOwned_example :
    IsOwned started (acquire 3 free_hands)
    × ((q : ℕ)
        → IsKept boot 0x100000 0x140000 started q
        → is_held q (acquire 3 free_hands).held ≡ false)
unfolding reserved_ranges align_up
pmm_init-IsOwned_example =
    pmm_init-IsOwned boot 0x100000 0x140000 at_boot started (acquire 3 free_hands)
      (λ a. ground arith) starts (ground (arith, started_place)) (omega (arith, started_place))
      (steps (acquires 3 free_hands) (ends (acquire 3 free_hands)))
