-- ===== src/Pmm/Init/Kept.antt =====
-- What `pmm_init` of kernel/memory_paging.c leaves, and that no caller ever holds what it reserves.
use trs.Common.{
  ℕ, zero, suc, ◌+◌, ◌-◌, ◌/◌, ◌^◌, ◌≤◌, ◌<◌, ◌≡◌, ◌≢◌, refl, sym, ◌∙◌, ap, inl, inr, arith, false,
  ltb, Bool-cases, u64, List, [], ◌∷◌,
}
use trs.BootInfo.{BootInfo}
use trs.Common.Memory.{Mem}
use trs.Libc.Memory.{memset}
use trs.Libc.Memory.Compare.{memset_lem}
use trs.Pmm.{Pmm, page_size, align_up, reserv_range, bitmap_clear, bitmap_test}
use trs.Pmm.Bitmap.{IsBytes, IsBytes-clear}
use trs.Pmm.Held.{is_held}
use trs.Pmm.Runs.{Owners, Run, IsSafe, IsOwned, run-IsOwned, page_of_byte}
use trs.Pmm.Init.{
  ready, pmm_init, build_bitmap, reserved_ranges, reserve_all, best_loop, max_addr_loop,
  clear_pages, clear_loop, desc_at, is_conventional,
}
use trs.Pmm.Init.Reserve.{
  align_up_lem, IsPageOf, IsReserved, here, there, reserv_range-Reserves, reserve_all-total,
  reserve_all-blocks,
}

clear_pages-IsBytes : (n p : ℕ) (s : Pmm) → IsBytes s → IsBytes (clear_pages n p s)
unfolding clear_pages
clear_pages-IsBytes zero p s bytes = bytes
clear_pages-IsBytes (suc n) p s bytes = elim (Bool-cases (ltb p s.total_pages)) [
  | inl e ↦ rw e (clear_pages-IsBytes n (p + 1) (bitmap_clear s p) (IsBytes-clear s p bytes))
  | inr e ↦ rw e bytes
]

clear_loop-IsBytes : (n i : ℕ) (bi : BootInfo) (s : Pmm) → IsBytes s → IsBytes (clear_loop n i bi s)
unfolding clear_loop
clear_loop-IsBytes zero i bi s bytes = bytes
clear_loop-IsBytes (suc n) i bi s bytes =
    let d = desc_at bi i s.mem in
    let first = d.phys / page_size in
    let cleared = clear_pages (u64 (first + d.pages) - first) first s in
    elim (Bool-cases (is_conventional d)) [
      | inl e ↦
          rw (e, clear_loop)
            (clear_loop-IsBytes n (i + 1) bi
              (record cleared { usable_pages = u64 (s.usable_pages + d.pages) })
              (clear_pages-IsBytes (u64 (first + d.pages) - first) first s bytes))
      | inr e ↦ rw (e, clear_loop) (clear_loop-IsBytes n (i + 1) bi s bytes)
    ]

pub build_bitmap-IsBytes :
    (bi : BootInfo) (count total base : ℕ) (s : Pmm)
    → IsBytes s
    → IsBytes (build_bitmap bi count total base s)
unfolding build_bitmap
build_bitmap-IsBytes bi count total base s bytes =
    clear_loop-IsBytes count 0 bi
      (record s {
        mem = memset s.mem base 0xff (align_up (u64 (total / 8 + 1)) page_size);
        bitmap = base;
        bitmap_bytes = align_up (u64 (total / 8 + 1)) page_size;
        total_pages = total;
      })
      λ a.
        ground
          (arith, bytes a, memset_lem s.mem base 0xff (align_up (u64 (total / 8 + 1)) page_size) a)

reserve_all-IsBytes : (ranges : List (ℕ × ℕ)) (s : Pmm) → IsBytes s → IsBytes (reserve_all ranges s)
unfolding reserve_all
reserve_all-IsBytes [] s bytes = bytes
reserve_all-IsBytes ((start, size) ∷ rest) s bytes =
    reserve_all-IsBytes rest (reserv_range start size s)
      (reserv_range-Reserves start size s bytes).bytes

-- The size and the place of the bitmap.
abbrev SamePlace : Pmm → Pmm → Type 0
SamePlace s t =
    (t.total_pages ≡ s.total_pages) × (t.bitmap ≡ s.bitmap) × (t.bitmap_bytes ≡ s.bitmap_bytes)

clear_pages-SamePlace : (n p : ℕ) (s : Pmm) → SamePlace s (clear_pages n p s)
unfolding clear_pages
clear_pages-SamePlace zero p s = (refl, refl, refl)
clear_pages-SamePlace (suc n) p s = elim (Bool-cases (ltb p s.total_pages)) [
  | inl e ↦
      let (a, b, c) = clear_pages-SamePlace n (p + 1) (bitmap_clear s p) in
      let (d, f, g) : SamePlace s (bitmap_clear s p) = unfold bitmap_clear in (refl, refl, refl) in
      rw e (a ∙ d, b ∙ f, c ∙ g)
  | inr e ↦ rw e (refl, refl, refl)
]

clear_loop-SamePlace : (n i : ℕ) (bi : BootInfo) (s : Pmm) → SamePlace s (clear_loop n i bi s)
unfolding clear_loop
clear_loop-SamePlace zero i bi s = (refl, refl, refl)
clear_loop-SamePlace (suc n) i bi s =
    let d = desc_at bi i s.mem in
    let first = d.phys / page_size in
    let cleared = clear_pages (u64 (first + d.pages) - first) first s in
    let (a, b, c) = clear_pages-SamePlace (u64 (first + d.pages) - first) first s in
    elim (Bool-cases (is_conventional d)) [
      | inl e ↦
          let (a', b', c') =
            clear_loop-SamePlace n (i + 1) bi
              (record cleared { usable_pages = u64 (s.usable_pages + d.pages) }) in
          rw (e, clear_loop) (a' ∙ a, b' ∙ b, c' ∙ c)
      | inr e ↦ rw (e, clear_loop) (clear_loop-SamePlace n (i + 1) bi s)
    ]

max_addr_loop_bound :
    (n i : ℕ) (bi : BootInfo) (m : Mem) (acc : ℕ)
    → acc < 2 ^ 64
    → max_addr_loop n i bi m acc < 2 ^ 64
unfolding max_addr_loop
max_addr_loop_bound zero i bi m acc h = h
max_addr_loop_bound (suc n) i bi m acc h = max_addr_loop_bound n (i + 1) bi m _ (ground arith)

-- Every page below `total_pages` has its bit inside the bitmap.
abbrev IsLargeEnough : Pmm → Type 0
IsLargeEnough s = s.total_pages / 8 + 1 ≤ s.bitmap_bytes

build_bitmap-IsLargeEnough :
    (bi : BootInfo) (count total base : ℕ) (s : Pmm)
    → total < 2 ^ 52
    → IsLargeEnough (build_bitmap bi count total base s)
unfolding build_bitmap
build_bitmap-IsLargeEnough bi count total base s h =
    let bytes = align_up (u64 (total / 8 + 1)) page_size in
    let s' : Pmm = record s {
      mem = memset s.mem base 0xff bytes;
      bitmap = base;
      bitmap_bytes = bytes;
      total_pages = total;
    } in
    let (a, b, c) = clear_loop-SamePlace count 0 bi s' in
    omega (arith, a, c, align_up_lem (u64 (total / 8 + 1)) (omega arith))

-- A result of `pmm_init` is a bitmap with the reservations made in it.
init_shape :
    (bi : BootInfo) (kernel_start kernel_end : ℕ) (s t : Pmm)
    → IsBytes s
    → pmm_init bi kernel_start kernel_end s ≡ ready t
    → (b : Pmm) × IsBytes b
      × IsLargeEnough b
      × (t ≡ reserve_all (reserved_ranges bi kernel_start kernel_end b) b)
unfolding pmm_init
init_shape bi ks ke s t bytes done =
    let count = bi.mmap_size / bi.mmap_dsize in
    let total = max_addr_loop count 0 bi s.mem 0 / page_size in
    let base = align_up (best_loop count 0 bi s.mem (0, 0)).0 page_size in
    (
      build_bitmap bi count total base s,
      build_bitmap-IsBytes bi count total base s bytes,
      build_bitmap-IsLargeEnough bi count total base s
          (omega (arith, max_addr_loop_bound count 0 bi s.mem 0 (omega arith))),
      ground arith,
    )

reserved_ranges_place :
    (bi : BootInfo) (kernel_start kernel_end : ℕ) (s t : Pmm)
    → t.bitmap ≡ s.bitmap
    → t.bitmap_bytes ≡ s.bitmap_bytes
    → reserved_ranges bi kernel_start kernel_end t ≡ reserved_ranges bi kernel_start kernel_end s
unfolding reserved_ranges
reserved_ranges_place bi ks ke s t e f = cc

-- What `pmm_init` leaves: memory holds bytes, the bitmap has a bit for each page, and the pages of
-- the reserved ranges are in use as the test sees it.
record Reserved (bi : BootInfo) (kernel_start kernel_end : ℕ) (t : Pmm) : Type 0 where
  bytes : IsBytes t
  large : IsLargeEnough t
  busy :
      (q : ℕ)
      → IsReserved q (reserved_ranges bi kernel_start kernel_end t)
      → q < t.total_pages
      → bitmap_test t q ≢ 0

init-Reserved :
    (bi : BootInfo) (kernel_start kernel_end : ℕ) (s t : Pmm)
    → IsBytes s
    → pmm_init bi kernel_start kernel_end s ≡ ready t
    → Reserved bi kernel_start kernel_end t
init-Reserved bi ks ke s t bytes done =
    let (b, b_bytes, large, e) = init_shape bi ks ke s t bytes done in
    let ranges = reserved_ranges bi ks ke b in
    let (total, base, size) = reserve_all-total ranges b b_bytes in
    let same =
      reserved_ranges_place bi ks ke b t (ap (λ x. x.bitmap) e ∙ base)
        (ap (λ x. x.bitmap_bytes) e ∙ size) in
    let total' = ap (λ x. x.total_pages) e in
    record {
      bytes = rw e (reserve_all-IsBytes ranges b b_bytes);
      large = omega (arith, large, total, size, total', ap (λ x. x.bitmap_bytes) e);
      busy = λ q r inside z.
          reserve_all-blocks q b (rw same at r) b_bytes (omega (arith, inside, total', total))
            (ap (λ x. bitmap_test x q) (sym e) ∙ z);
    }

-- A page that must stay out of every allocation: of the first megabyte, of the megabyte from 4 MB
-- on, of the kernel image, of the bitmap, of the framebuffer, of the 128 KB below the top of the
-- boot stack, or of the memory map.
pub data IsKept (bi : BootInfo) (kernel_start kernel_end : ℕ) (t : Pmm) (q : ℕ) : Type 0 where
  of_first_megabyte : IsPageOf q (0, 0x100000) → IsKept bi kernel_start kernel_end t q
  of_programs : IsPageOf q (0x400000, 0x100000) → IsKept bi kernel_start kernel_end t q
  of_kernel :
      IsPageOf q (kernel_start, kernel_end - kernel_start) → IsKept bi kernel_start kernel_end t q
  of_bitmap : IsPageOf q (t.bitmap, t.bitmap_bytes) → IsKept bi kernel_start kernel_end t q
  of_framebuffer : IsPageOf q (bi.fb.base, bi.fb.size) → IsKept bi kernel_start kernel_end t q
  of_stack :
      IsPageOf q (u64 (bi.stack_top + (2 ^ 64 - 0x20000)), 0x20000)
      → IsKept bi kernel_start kernel_end t q
  of_map : IsPageOf q (bi.mmap_addr, bi.mmap_size) → IsKept bi kernel_start kernel_end t q

IsKept-IsReserved :
    {bi : BootInfo} {kernel_start kernel_end : ℕ} {t : Pmm} {q : ℕ}
    → IsKept bi kernel_start kernel_end t q
    → IsReserved q (reserved_ranges bi kernel_start kernel_end t)
unfolding reserved_ranges
IsKept-IsReserved (of_first_megabyte p) = here p
IsKept-IsReserved (of_programs p) = there (here p)
IsKept-IsReserved (of_kernel p) = there (there (here p))
IsKept-IsReserved (of_bitmap p) = there (there (there (here p)))
IsKept-IsReserved (of_framebuffer p) = there (there (there (there (here p))))
IsKept-IsReserved (of_stack p) = there (there (there (there (there (here p)))))
IsKept-IsReserved (of_map p) = there (there (there (there (there (there (here p))))))

init-IsSafe :
    (bi : BootInfo) (kernel_start kernel_end : ℕ) (t : Pmm)
    → Reserved bi kernel_start kernel_end t
    → t.bitmap ≢ 0
    → t.bitmap + t.bitmap_bytes + 4096 ≤ 2 ^ 64
    → IsSafe t
init-IsSafe bi ks ke t r present room = record {
  bytes = r.bytes;
  present = present;
  null = λ h. r.busy 0 (IsKept-IsReserved (of_first_megabyte (omega arith, first_megabyte))) h;
  map = λ q lo hi.
      r.busy (page_of_byte t q)
        (IsKept-IsReserved (
          of_bitmap (
            omega arith,
            omega (
              arith,
              r.large,
              lo,
              room,
              align_up_lem (u64 (t.bitmap + t.bitmap_bytes)) (omega arith),
            ),
          )))
        hi;
}
  where
    first_megabyte : 0 < align_up (u64 (0 + 0x100000)) page_size / page_size
    first_megabyte = omega (arith, align_up_lem (u64 (0 + 0x100000)) (omega arith))

-- Where memory holds bytes, `pmm_init` got ready and put the bitmap at an address other than 0 that
-- leaves room for it and a page below 2^64: whatever allocations, frees of held pages and writes of
-- bytes into held pages follow, the callers hold no page twice and only pages that were free; the
-- bits of the pages they hold are set, all others are as `pmm_init` left them; and as many pages
-- more are counted as used. No caller ever holds a page of the first megabyte, of the megabyte that
-- programs are loaded to, of the kernel image, of the bitmap itself, of the framebuffer, of the boot
-- stack or of the memory map.
pub pmm_init-IsOwned :
    (bi : BootInfo) (kernel_start kernel_end : ℕ) (s t : Pmm) (w : Owners)
    → IsBytes s
    → pmm_init bi kernel_start kernel_end s ≡ ready t
    → t.bitmap ≢ 0
    → t.bitmap + t.bitmap_bytes + 4096 ≤ 2 ^ 64
    → Run (record { pmm = t; held = [] }) w
    → IsOwned t w × ((q : ℕ) → IsKept bi kernel_start kernel_end t q → is_held q w.held ≡ false)
pmm_init-IsOwned bi ks ke s t w bytes done present room run =
    let r = init-Reserved bi ks ke s t bytes done in
    let owned = run-IsOwned t (init-IsSafe bi ks ke t r present room) (at_start t r.bytes) run in
    (
      owned,
      λ q kept. elim (Bool-cases (is_held q w.held)) [
        | inr e ↦ e
        | inl e ↦
            let (inside, free) = owned.inside q e in
            absurd (r.busy q (IsKept-IsReserved kept) inside free)
      ],
    )
  where
    at_start : (t : Pmm) → IsBytes t → IsOwned t (record { pmm = t; held = [] })
    at_start t bytes = record {
      bytes = bytes;
      place = (refl, refl);
      bits = λ q lo. refl;
      inside = λ q h. absurd (ground arith);
      distinct = omega arith;
      used = omega arith;
    }
