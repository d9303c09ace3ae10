-- ===== src/Pmm/Init/Reserve.antt =====
-- What `pmm_init` of kernel/memory_paging.c reserves is out of reach of every allocation.
use trs.Common.{
  ℕ, zero, suc, ◌+◌, ◌-◌, ◌*◌, ◌/◌, ◌^◌, ◌≤◌, ◌<◌, ◌≡◌, ◌≢◌, refl, ◌∙◌, inl, inr, arith, ◌==◌, ltb,
  Bool-cases, if◌then◌else◌, u64, List, [], ◌∷◌,
}
use trs.Common.Bits.{bit_and_high, bit_and_low}
use trs.Pmm.{Pmm, page_size, align_up, bitmap_set, bitmap_test, reserve_loop, reserv_range}
use trs.Pmm.Bitmap.{bit_at, IsBytes, bit_at-set, IsBytes-set, bitmap_test-zero, IsTestedWith}
use trs.Pmm.Init.{reserve_all}

-- `align_up` to a page is the next multiple of the page size.
pub align_up_lem : (v : ℕ) → v + 4095 < 2 ^ 64 → align_up v page_size ≡ (v + 4095) / 4096 * 4096
unfolding align_up
align_up_lem v h = omega (
  arith,
  bit_and_high 12 (u64 (v + 4096 - 1)) (2 ^ 52 - 1),
  bit_and_low 52 (u64 (v + 4096 - 1) / 4096),
)

-- A page that the test sees in use is seen so after any bit is set.
set_keeps :
    (s : Pmm) (p q : ℕ) → IsBytes s → bitmap_test s q ≢ 0 → bitmap_test (bitmap_set s p) q ≢ 0
set_keeps s p q bytes used z = used (
    (bitmap_test-zero s q bytes).1
      λ r with_q. ground (arith, bit_at-set s p r bytes, zeros r with_q))
  where
    zeros : (r : ℕ) → IsTestedWith q r → bit_at (bitmap_set s p) r ≡ 0
    zeros = (bitmap_test-zero (bitmap_set s p) q (IsBytes-set s p bytes)).0 z

set_blocks : (s : Pmm) (p : ℕ) → IsBytes s → bitmap_test (bitmap_set s p) p ≢ 0
set_blocks s p bytes z = omega (
  arith,
  (bitmap_test-zero (bitmap_set s p) p (IsBytes-set s p bytes)).0 z p (refl, omega arith),
  one,
)
  where
    one : bit_at (bitmap_set s p) p ≡ 1
    one = ground (arith, bit_at-set s p p bytes)

-- The pages from `p` on, `n` of them, are in use after `t` as the test sees it, and so is all that
-- was in use before.
pub record Reserves (p n : ℕ) (s t : Pmm) : Type 0 where
  pub keeps : (q : ℕ) → bitmap_test s q ≢ 0 → bitmap_test t q ≢ 0
  pub blocks : (q : ℕ) → p ≤ q → q < p + n → q < s.total_pages → bitmap_test t q ≢ 0
  pub total : t.total_pages ≡ s.total_pages
  pub bytes : IsBytes t
  pub place : (t.bitmap ≡ s.bitmap) × (t.bitmap_bytes ≡ s.bitmap_bytes)

-- One turn of the loop.
abbrev turn : ℕ → Pmm → Pmm
turn p s =
    if bitmap_test s p == 0
    then record (bitmap_set s p) { used_pages = u64 (s.used_pages + 1) }
    else s

turn-Reserves : (p : ℕ) (s : Pmm) → IsBytes s → Reserves p 1 s (turn p s)
turn-Reserves p s bytes = elim (Bool-cases (bitmap_test s p == 0)) [
  | inl e ↦ rw e (record {
    keeps = λ q h. counted q (set_keeps s p q bytes h);
    blocks =
        λ q lo hi in_. let same : q ≡ p = omega arith in rw same (counted p (set_blocks s p bytes));
    total = unfold bitmap_set in refl;
    place = unfold bitmap_set in (refl, refl);
    bytes = IsBytes-set s p bytes;
  })
  | inr e ↦ rw e (record {
    keeps = λ q h. h;
    blocks = λ q lo hi in_ z. let same : q ≡ p = omega arith in ground (arith, rw same at z);
    total = refl;
    place = (refl, refl);
    bytes = bytes;
  })
]
  where
    counted :
        (q : ℕ)
        → bitmap_test (bitmap_set s p) q ≢ 0
        → bitmap_test (record (bitmap_set s p) { used_pages = u64 (s.used_pages + 1) }) q ≢ 0
    counted q h = unfold bitmap_test in h

reserve_loop-Reserves : (n p : ℕ) (s : Pmm) → IsBytes s → Reserves p n s (reserve_loop n p s)
unfolding reserve_loop
reserve_loop-Reserves zero p s bytes = record {
  keeps = λ q h. h;
  blocks = λ q lo hi in_. absurd (omega arith);
  total = refl;
  bytes = bytes;
  place = (refl, refl);
}
reserve_loop-Reserves (suc n) p s bytes = elim (Bool-cases (ltb p s.total_pages)) [
  | inl e ↦
      let first = turn-Reserves p s bytes in
      let rest = reserve_loop-Reserves n (p + 1) (turn p s) first.bytes in
      rw e (record {
        keeps = λ q h. rest.keeps q (first.keeps q h);
        blocks = λ q lo hi in_. elim (Bool-cases (q == p)) [
          | inl here ↦ rest.keeps q (first.blocks q lo (ground arith) in_)
          | inr later ↦ rest.blocks q (ground arith) (omega arith) (omega (arith, first.total))
        ];
        total = rest.total ∙ first.total;
        bytes = rest.bytes;
        place = (rest.place.0 ∙ first.place.0, rest.place.1 ∙ first.place.1);
      })
  | inr e ↦ rw e (record {
    keeps = λ q h. h;
    blocks = λ q lo hi in_. absurd (ground arith);
    total = refl;
    place = (refl, refl);
    bytes = bytes;
  })
]

-- The pages of a range, from the one it begins in to the one it ends in.
abbrev pub IsPageOf : ℕ → ℕ × ℕ → Type 0
IsPageOf q (start, size) =
    (start / page_size ≤ q) × (q < align_up (u64 (start + size)) page_size / page_size)

pub reserv_range-Reserves :
    (start size : ℕ) (s : Pmm)
    → IsBytes s
    → let first = start / page_size in
      Reserves first
        (align_up (u64 (start + size)) page_size / page_size - first)
        s
        (reserv_range start size s)
unfolding reserv_range
reserv_range-Reserves start size s bytes = reserve_loop-Reserves _ _ s bytes

-- One of a list of ranges has the page.
pub data IsReserved (q : ℕ) : List (ℕ × ℕ) → Type 0 where
  here : {r : ℕ × ℕ} {rest : List (ℕ × ℕ)} → IsPageOf q r → IsReserved q (r ∷ rest)
  there : {r : ℕ × ℕ} {rest : List (ℕ × ℕ)} → IsReserved q rest → IsReserved q (r ∷ rest)

reserve_all-keeps :
    (ranges : List (ℕ × ℕ)) (s : Pmm) (q : ℕ)
    → IsBytes s
    → bitmap_test s q ≢ 0
    → bitmap_test (reserve_all ranges s) q ≢ 0
unfolding reserve_all
reserve_all-keeps [] s q bytes h = h
reserve_all-keeps ((start, size) ∷ rest) s q bytes h =
    let r = reserv_range-Reserves start size s bytes in
    reserve_all-keeps rest (reserv_range start size s) q r.bytes (r.keeps q h)

pub reserve_all-blocks :
    (q : ℕ) {ranges : List (ℕ × ℕ)} (s : Pmm)
    → IsReserved q ranges
    → IsBytes s
    → q < s.total_pages
    → bitmap_test (reserve_all ranges s) q ≢ 0
unfolding reserve_all
reserve_all-blocks q s (here {r = (start, size)} {rest} p) bytes inside =
    let r = reserv_range-Reserves start size s bytes in
    reserve_all-keeps rest (reserv_range start size s) q r.bytes
      (r.blocks q p.0 (omega (arith, p.0, p.1)) inside)
reserve_all-blocks q s (there {r = (start, size)} p) bytes inside =
    let r = reserv_range-Reserves start size s bytes in
    reserve_all-blocks q (reserv_range start size s) p r.bytes (omega (arith, r.total))

-- The reservations leave the size and the place of the bitmap.
pub reserve_all-total :
    (ranges : List (ℕ × ℕ)) (s : Pmm)
    → IsBytes s
    → let t = reserve_all ranges s in
      (t.total_pages ≡ s.total_pages) × (t.bitmap ≡ s.bitmap) × (t.bitmap_bytes ≡ s.bitmap_bytes)
unfolding reserve_all
reserve_all-total [] s bytes = (refl, refl, refl)
reserve_all-total ((start, size) ∷ rest) s bytes =
    let r = reserv_range-Reserves start size s bytes in
    let (e, f, g) = reserve_all-total rest (reserv_range start size s) r.bytes in
    (e ∙ r.total, f ∙ r.place.0, g ∙ r.place.1)
