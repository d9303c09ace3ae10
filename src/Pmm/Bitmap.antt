-- ===== src/Pmm/Bitmap.antt =====
-- The bits of the bitmap of kernel/memory_paging.c, and what its three accessors do to them.
use trs.Common.{
  ℕ, zero, suc, ◌+◌, ◌-◌, ◌*◌, ◌/◌, ◌%◌, ◌^◌, ◌≤◌, ◌<◌, ◌≡◌, refl, ap, ◌↔◌, inl, inr, arith, Bool,
  true, not, ◌||◌, ltb, ◌==◌, Bool-cases, if◌then◌else◌, bit_and, bit_or,
}
use trs.Common.Bits.{holds_below, holds_below_lem, bit_and_low}
use trs.Pmm.{Pmm, mask_of, bitmap_set, bitmap_clear, bitmap_test}

-- Bit `k` of a byte, and the bit of page `p`.
abbrev pub bit_of : ℕ → ℕ → ℕ
bit_of b k = b / 2 ^ k % 2

unfoldable pub bit_at : Pmm → ℕ → ℕ
bit_at s p = bit_of (s.mem (s.bitmap + p / 8)) (p % 8)

-- Memory holds bytes.
abbrev pub IsBytes : Pmm → Type 0
IsBytes s = (a : ℕ) → s.mem a < 256

-- All bytes and pairs of positions, checked by evaluation.
abbrev table : (ℕ → ℕ → ℕ → Bool) → Bool
table p = holds_below 256 (λ b. holds_below 8 (λ k. holds_below 8 (λ j. p b k j)))

abbrev or_ok : ℕ → ℕ → ℕ → Bool
or_ok b k j = bit_of (bit_or b (2 ^ k)) j == (if k == j then 1 else bit_of b j)

abbrev and_ok : ℕ → ℕ → ℕ → Bool
and_ok b k j = bit_of (bit_and b (255 - 2 ^ k)) j == (if k == j then 0 else bit_of b j)

abbrev byte_ok : ℕ → ℕ → ℕ → Bool
byte_ok b k j = (bit_or b (2 ^ k) / 256 + bit_and b (255 - 2 ^ k) / 256) == 0

or_table : table or_ok ≡ true
unfolding holds_below
or_table = refl

and_table : table and_ok ≡ true
unfolding holds_below
and_table = refl

byte_table : table byte_ok ≡ true
unfolding holds_below
byte_table = refl

table_sound :
    (p : ℕ → ℕ → ℕ → Bool) (b k j : ℕ) → table p ≡ true → b < 256 → k < 8 → j < 8 → p b k j ≡ true
table_sound p b k j t hb hk hj =
    holds_below_lem 8 (p b k) j
      (holds_below_lem 8 (λ k. holds_below 8 (p b k)) k
        (holds_below_lem 256 (λ b. holds_below 8 (λ k. holds_below 8 (p b k))) b t hb) hk)
      hj

mask_of_lem : (p : ℕ) → mask_of p ≡ 2 ^ (p % 8)
mask_of_lem p = ap (λ k. 2 ^ k) (bit_and_low 3 p)

-- Setting the bit of a page sets that bit and no other.
pub bit_at-set :
    (s : Pmm) (p q : ℕ) → IsBytes s → bit_at (bitmap_set s p) q ≡ (if p == q then 1 else bit_at s q)
unfolding bit_at bitmap_set
bit_at-set s p q bytes = rw (mask_of_lem p) (
    ground (
      arith,
      table_sound or_ok (s.mem (s.bitmap + p / 8)) (p % 8) (q % 8) or_table
          (bytes (s.bitmap + p / 8)),
    ))

-- Clearing the bit of a page clears that bit and no other.
pub bit_at-clear :
    (s : Pmm) (p q : ℕ)
    → IsBytes s
    → bit_at (bitmap_clear s p) q ≡ (if p == q then 0 else bit_at s q)
unfolding bit_at bitmap_clear
bit_at-clear s p q bytes = rw (mask_of_lem p) (
    ground (
      arith,
      table_sound and_ok (s.mem (s.bitmap + p / 8)) (p % 8) (q % 8) and_table
          (bytes (s.bitmap + p / 8)),
    ))

pub IsBytes-set : (s : Pmm) (p : ℕ) → IsBytes s → IsBytes (bitmap_set s p)
unfolding bitmap_set
IsBytes-set s p bytes a = rw (mask_of_lem p) (
    ground (
      arith,
      bytes a,
      table_sound byte_ok (s.mem (s.bitmap + p / 8)) (p % 8) 0 byte_table
          (bytes (s.bitmap + p / 8)),
    ))

pub IsBytes-clear : (s : Pmm) (p : ℕ) → IsBytes s → IsBytes (bitmap_clear s p)
unfolding bitmap_clear
IsBytes-clear s p bytes a = rw (mask_of_lem p) (
    ground (
      arith,
      bytes a,
      table_sound byte_ok (s.mem (s.bitmap + p / 8)) (p % 8) 0 byte_table
          (bytes (s.bitmap + p / 8)),
    ))

abbrev low_ok : ℕ → ℕ → ℕ → Bool
low_ok b k j = not (b / 2 ^ k == 0) || ltb j k || bit_of b j == 0

abbrev high_ok : ℕ → ℕ → ℕ → Bool
high_ok b k j = b / 2 ^ k == 0 || not (holds_below 8 (λ i. ltb i k || bit_of b i == 0))

low_table : table low_ok ≡ true
unfolding holds_below
low_table = refl

high_table : table high_ok ≡ true
unfolding holds_below
high_table = refl

holds_below_complete :
    (n : ℕ) (p : ℕ → Bool) → ((x : ℕ) → x < n → p x ≡ true) → holds_below n p ≡ true
unfolding holds_below
holds_below_complete zero p h = refl
holds_below_complete (suc n) p h =
    ground (arith, h n, holds_below_complete n p (λ x l. h x (omega arith)))

-- The pages of the same byte from `p` on, which the test of `p` looks at.
abbrev pub IsTestedWith : ℕ → ℕ → Type 0
IsTestedWith p q = (q / 8 ≡ p / 8) × (p ≤ q)

-- Where memory holds bytes, `bitmap_test` is 0 exactly when the page and all later pages of its
-- byte are free.
pub bitmap_test-zero :
    (s : Pmm) (p : ℕ)
    → IsBytes s
    → (bitmap_test s p ≡ 0) ↔ ((q : ℕ) → IsTestedWith p q → bit_at s q ≡ 0)
unfolding bit_at bitmap_test
bitmap_test-zero s p bytes = (there, back)
  where
    b : ℕ
    b = s.mem (s.bitmap + p / 8)

    there : bitmap_test s p ≡ 0 → (q : ℕ) → IsTestedWith p q → bit_at s q ≡ 0
    there h q (e, l) =
        let h' : b / 2 ^ (p % 8) ≡ 0 = rw (mask_of_lem p) at h in
        rw e (
          ground (arith, table_sound low_ok b (p % 8) (q % 8) low_table (bytes (s.bitmap + p / 8))))

    bits :
        ((q : ℕ) → IsTestedWith p q → bit_at s q ≡ 0)
        → (x : ℕ) → x < 8
        → (ltb x (p % 8) || bit_of b x == 0) ≡ true
    bits h x small = elim (Bool-cases (ltb x (p % 8))) [
      | inl e ↦ rw e
      | inr e ↦
          let same : (p / 8 * 8 + x) / 8 ≡ p / 8 = omega arith in
          let place : (p / 8 * 8 + x) % 8 ≡ x = omega arith in
          let later : p ≤ p / 8 * 8 + x = ground arith in
          let z : bit_of b x ≡ 0 = rw (same, place) at (h (p / 8 * 8 + x) (same, later)) in
          ground arith
    ]

    back : ((q : ℕ) → IsTestedWith p q → bit_at s q ≡ 0) → bitmap_test s p ≡ 0
    back h = rw (mask_of_lem p) (
        ground (
          arith,
          holds_below_complete 8 (λ i. ltb i (p % 8) || bit_of b i == 0) (bits h),
          table_sound high_ok b (p % 8) 0 high_table (bytes (s.bitmap + p / 8)),
        ))
