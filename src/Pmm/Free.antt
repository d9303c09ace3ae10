-- ===== src/Pmm/Free.antt =====
-- `pmm_free_page` of kernel/memory_paging.c on every branch, and the page that it takes for used.
use trs.Common.{
  ℕ, ◌+◌, ◌-◌, ◌/◌, ◌^◌, ◌≤◌, ◌<◌, ◌≡◌, ◌≢◌, refl, ◌⊎◌, inl, inr, arith, ◌||◌, ◌==◌, ltb, leb,
  Bool-cases, if◌then◌else◌, u64,
}
use trs.Pmm.{Pmm, bitmap_clear, bitmap_test, pmm_free_page, page_size}
use trs.Pmm.Bitmap.{bit_at, IsBytes, bit_at-clear, IsBytes-clear, bitmap_test-zero, IsTestedWith}

-- What the call does once its guards have passed.
pub record Frees (p : ℕ) (s : Pmm) (t : Pmm) : Type 0 where
  pub tested : bitmap_test s p ≢ 0
  pub inside : p < s.total_pages
  pub bits : (q : ℕ) → bit_at t q ≡ (if p == q then 0 else bit_at s q)
  pub used : t.used_pages ≡ u64 (s.used_pages + (2 ^ 64 - 1))
  pub last : t.last_alloc ≡ (if ltb p s.last_alloc then p else s.last_alloc)
  pub bytes : IsBytes t
  pub place : (t.bitmap ≡ s.bitmap) × (t.total_pages ≡ s.total_pages)

-- Where memory holds bytes, `pmm_free_page` changes nothing if there is no bitmap, the page lies
-- past its end or the test sees it free; otherwise it clears the page's bit and no other, and
-- counts one used page less.
pub pmm_free_page_lem :
    (page : ℕ) (s : Pmm)
    → IsBytes s
    → (((s.bitmap ≡ 0)
          ⊎ (s.total_pages ≤ page / page_size)
          ⊎ (bitmap_test s (page / page_size) ≡ 0))
        × (pmm_free_page page s ≡ s))
      ⊎ Frees (page / page_size) s (pmm_free_page page s)
unfolding pmm_free_page bit_at
pmm_free_page_lem page s bytes =
    let p = page / page_size in
    elim (Bool-cases (s.bitmap == 0 || leb s.total_pages p || bitmap_test s p == 0)) [
      | inl e ↦ inl (ground arith, rw e)
      | inr e ↦ rw e (
          inr (record {
            tested = ground arith;
            inside = ground arith;
            bits = λ q. bit_at-clear s p q bytes;
            used = refl;
            last = refl;
            bytes = IsBytes-clear s p bytes;
            place = unfold bitmap_clear in (refl, refl);
          }))
    ]

-- Where memory holds bytes and there is a bitmap with the page, freeing a page that is free
-- already, while a later page of its byte is in use, changes no bit and yet counts one used page
-- less.
pub free_of_free_page :
    (page q : ℕ) (s : Pmm)
    → IsBytes s
    → s.bitmap ≢ 0
    → page / page_size < s.total_pages
    → bit_at s (page / page_size) ≡ 0
    → IsTestedWith (page / page_size) q
    → bit_at s q ≡ 1
    → ((r : ℕ) → bit_at (pmm_free_page page s) r ≡ bit_at s r)
      × ((pmm_free_page page s).used_pages ≡ u64 (s.used_pages + (2 ^ 64 - 1)))
free_of_free_page page q s bytes nb inside free byte used = elim (pmm_free_page_lem page s bytes) [
  | inl (why, same) ↦ absurd (elim why [
    | inl e ↦ nb e
    | inr (inl e) ↦ omega arith
    | inr (inr e) ↦ omega (arith, (bitmap_test-zero s (page / page_size) bytes).0 e q byte)
  ])
  | inr f ↦ (λ r. ground (arith, f.bits r), f.used)
]
