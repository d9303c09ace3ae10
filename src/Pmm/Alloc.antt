-- ===== src/Pmm/Alloc.antt =====
-- `pmm_alloc_pages` of kernel/memory_paging.c: what it takes, and that it finds what its test lets
-- it find.
use trs.Common.{
  ℕ, zero, suc, ◌+◌, ◌-◌, ◌*◌, ◌≤◌, ◌<◌, ◌≡◌, ◌≢◌, refl, ◌∙◌, ◌⊎◌, inl, inr, arith, Bool, false,
  ◌&&◌, ◌||◌, ◌==◌, ltb, leb, Bool-cases, Option-cases, if◌then◌else◌, Option, none, some, u64,
}
use trs.Pmm.{Pmm, bitmap_set, bitmap_test, set_pages, alloc_loop, pmm_alloc_pages, page_size}
use trs.Pmm.Bitmap.{bit_at, IsBytes, bit_at-set, IsBytes-set}

abbrev pub is_in : ℕ → ℕ → ℕ → Bool
is_in start n q = leb start q && ltb q (start + n)

-- `n` pages set one by one: exactly those bits are set, and nothing but memory changes.
pub set_pages_lem :
    (n p : ℕ) (s : Pmm)
    → IsBytes s
    → ((q : ℕ) → bit_at (set_pages n p s) q ≡ (if is_in p n q then 1 else bit_at s q))
      × IsBytes (set_pages n p s)
      × ((set_pages n p s).total_pages ≡ s.total_pages)
      × ((set_pages n p s).bitmap ≡ s.bitmap)
unfolding set_pages
set_pages_lem zero p s bytes = (λ q. ground arith, bytes, refl, refl)
set_pages_lem (suc n) p s bytes =
    let (bits, bytes', total, base) =
      set_pages_lem n (p + 1) (bitmap_set s p) (IsBytes-set s p bytes) in
    (
      λ q. ground (arith, bits q, bit_at-set s p q bytes),
      bytes',
      total ∙ total-set s p,
      base ∙ bitmap-set s p,
    )
  where
    total-set : (s : Pmm) (p : ℕ) → (bitmap_set s p).total_pages ≡ s.total_pages
    total-set s p = unfold bitmap_set in refl

    bitmap-set : (s : Pmm) (p : ℕ) → (bitmap_set s p).bitmap ≡ s.bitmap
    bitmap-set s p = unfold bitmap_set in refl

-- The pages from `start` on are free as the test sees it.
abbrev pub AllTestFree : Pmm → ℕ → ℕ → Type 0
AllTestFree s start n = (q : ℕ) → start ≤ q → q < start + n → bitmap_test s q ≡ 0

-- An allocation of `pages` pages from `start` on turns the state `s` into `t`.
pub record Allocates (pages : ℕ) (s : Pmm) (start : ℕ) (t : Pmm) : Type 0 where
  pub was_free : AllTestFree s start pages
  pub inside : start + pages ≤ s.total_pages
  pub bits : (q : ℕ) → bit_at t q ≡ (if is_in start pages q then 1 else bit_at s q)
  pub bytes : IsBytes t
  pub used : t.used_pages ≡ u64 (s.used_pages + pages)
  pub last : t.last_alloc ≡ start + pages
  pub total : t.total_pages ≡ s.total_pages
  pub place : t.bitmap ≡ s.bitmap

-- What the loop has seen when it comes to page `p`.
record IsScanned (s : Pmm) (p run start : ℕ) : Type 0 where
  seen : (run ≡ 0) ⊎ (start + run ≡ p)
  free : (q : ℕ) → p ≤ q + run → q < p → bitmap_test s q ≡ 0

data Gives (pages : ℕ) (s : Pmm) : Option (ℕ × Pmm) → Type 0 where
  none_left : Gives pages s none
  gives : {start : ℕ} {t : Pmm} → Allocates pages s start t → Gives pages s (some (start, t))

-- The state that the loop returns when a run is long enough.
abbrev marked : ℕ → ℕ → ℕ → ℕ → Pmm → Pmm
marked n start pages last s = record (set_pages n start s) {
  used_pages = u64 (s.used_pages + pages);
  last_alloc = last;
}

marked-Allocates :
    (n start pages last : ℕ) (s : Pmm)
    → IsBytes s
    → AllTestFree s start pages
    → start + pages ≤ s.total_pages
    → n ≡ pages
    → last ≡ start + pages
    → Allocates pages s start (marked n start pages last s)
unfolding bit_at
marked-Allocates n start pages last s bytes free inside e l =
    let (bits, bytes', total, base) = set_pages_lem n start s bytes in
    record {
      was_free = free;
      inside = inside;
      bits = λ q. rw (← e) (bits q);
      bytes = bytes';
      used = refl;
      last = l;
      total = total;
      place = base;
    }

alloc_loop-Gives :
    (left p run start pages : ℕ) (s : Pmm)
    → IsBytes s
    → p + left ≡ s.total_pages
    → run < pages
    → run ≤ p
    → IsScanned s p run start
    → Gives pages s (alloc_loop left p run start pages s)
unfolding alloc_loop
alloc_loop-Gives zero p run start pages s bytes e h i scan = none_left
alloc_loop-Gives (suc left) p run start pages s bytes e h i scan =
    elim (Bool-cases (bitmap_test s p == 0)) [
      | inl f ↦
          let st : ℕ = if run == 0 then p else start in
          let at : st + (run + 1) ≡ p + 1 = ground (arith, scan.seen) in
          let free_p : bitmap_test s p ≡ 0 = ground arith in
          let scan' : IsScanned s (p + 1) (run + 1) st = record {
            seen = inr at;
            free = λ q lo hi. ground (arith, scan.free q);
          } in
          elim (Bool-cases (run + 1 == pages)) [
            | inl g ↦
                let size : run + 1 ≡ pages = ground arith in
                rw (f, g)
                  (gives (
                    marked-Allocates (p + 1 - st) st pages (p + 1) s bytes
                      (λ q lo hi. scan'.free q (omega arith) (omega arith)) (omega arith)
                      (omega arith) (omega arith)))
            | inr g ↦
                rw (f, g)
                  (alloc_loop-Gives left (p + 1) (run + 1) st pages s bytes (omega arith)
                    (ground arith) (omega arith) scan')
          ]
      | inr f ↦ rw f (
          alloc_loop-Gives left (p + 1) 0 start pages s bytes (omega arith) (omega arith)
            (omega arith) (record { seen = inl refl; free = λ q lo hi. absurd (omega arith) }))
    ]

abbrev pointer : Pmm → Option (ℕ × Pmm) → ℕ × Pmm
pointer s o = elim o [ none ↦ (0, s) | some (start, t) ↦ (start * page_size, t) ]

Gives-pointer :
    {pages : ℕ} {s : Pmm} {o : Option (ℕ × Pmm)}
    → Gives pages s o
    → (pointer s o ≡ (0, s))
      ⊎ ((start : ℕ) × (t : Pmm) × (pointer s o ≡ (start * page_size, t))
          × Allocates pages s start t)
Gives-pointer none_left = inl refl
Gives-pointer (gives {start} {t} a) = inr (start, t, refl, a)

taken : {pages : ℕ} {s : Pmm} {r : ℕ × Pmm} → Gives pages s (some r) → Allocates pages s r.0 r.1
taken (gives a) = a

-- Where memory holds bytes, a call of `pmm_alloc_pages` changes nothing and returns NULL, or it
-- takes `pages` pages in a row, all of them free and below `total_pages`: it returns the address
-- of the first, marks exactly these pages, leaves every other bit alone and counts them as used.
pub pmm_alloc_pages_lem :
    (pages : ℕ) (s : Pmm)
    → IsBytes s
    → (pmm_alloc_pages pages s ≡ (0, s))
      ⊎ ((start : ℕ) × (t : Pmm) × (pmm_alloc_pages pages s ≡ (start * page_size, t))
          × Allocates pages s start t)
unfolding pmm_alloc_pages
pmm_alloc_pages_lem pages s bytes = elim (Bool-cases (s.bitmap == 0 || pages == 0)) [
  | inl e ↦ inl (rw e)
  | inr e ↦ rw e (
      Gives-pointer (
        alloc_loop-Gives s.total_pages 0 0 0 pages s bytes (omega arith) (ground arith)
          (omega arith) (record { seen = inl refl; free = λ q lo hi. absurd (omega arith) })))
]

-- The loop does not pass over a run that its test sees.
alloc_loop_finds :
    (left p run start pages w : ℕ) (s : Pmm)
    → p ≤ w + run
    → w + pages ≤ p + left
    → run < pages
    → AllTestFree s w pages
    → alloc_loop left p run start pages s ≢ none
unfolding alloc_loop
alloc_loop_finds zero p run start pages w s h k small free = absurd (omega arith)
alloc_loop_finds (suc left) p run start pages w s h k small free =
    elim (Bool-cases (bitmap_test s p == 0)) [
      | inl f ↦ elim (Bool-cases (run + 1 == pages)) [
        | inl g ↦ rw (f, g) (λ bad. cc)
        | inr g ↦
            rw (f, g)
              (alloc_loop_finds left (p + 1) (run + 1) (if run == 0 then p else start) pages w s
                (omega arith) (omega arith) (ground arith) free)
      ]
      | inr f ↦
          let outside : (w ≤ p) → (p < w + pages) → ⊥ = λ lo hi. ground (arith, free p lo hi) in
          rw f (
            alloc_loop_finds left (p + 1) 0 start pages w s (ground arith) (omega arith)
              (omega arith) free)
    ]

-- Where memory holds bytes, there is a bitmap, and some `pages` pages in a row, one at least, lie
-- below `total_pages` and the test sees all of them free, a call does not fail: it takes `pages`
-- pages, of which the first may come before these.
pub pmm_alloc_pages_succeeds :
    (pages w : ℕ) (s : Pmm)
    → IsBytes s
    → s.bitmap ≢ 0
    → pages ≢ 0
    → w + pages ≤ s.total_pages
    → AllTestFree s w pages
    → (start : ℕ) × (t : Pmm) × (pmm_alloc_pages pages s ≡ (start * page_size, t))
      × Allocates pages s start t
unfolding pmm_alloc_pages
pmm_alloc_pages_succeeds pages w s bytes nb np inside free =
    let runs : (s.bitmap == 0 || pages == 0) ≡ false = ground arith in
    let g =
      alloc_loop-Gives s.total_pages 0 0 0 pages s bytes (omega arith) (omega arith) (omega arith)
        (record { seen = inl refl; free = λ q lo hi. absurd (omega arith) }) in
    elim (Option-cases (alloc_loop s.total_pages 0 0 0 pages s)) [
      | inl e ↦ absurd (
          alloc_loop_finds s.total_pages 0 0 0 pages w s (omega arith) (omega arith) (omega arith)
            free e)
      | inr (r, e) ↦ rw (runs, e) (r.0, r.1, refl, taken (rw e at g))
    ]
