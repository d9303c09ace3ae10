-- ===== src/Pmm/Runs.antt =====
-- Callers of kernel/memory_paging.c: what they hold over any sequence of allocations and frees, and
-- of writes into the pages that they hold.
use trs.Common.{
  ℕ, ◌+◌, ◌*◌, ◌/◌, ◌≤◌, ◌<◌, ◌≡◌, ◌≢◌, refl, sym, ◌∙◌, arith, true, false, ◌==◌, Bool-cases, inl,
  inr, if◌then◌else◌, List, length, u64,
}
use trs.Common.Memory.{store}
use trs.Pmm.{Pmm, page_size, bitmap_test, pmm_alloc_pages, pmm_free_page}
use trs.Pmm.Bitmap.{bit_at, IsBytes, bitmap_test-zero}
use trs.Pmm.Alloc.{Allocates, pmm_alloc_pages_lem}
use trs.Pmm.Free.{pmm_free_page_lem}
use trs.Pmm.Held.{
  is_held, IsDistinct, with_pages, without, is_held-with_pages, length-with_pages,
  IsDistinct-with_pages, is_held-without, IsDistinct-without, length-without,
}

-- The manager's state and the pages that its callers hold.
pub record Owners : Type 0 where
  pub pmm : Pmm
  pub held : List ℕ

-- A caller that gets a pointer other than NULL holds the pages from there on.
unfoldable pub acquire : ℕ → Owners → Owners
acquire pages w =
    let (pointer, s) = pmm_alloc_pages pages w.pmm in
    record {
      pmm = s;
      held = if pointer == 0 then w.held else with_pages pages (pointer / page_size) w.held;
    }

unfoldable pub release : ℕ → Owners → Owners
release pointer w = record {
  pmm = pmm_free_page pointer w.pmm;
  held = without (pointer / page_size) w.held;
}

unfoldable pub write : ℕ → ℕ → Owners → Owners
write a v w = record w { pmm = record w.pmm { mem = store w.pmm.mem a v } }

-- Callers free pages that they hold and write bytes to these.
pub data Step : Owners → Owners → Type 0 where
  acquires : (pages : ℕ) (w : Owners) → Step w (acquire pages w)
  releases :
      (pointer : ℕ) (w : Owners)
      → is_held (pointer / page_size) w.held ≡ true
      → Step w (release pointer w)
  writes :
      (a v : ℕ) (w : Owners)
      → is_held (a / page_size) w.held ≡ true
      → v < 256
      → Step w (write a v w)

pub data Run : Owners → Owners → Type 0 where
  ends : (w : Owners) → Run w w
  steps : {u v w : Owners} → Step u v → Run v w → Run u w

-- The page of the bitmap's byte for a page.
abbrev pub page_of_byte : Pmm → ℕ → ℕ
page_of_byte s q = (s.bitmap + q / 8) / page_size

-- A state to start from: page 0 and the bitmap's own pages are in use.
pub record IsSafe (s : Pmm) : Type 0 where
  pub bytes : IsBytes s
  pub present : s.bitmap ≢ 0
  pub null : 0 < s.total_pages → bitmap_test s 0 ≢ 0
  pub map :
      (q : ℕ)
      → q / 8 * 8 < s.total_pages
      → page_of_byte s q < s.total_pages
      → bitmap_test s (page_of_byte s q) ≢ 0

-- The callers hold pages that were free at the start, none of them twice; the bits of these are
-- set, all others are as at the start, and they are counted as used.
pub record IsOwned (s : Pmm) (w : Owners) : Type 0 where
  pub bytes : IsBytes w.pmm
  pub place : (w.pmm.bitmap ≡ s.bitmap) × (w.pmm.total_pages ≡ s.total_pages)
  pub bits :
      (q : ℕ)
      → q / 8 * 8 < s.total_pages
      → bit_at w.pmm q ≡ (if is_held q w.held then 1 else bit_at s q)
  pub inside : (q : ℕ) → is_held q w.held ≡ true → (q < s.total_pages) × (bitmap_test s q ≡ 0)
  pub distinct : IsDistinct w.held
  pub used : u64 w.pmm.used_pages ≡ u64 (s.used_pages + length w.held)

-- A page that the test sees free is held by nobody, and was free at the start.
free_page :
    (s : Pmm) (w : Owners) (q : ℕ)
    → IsBytes s
    → IsOwned s w
    → q < s.total_pages
    → bitmap_test w.pmm q ≡ 0
    → (is_held q w.held ≡ false) × (bitmap_test s q ≡ 0)
free_page s w q bytes o inside free =
    let zeros = (bitmap_test-zero w.pmm q o.bytes).0 free in
    (
      ground (arith, o.bits q (omega arith), zeros q (refl, omega arith)),
      (bitmap_test-zero s q bytes).1 λ r (same, later).
          ground (arith, o.bits r (omega (arith, inside, same)), zeros r (same, later)),
    )

acquire-Allocates :
    (s : Pmm) (w : Owners) (pages start : ℕ) (t : Pmm)
    → IsBytes s
    → IsOwned s w
    → Allocates pages w.pmm start t
    → IsOwned s (record { pmm = t; held = with_pages pages start w.held })
acquire-Allocates s w pages start t bytes o a = record {
  bytes = a.bytes;
  place = (a.place ∙ o.place.0, a.total ∙ o.place.1);
  bits = λ q lo. ground (arith, a.bits q, o.bits q lo, is_held-with_pages pages start q w.held);
  inside = λ q h.
      ground
        (arith, is_held-with_pages pages start q w.held, o.inside q, fresh q, a.inside, o.place.1);
  distinct = IsDistinct-with_pages pages start w.held (λ q lo hi. (fresh q lo hi).0) o.distinct;
  used = omega (arith, a.used, o.used, length-with_pages pages start w.held);
}
  where
    fresh :
        (q : ℕ) → start ≤ q → q < start + pages → (is_held q w.held ≡ false) × (bitmap_test s q ≡ 0)
    fresh q lo hi =
        free_page s w q bytes o (omega (arith, a.inside, o.place.1)) (a.was_free q lo hi)

acquire-IsOwned :
    (s : Pmm) (w : Owners) (pages : ℕ) → IsSafe s → IsOwned s w → IsOwned s (acquire pages w)
unfolding acquire
acquire-IsOwned s w pages safe o = elim (pmm_alloc_pages_lem pages w.pmm o.bytes) [
  | inl e ↦ rw e o
  | inr (start, t, e, a) ↦
      let taken = acquire-Allocates s w pages start t safe.bytes o a in
      let back : start * page_size / page_size ≡ start = omega arith in
      elim (Bool-cases (start * page_size == 0)) [
        | inr g ↦ rw (e, g, back) taken
        | inl g ↦
            let first : start ≡ 0 = ground arith in
            let none : pages ≡ 0 = null_pages s w pages start t safe o a first in
            rw (e, g) (rw none at taken)
      ]
]
  where
    null_pages :
        (s : Pmm) (w : Owners) (pages start : ℕ) (t : Pmm)
        → IsSafe s
        → IsOwned s w
        → Allocates pages w.pmm start t
        → start ≡ 0
        → pages ≡ 0
    null_pages s w pages start t safe o a z = elim (Bool-cases (pages == 0)) [
      | inl e ↦ ground arith
      | inr e ↦
          let some_page : 0 < s.total_pages = ground (arith, a.inside, o.place.1) in
          let free : bitmap_test w.pmm 0 ≡ 0 = a.was_free 0 (omega arith) (ground arith) in
          absurd (safe.null some_page (free_page s w 0 safe.bytes o some_page free).1)
    ]

release-IsOwned :
    (s : Pmm) (w : Owners) (pointer : ℕ)
    → IsSafe s
    → IsOwned s w
    → is_held (pointer / page_size) w.held ≡ true
    → IsOwned s (release pointer w)
unfolding release
release-IsOwned s w pointer safe o h =
    let p = pointer / page_size in
    let set : bit_at w.pmm p ≡ 1 = ground (arith, o.bits p, o.inside p) in
    elim (pmm_free_page_lem pointer w.pmm o.bytes) [
      | inl (why, same) ↦ absurd (elim why [
        | inl e ↦ safe.present (sym o.place.0 ∙ e)
        | inr (inl e) ↦ omega (arith, (o.inside p h).0, o.place.1)
        | inr (inr e) ↦
            omega (arith, set, (bitmap_test-zero w.pmm p o.bytes).0 e p (refl, omega arith))
      ])
      | inr f ↦ record {
        bytes = f.bytes;
        place = (f.place.0 ∙ o.place.0, f.place.1 ∙ o.place.1);
        bits = λ q lo.
            ground (arith, f.bits q, o.bits q lo, is_held-without p q w.held o.distinct, clear q);
        inside = λ q g. o.inside q (ground (arith, is_held-without p q w.held o.distinct));
        distinct = IsDistinct-without p w.held o.distinct;
        used = omega (arith, f.used, o.used, length-without p w.held h);
      }
    ]
  where
    clear : (q : ℕ) → is_held q w.held ≡ true → bit_at s q ≡ 0
    clear q g = (bitmap_test-zero s q safe.bytes).0 (o.inside q g).1 q (refl, omega arith)

write-IsOwned :
    (s : Pmm) (w : Owners) (a v : ℕ)
    → IsSafe s
    → IsOwned s w
    → is_held (a / page_size) w.held ≡ true
    → v < 256
    → IsOwned s (write a v w)
unfolding write bit_at
write-IsOwned s w a v safe o h small = record {
  bytes = λ b. ground (arith, o.bytes b);
  place = o.place;
  bits = λ q lo. ground (arith, o.bits q lo, o.inside (a / page_size) h, safe.map q lo, o.place.0);
  inside = o.inside;
  distinct = o.distinct;
  used = o.used;
}

-- Over any run from a safe state in which nobody holds a page, the callers hold pages that were
-- free at its start and none of them twice.
pub run-IsOwned : (s : Pmm) {v w : Owners} → IsSafe s → IsOwned s v → Run v w → IsOwned s w
run-IsOwned s safe o (ends w) = o
run-IsOwned s safe o (steps (acquires pages u) r) =
    run-IsOwned s safe (acquire-IsOwned s u pages safe o) r
run-IsOwned s safe o (steps (releases pointer u h) r) =
    run-IsOwned s safe (release-IsOwned s u pointer safe o h) r
run-IsOwned s safe o (steps (writes a v u h small) r) =
    run-IsOwned s safe (write-IsOwned s u a v safe o h small) r
