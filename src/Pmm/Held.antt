-- ===== src/Pmm/Held.antt =====
-- Lists of pages that callers hold.
use trs.Common.{
  ℕ, zero, suc, ◌+◌, ◌≤◌, ◌<◌, ◌≡◌, arith, Bool, true, false, not, ◌&&◌, ◌||◌, ◌==◌, Bool-cases,
  inl, inr, if◌then◌else◌, List, [], ◌∷◌, length,
}
use trs.Pmm.Alloc.{is_in}

abbrev pub is_held : ℕ → List ℕ → Bool
is_held q [] = false
is_held q (p ∷ ps) = let rest = is_held q ps in q == p || rest

-- No page twice.
abbrev pub IsDistinct : List ℕ → Type 0
IsDistinct [] = 0 ≤ 0
IsDistinct (p ∷ ps) = (is_held p ps ≡ false) × IsDistinct ps

-- The pages of an allocation, put before those that are held.
abbrev pub with_pages : ℕ → ℕ → List ℕ → List ℕ
with_pages zero p held = held
with_pages (suc n) p held = p ∷ with_pages n (p + 1) held

-- The pages without one.
abbrev pub without : ℕ → List ℕ → List ℕ
without q [] = []
without q (p ∷ ps) = let rest = without q ps in if q == p then ps else p ∷ rest

pub is_held-with_pages :
    (n p q : ℕ) (held : List ℕ) → is_held q (with_pages n p held) ≡ (is_in p n q || is_held q held)
is_held-with_pages zero p q held = ground arith
is_held-with_pages (suc n) p q held = ground (arith, is_held-with_pages n (p + 1) q held)

pub length-with_pages : (n p : ℕ) (held : List ℕ) → length (with_pages n p held) ≡ n + length held
length-with_pages zero p held = omega arith
length-with_pages (suc n) p held = omega (arith, length-with_pages n (p + 1) held)

pub IsDistinct-with_pages :
    (n p : ℕ) (held : List ℕ)
    → ((q : ℕ) → p ≤ q → q < p + n → is_held q held ≡ false)
    → IsDistinct held
    → IsDistinct (with_pages n p held)
IsDistinct-with_pages zero p held new d = d
IsDistinct-with_pages (suc n) p held new d = (
  ground (arith, is_held-with_pages n (p + 1) p held, new p),
  IsDistinct-with_pages n (p + 1) held (λ q lo hi. new q (omega arith) (omega arith)) d,
)

pub is_held-without :
    (q r : ℕ) (held : List ℕ)
    → IsDistinct held
    → is_held r (without q held) ≡ (not (r == q) && is_held r held)
is_held-without q r [] d = ground arith
is_held-without q r (p ∷ ps) (new, d) = ground (arith, is_held-without q r ps d)

pub IsDistinct-without : (q : ℕ) (held : List ℕ) → IsDistinct held → IsDistinct (without q held)
IsDistinct-without q [] d = d
IsDistinct-without q (p ∷ ps) (new, d) = elim (Bool-cases (q == p)) [
  | inl e ↦ rw e d
  | inr e ↦ rw e (ground (arith, is_held-without q p ps d), IsDistinct-without q ps d)
]

pub length-without :
    (q : ℕ) (held : List ℕ) → is_held q held ≡ true → length (without q held) + 1 ≡ length held
length-without q [] h = absurd (ground arith)
length-without q (p ∷ ps) h = ground (arith, length-without q ps)
