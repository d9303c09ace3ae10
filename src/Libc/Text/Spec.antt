-- ===== src/Libc/Text/Spec.antt =====
-- Texts in memory, and what libc/string.c should compute from them as lists of bytes.
use trs.Common.{
  ℕ, suc, ◌+◌, ◌≤◌, ◌≡◌, ◌≢◌, List, [], ◌∷◌, arith, length, ◌==◌, if◌then◌else◌, ℤ, pos,
}
use trs.Common.Memory.{Mem}
use trs.Libc.Memory.{byte_difference}

-- The bytes of a text stand from `a` on, and a zero byte after them.
abbrev pub IsText : Mem → ℕ → List ℕ → Type 0
IsText m a [] = m a ≡ 0
IsText m a (x ∷ xs) = (m a ≡ x) × (x ≢ 0) × IsText m (a + 1) xs

-- A text depends on its bytes and the zero byte alone.
pub IsText-ext :
    (m m' : Mem) (a a' : ℕ) (xs : List ℕ)
    → ((i : ℕ) → i ≤ length xs → m' (a' + i) ≡ m (a + i))
    → IsText m a xs
    → IsText m' a' xs
IsText-ext m m' a a' [] h t = ground (arith, h 0)
IsText-ext m m' a a' (x ∷ xs) h (e, ne, t) = (
  ground (arith, h 0),
  ne,
  IsText-ext m m' (a + 1) (a' + 1) xs (λ i p. ground (arith, h (suc i))) t,
)

-- The order of two texts: 0 where they are equal, else the difference of the first bytes that
-- are not.
abbrev pub text_order : List ℕ → List ℕ → ℤ
text_order [] [] = pos 0
text_order [] (y ∷ ys) = byte_difference 0 y
text_order (x ∷ xs) [] = byte_difference x 0
text_order (x ∷ xs) (y ∷ ys) = if x == y then text_order xs ys else byte_difference x y
