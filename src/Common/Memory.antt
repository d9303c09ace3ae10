-- ===== src/Common/Memory.antt =====
-- Byte-addressed memory as a function of the address.
use Prim.Native.Nat.{ℕ, zero, suc, ◌+◌, ◌/◌, ◌%◌, ◌≤◌, ◌<◌}
use mathlib.Core.Path.{◌≡◌, refl, ◌∙◌}
use mathlib.Core.Logic.{◌⊎◌}
use mathlib.Core.List.{List, [], ◌∷◌}
use native.Mathlib.Omega.{arith}
use trs.Common.Lists.{length}
use trs.Common.Tests.{◌==◌, if◌then◌else◌}

abbrev pub Mem : Type 0
Mem = ℕ → ℕ

-- One byte stored at an address.
abbrev pub store : Mem → ℕ → ℕ → Mem
store m a v b = if b == a then v else m b

-- The bytes of a list stored from an address on, and those of a number, the lowest first.
unfoldable pub store_list : Mem → ℕ → List ℕ → Mem
store_list m a [] = m
store_list m a (x ∷ xs) = store_list (store m a x) (a + 1) xs

unfoldable pub store_le : ℕ → Mem → ℕ → ℕ → Mem
store_le zero m a v = m
store_le (suc n) m a v = store_le n (store m a (v % 256)) (a + 1) (v / 256)

-- Both write the bytes that they are given and no other.
pub store_list-outside :
    (m : Mem) (a b : ℕ) (xs : List ℕ) → (b < a) ⊎ (a + length xs ≤ b) → store_list m a xs b ≡ m b
unfolding store_list
store_list-outside m a b [] h = refl
store_list-outside m a b (x ∷ xs) h =
    store_list-outside (store m a x) (a + 1) b xs (omega arith) ∙ ground arith

pub store_le-outside :
    (n : ℕ) (m : Mem) (a v b : ℕ) → (b < a) ⊎ (a + n ≤ b) → store_le n m a v b ≡ m b
unfolding store_le
store_le-outside zero m a v b h = refl
store_le-outside (suc n) m a v b h =
    store_le-outside n (store m a (v % 256)) (a + 1) (v / 256) b (omega arith) ∙ ground arith
