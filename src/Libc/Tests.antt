-- ===== src/Libc/Tests.antt =====
-- The routines of libc/string.c on small memories, and the theorems at them.
use trs.Common.{ℕ, ◌+◌, ◌≡◌, refl, arith, inl, List, [], ◌∷◌, take, get_or}
use trs.Common.Memory.{Mem}
use trs.Libc.Memory.{memcpy, memmove, copy_back}
use trs.Libc.Memory.Moved.{moved}
use trs.Libc.Memory.Copy.{memcpy_lem, memmove_lem}
use trs.Libc.Text.{strncmp}
use trs.Libc.Text.Spec.{IsText, text_order}
use trs.Libc.Text.Compare.{strncmp_lem}

-- "abca" at 1 and "abd" at 11.
abbrev bytes : List ℕ
bytes = 0 ∷ 97 ∷ 98 ∷ 99 ∷ 97 ∷ 0 ∷ 0 ∷ 0 ∷ 0 ∷ 0 ∷ 0 ∷ 97 ∷ 98 ∷ 100 ∷ 0 ∷ []

abbrev two_texts : Mem
two_texts a = get_or bytes a 0

abbrev abca : List ℕ
abca = 97 ∷ 98 ∷ 99 ∷ 97 ∷ []

abbrev abd : List ℕ
abd = 97 ∷ 98 ∷ 100 ∷ []

abca-IsText : IsText two_texts 1 abca
abca-IsText =
    (refl, omega arith, (refl, omega arith, (refl, omega arith, (refl, omega arith, refl))))

abd-IsText : IsText two_texts 11 abd
abd-IsText = (refl, omega arith, (refl, omega arith, (refl, omega arith, refl)))

-- An overlapping move up by two bytes.
moved_up : memmove two_texts 3 1 4 6 ≡ 97
unfolding memmove copy_back
moved_up = refl

memcpy_lem_example : memcpy two_texts 1 11 4 ≡ moved two_texts 1 11 4
memcpy_lem_example = memcpy_lem two_texts 1 11 4 (inl (omega arith))

memmove_lem_example : memmove two_texts 3 1 4 ≡ moved two_texts 3 1 4
memmove_lem_example = memmove_lem two_texts 3 1 4

strncmp_lem_example : strncmp two_texts 1 11 2 ≡ text_order (take (2 + 1) abca) (take (2 + 1) abd)
strncmp_lem_example = strncmp_lem two_texts 1 11 2 abca abd abca-IsText abd-IsText (omega arith)
