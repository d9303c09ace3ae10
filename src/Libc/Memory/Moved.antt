-- ===== src/Libc/Memory/Moved.antt =====
-- What a copy of `n` bytes leaves in memory, and how copies of consecutive pieces compose.
use trs.Common.{
  ℕ, zero, suc, ◌+◌, ◌-◌, ◌*◌, ◌≤◌, ◌≡◌, ◌∙◌, ap, fun_ext, ◌⊎◌, ◌&&◌, arith, ltb, leb,
  if◌then◌else◌,
}
use trs.Common.Memory.{Mem}
use trs.Libc.Memory.{copy_byte, copy_word, copy_words, copy_back}

-- The specification: the bytes from `d` on are those that stood from `s` on; all others are kept.
abbrev pub moved : Mem → ℕ → ℕ → ℕ → Mem
moved m d s n a = if leb d a && ltb a (d + n) then m (s + (a - d)) else m a

-- A copy from the front is safe where the destination lies before the source, or after it all.
abbrev pub IsForward : ℕ → ℕ → ℕ → Type 0
IsForward d s n = (d ≤ s) ⊎ (s + n ≤ d)

pub moved-zero : (m : Mem) (d s : ℕ) → m ≡ moved m d s 0
moved-zero m d s = fun_ext (λ a. ground arith)

pub moved_self : (m : Mem) (d n : ℕ) → m ≡ moved m d d n
moved_self m d n = fun_ext point
  where
    back : (a : ℕ) → d ≤ a → d + (a - d) ≡ a
    back a h = omega arith

    point : (a : ℕ) → m a ≡ moved m d d n a
    point a = ground (arith, λ (h : d ≤ a). ap m (back a h))

pub moved-moved :
    (m : Mem) (d s k n : ℕ)
    → IsForward d s (k + n)
    → moved (moved m d s k) (d + k) (s + k) n ≡ moved m d s (k + n)
moved-moved m d s k n forward = fun_ext (λ a. ground arith)

pub copy_byte_lem : (m : Mem) (d s : ℕ) → copy_byte m d s ≡ moved m d s 1
copy_byte_lem m d s = fun_ext (λ a. ground arith)

pub copy_word_lem : (m : Mem) (d s : ℕ) → copy_word m d s ≡ moved m d s 4
copy_word_lem m d s = fun_ext (λ a. ground arith)

pub copy_back_lem : (m : Mem) (d s n : ℕ) → s ≤ d → copy_back m d s n ≡ moved m d s n
unfolding copy_back
copy_back_lem m d s zero h = moved-zero m d s
copy_back_lem m d s (suc n) h =
    copy_back_lem (copy_byte m (d + n) (s + n)) d s n h ∙ fun_ext (λ a. ground arith)

pub copy_words_lem :
    (n : ℕ) (m : Mem) (d s : ℕ) → IsForward d s (4 * n) → copy_words n m d s ≡ moved m d s (4 * n)
unfolding copy_words
copy_words_lem zero m d s forward = moved-zero m d s
copy_words_lem (suc n) m d s forward =
    ap (λ x. copy_words n x (d + 4) (s + 4)) (copy_word_lem m d s)
    ∙ copy_words_lem n (moved m d s 4) (d + 4) (s + 4) (omega arith)
    ∙ moved-moved m d s 4 (4 * n) (omega arith)
    ∙ ap (moved m d s) {x = 4 + 4 * n} {y = 4 * suc n} (omega arith)
