-- ===== src/Terminal/Current.antt =====
-- `cd` of terminal/tmain.c: the array `current` against a function on the lists of bytes.
pub mod Up
pub mod Below
pub mod Target
use trs.Common.{
  ℕ, zero, suc, ◌+◌, ◌-◌, ◌≤◌, ◌<◌, ◌≡◌, ◌≢◌, refl, sym, ap, ◌∙◌, arith, ◌⊎◌, inl, inr, Bool, true,
  false, not, ◌&&◌, ◌||◌, ◌==◌, ltb, Bool-cases, if◌then◌else◌, List, [], ◌∷◌, ◌++◌, length,
  length-append, Option, some, ℤ, pos, negsuc,
}
use mathlib.Core.Path.{subst}
use trs.Common.Memory.{Mem, store}
use trs.Fat32.{is_ok}
use trs.Libc.Text.{strlen, strrchr}
use trs.Libc.Text.Spec.{IsText, IsText-ext, text_order}
use trs.Libc.Text.Compare.{strlen_lem, strcmp_lem}
use trs.Libc.Text.Copy.{strcpy_lem, strcat_lem, strrchr_lem, last_at}
use trs.Terminal.{current_size, Image}

-- The specification: the directory that a target leads to.
abbrev pub has_slash : List ℕ → Bool
has_slash [] = false
has_slash (x ∷ xs) = let rest = has_slash xs in x == b'/' || rest

-- A path without its last part; one of a single part stays.
abbrev pub parent : List ℕ → List ℕ
parent [] = []
parent (x ∷ xs) = let rest = parent xs in if x == b'/' && not (has_slash xs) then [] else x ∷ rest

abbrev pub ends_in_slash : List ℕ → Bool
ends_in_slash [] = false
ends_in_slash (x ∷ []) = x == b'/'
ends_in_slash (x ∷ y ∷ ys) = ends_in_slash (y ∷ ys)

-- A path with the slash that a further part needs; an empty one gets none.
abbrev pub joint : List ℕ → List ℕ
joint [] = []
joint (x ∷ xs) = if ends_in_slash (x ∷ xs) then x ∷ xs else (x ∷ xs) ++ b'/' ∷ []

abbrev pub is_dot : List ℕ → Bool
is_dot [] = false
is_dot (y ∷ []) = y == b'.'
is_dot (y ∷ z ∷ zs) = false

abbrev pub is_dot_dot : List ℕ → Bool
is_dot_dot ys = is_ok (text_order ys (b'.' ∷ b'.' ∷ []))

abbrev pub rooted : List ℕ → Bool
rooted [] = false
rooted (y ∷ ys) = y == b'/'

abbrev pub without_first : List ℕ → List ℕ
without_first [] = []
without_first (y ∷ ys) = ys

abbrev pub target_of : List ℕ → List ℕ → List ℕ
target_of xs ys =
    if is_dot ys
    then xs
    else if is_dot_dot ys
    then parent xs
    else if rooted ys
    then (if ltb (length ys) current_size then without_first ys else xs)
    else if ltb (length xs + 1 + length ys) current_size
    then joint xs ++ ys
    else xs

-- Only the array `current` changes, and it holds a path that fits with its zero byte.
pub record Leads (image : Image) (m : Mem) (path : List ℕ) (result : Option Mem) : Type 0 where
  pub mem : Mem
  pub runs : result ≡ some mem
  pub text : IsText mem image.current path
  pub short : length path < current_size
  pub kept : (a : ℕ) → (a < image.current) ⊎ (image.current + current_size ≤ a) → mem a ≡ m a

pub stays-Leads :
    (image : Image) (m : Mem) (xs : List ℕ)
    → IsText m image.current xs
    → length xs < current_size
    → Leads image m xs (some m)
stays-Leads image m xs t short = record {
  mem = m;
  runs = refl;
  text = t;
  short = short;
  kept = λ a p. refl;
}

-- A text outside the array.
abbrev pub IsClear : Image → ℕ → ℕ → Type 0
IsClear image a n = (a + n < image.current) ⊎ (image.current + current_size ≤ a)
