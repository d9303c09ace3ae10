-- ===== src/Libc/Text/Copy.antt =====
-- strcpy, strcat and strrchr of libc/string.c.
use trs.Common.{
  ℕ, zero, suc, ◌+◌, ◌≤◌, ◌<◌, ◌≡◌, ◌≢◌, ◌∙◌, ap, ◌⊎◌, List, [], ◌∷◌, ◌++◌, arith, length, ◌==◌,
  if◌then◌else◌, true, false, ◌||◌, some, nonzero,
}
use trs.Common.Memory.{Mem, store}
use trs.Libc.Memory.Moved.{moved, copy_byte_lem, moved-moved}
use trs.Libc.Text.{copy_text, find_end, strcat, strcpy, strrchr_loop, strrchr, char_is}
use trs.Libc.Text.Spec.{IsText, IsText-ext}

-- The source is not overwritten before it is read.
abbrev pub IsApart : ℕ → ℕ → ℕ → Type 0
IsApart d s n = (d ≤ s) ⊎ (s + n < d)

copy_text_lem :
    (fuel : ℕ) (m : Mem) (d s : ℕ) (xs : List ℕ)
    → IsText m s xs
    → IsApart d s (length xs)
    → length xs < fuel
    → copy_text fuel m d s ≡ some (moved m d s (length xs + 1))
unfolding copy_text
copy_text_lem zero m d s xs t apart h = absurd (omega arith)
copy_text_lem (suc fuel) m d s [] t apart h =
    let stops : nonzero (m s) ≡ false = ground arith in rw stops (ap some (copy_byte_lem m d s))
copy_text_lem (suc fuel) m d s (x ∷ xs) (e, ne, t) apart h =
    let goes : nonzero (m s) ≡ true = ground arith in
    let m' = store m d (m s) in
    let t' = IsText-ext m m' (s + 1) (s + 1) xs (λ i p. ground arith) t in
    let n = length xs + 1 in
    rw goes (
      copy_text_lem fuel m' (d + 1) (s + 1) xs t' (omega arith) (omega arith)
      ∙ ap (λ q. some (moved q (d + 1) (s + 1) n)) (copy_byte_lem m d s)
      ∙ ap some (moved-moved m d s 1 n (omega arith))
      ∙ ap (λ k. some (moved m d s k)) {x = 1 + n} {y = suc (length xs) + 1} (omega arith))

IsText-moved :
    (m : Mem) (d s : ℕ) (xs : List ℕ) → IsText m s xs → IsText (moved m d s (length xs + 1)) d xs
IsText-moved m d s xs t = IsText-ext m (moved m d s (length xs + 1)) s d xs (λ i p. ground arith) t

-- `strcpy` between pointers that are not null leaves the source's text at `dst`, writes the text
-- and its zero byte only, and returns `dst`. Its loop makes one turn more than the text is long.
pub strcpy_lem :
    (fuel : ℕ) (m : Mem) (dst src : ℕ) (xs : List ℕ)
    → dst ≢ 0
    → src ≢ 0
    → IsText m src xs
    → IsApart dst src (length xs)
    → length xs < fuel
    → (m' : Mem) × (strcpy fuel m dst src ≡ some (m', dst))
      × IsText m' dst xs
      × ((a : ℕ) → (a < dst) ⊎ (dst + length xs < a) → m' a ≡ m a)
unfolding strcpy
strcpy_lem fuel m dst src xs nd ns t apart h =
    let here : (dst == 0 || src == 0) ≡ false = ground arith in
    (
      moved m dst src (length xs + 1),
      rw (here, copy_text_lem fuel m dst src xs t apart h),
      IsText-moved m dst src xs t,
      λ a out. ground arith,
    )

find_end_lem :
    (fuel : ℕ) (m : Mem) (d : ℕ) (xs : List ℕ)
    → IsText m d xs
    → length xs < fuel
    → find_end fuel m d ≡ some (d + length xs)
unfolding find_end
find_end_lem zero m d xs t h = absurd (omega arith)
find_end_lem (suc fuel) m d [] t h = ground arith
find_end_lem (suc fuel) m d (x ∷ xs) (e, ne, t) h =
    ground (arith, find_end_lem fuel m (d + 1) xs t (omega arith))

-- A text that ends where another begins.
IsText-join :
    (m m' : Mem) (d : ℕ) (xs ys : List ℕ)
    → IsText m d xs
    → ((a : ℕ) → a < d + length xs → m' a ≡ m a)
    → IsText m' (d + length xs) ys
    → IsText m' d (xs ++ ys)
IsText-join m m' d [] ys t same u = let e : d + 0 ≡ d = omega arith in rw e at u
IsText-join m m' d (x ∷ xs) ys (e, ne, t) same u =
    let shift : d + suc (length xs) ≡ d + 1 + length xs = omega arith in
    (
      ground (arith, same d),
      ne,
      IsText-join m m' (d + 1) xs ys t (λ a p. same a (omega arith)) (rw shift at u),
    )

-- `strcat` leaves the two texts joined at `dst`, changes no byte but those behind the first text
-- and returns `dst`, if the second text does not lie where it writes.
pub strcat_lem :
    (fuel : ℕ) (m : Mem) (dst src : ℕ) (xs ys : List ℕ)
    → IsText m dst xs
    → IsText m src ys
    → IsApart (dst + length xs) src (length ys)
    → length xs < fuel
    → length ys < fuel
    → (m' : Mem) × (strcat fuel m dst src ≡ some (m', dst))
      × IsText m' dst (xs ++ ys)
      × ((a : ℕ) → (a < dst + length xs) ⊎ (dst + length xs + length ys < a) → m' a ≡ m a)
unfolding strcat
strcat_lem fuel m dst src xs ys t u apart h k =
    let last = dst + length xs in
    let m' = moved m last src (length ys + 1) in
    (
      m',
      ground (arith, find_end_lem fuel m dst xs t h, copy_text_lem fuel m last src ys u apart k),
      IsText-join m m' dst xs ys t (λ a p. ground arith) (IsText-moved m last src ys u),
      λ a out. ground arith,
    )

-- The address of the last byte of a text from `a` on that is `ch`, and `last` where there is none.
abbrev pub last_at : ℕ → List ℕ → ℕ → ℕ → ℕ
last_at a [] ch last = last
last_at a (x ∷ xs) ch last = last_at (a + 1) xs ch (if x == ch then a else last)

strrchr_loop_lem :
    (fuel : ℕ) (m : Mem) (a ch last : ℕ) (xs : List ℕ)
    → IsText m a xs
    → ch ≢ 0
    → ch < 128
    → length xs < fuel
    → strrchr_loop fuel m a ch last ≡ some (last_at a xs ch last)
unfolding strrchr_loop
strrchr_loop_lem zero m a ch last xs t nz small h = absurd (omega arith)
strrchr_loop_lem (suc fuel) m a ch last [] t nz small h = ground arith
strrchr_loop_lem (suc fuel) m a ch last (x ∷ xs) (e, ne, t) nz small h =
    let same : char_is (m a) ch ≡ (x == ch) = ground arith in
    let goes : nonzero (m a) ≡ true = ground arith in
    rw (goes, same)
      (strrchr_loop_lem fuel m (a + 1) ch (if x == ch then a else last) xs t nz small (omega arith))

-- `strrchr` for an ASCII character returns the address of its last place in the text, or NULL.
pub strrchr_lem :
    (fuel : ℕ) (m : Mem) (a ch : ℕ) (xs : List ℕ)
    → IsText m a xs
    → ch ≢ 0
    → ch < 128
    → length xs < fuel
    → strrchr fuel m a ch ≡ some (last_at a xs ch 0)
unfolding strrchr
strrchr_lem fuel m a ch xs t nz small h = strrchr_loop_lem fuel m a ch 0 xs t nz small h
