-- ===== src/Terminal/Words.antt =====
-- The command line cut into words: what `args_loop` leaves in memory against a list function.
pub mod Skip
pub mod Cut
use trs.Common.{
  ℕ, zero, suc, ◌+◌, ◌≤◌, ◌<◌, ◌≡◌, refl, sym, ap, ◌∙◌, arith, ◌⊎◌, inl, inr, Bool, true, false,
  not, ◌&&◌, ◌||◌, ◌==◌, Bool-cases, if◌then◌else◌, List, [], ◌∷◌, ◌++◌, length, Option, some,
  ◌>>=◌, nonzero,
}
use mathlib.Core.List.{append_assoc, append-nil}
use trs.Common.Memory.{Mem, store}
use trs.Libc.Text.Spec.{IsText, IsText-ext}
use trs.Terminal.{skip_blanks, skip_word, word_start, word_stop, cut, args_loop}

-- The specification. Blanks are dropped; a word is what stands before its stop, and the byte that
-- stops it belongs to nothing. Blanks are the space, the tab and the newline, by their codes; these
-- and the carriage return end a word without quotes.
abbrev pub is_white : ℕ → Bool
is_white c = c == 32 || c == 9 || c == 10

abbrev pub ends_word : ℕ → Bool
ends_word c = is_white c || c == 13

abbrev pub is_quotation : ℕ → Bool
is_quotation c = c == 34

abbrev pub drop_blanks : List ℕ → List ℕ
drop_blanks [] = []
drop_blanks (x ∷ xs) = let rest = drop_blanks xs in if is_white x then rest else x ∷ xs

abbrev pub before : (ℕ → Bool) → List ℕ → List ℕ
before stop [] = []
before stop (x ∷ xs) = let rest = before stop xs in if stop x then [] else x ∷ rest

abbrev pub from : (ℕ → Bool) → List ℕ → List ℕ
from stop [] = []
from stop (x ∷ xs) = let rest = from stop xs in if stop x then x ∷ xs else rest

abbrev pub rest_of : List ℕ → List ℕ
rest_of [] = []
rest_of (x ∷ xs) = xs

-- A word in quotes is what follows the quote.
abbrev pub quoted : List ℕ → Bool
quoted [] = false
quoted (x ∷ xs) = is_quotation x

abbrev pub unquoted : List ℕ → List ℕ
unquoted xs = if quoted xs then rest_of xs else xs

abbrev pub stop_of : List ℕ → ℕ → Bool
stop_of xs = if quoted xs then is_quotation else ends_word

-- The first word of a text that no blank begins, and what `more` makes of the text behind its stop.
abbrev pub words_from : (List ℕ → List (List ℕ)) → List ℕ → List (List ℕ)
words_from more [] = []
words_from more (y ∷ ys) =
    let zs = unquoted (y ∷ ys) in
    let stop = stop_of (y ∷ ys) in before stop zs ∷ more (rest_of (from stop zs))

-- The words of a text, at most `left`.
unfoldable pub words : ℕ → List ℕ → List (List ℕ)
words zero xs = []
words (suc left) xs = words_from (words left) (drop_blanks xs)

-- Pointers to texts between two addresses.
pub data ArePointers (m : Mem) (low high : ℕ) : List ℕ → List (List ℕ) → Type 0 where
  no_pointers : ArePointers m low high [] []
  pointer :
      {a : ℕ} {argv : List ℕ} {x : List ℕ} {xs : List (List ℕ)}
      → IsText m a x
      → low ≤ a
      → a + length x ≤ high
      → ArePointers m low high argv xs
      → ArePointers m low high (a ∷ argv) (x ∷ xs)

-- What the loop leaves: the words as texts, with memory outside the command as it was.
pub record Cuts (m : Mem) (command n : ℕ) (found : List (List ℕ)) (argv : List ℕ)
    (result : Option (Mem × List ℕ)) : Type 0 where
  pub mem : Mem
  pub pointers : List ℕ
  pub runs : result ≡ some (mem, argv ++ pointers)
  pub args : ArePointers mem command (command + n) pointers found
  pub kept : (b : ℕ) → (b < command) ⊎ (command + n ≤ b) → mem b ≡ m b
