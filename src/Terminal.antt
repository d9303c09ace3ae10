-- ===== src/Terminal.antt =====
-- terminal/tmain.c: the command line of the terminal, in the memory that it shares with the kernel.
-- The loops over a text take the number of turns that they may make.
pub mod Commands
pub mod Words
pub mod Current
pub mod Tests
use trs.Common.{
  ℕ, zero, suc, ◌+◌, ◌-◌, Bool, true, false, not, ◌&&◌, ◌||◌, ◌==◌, ltb, if◌then◌else◌, List, [],
  ◌∷◌, ◌++◌, Option, none, some, ◌>>=◌, nonzero,
}
use trs.Common.Memory.{Mem, store}
use trs.Libc.Text.{strlen, strcmp, strrchr, strcpy, strcat}
use trs.Fat32.{is_ok}

abbrev pub is_blank : ℕ → Bool
is_blank c = c == b' ' || c == b'\t' || c == b'\n'

abbrev pub is_break : ℕ → Bool
is_break c = is_blank c || c == b'\r'

abbrev pub is_quote : ℕ → Bool
is_quote c = c == b'"'

-- `while(*com == ' ' || *com == '\t' || *com == '\n') com++;`
unfoldable pub skip_blanks : ℕ → Mem → ℕ → Option ℕ
skip_blanks zero m command = none
skip_blanks (suc turns) m command =
    let rest = skip_blanks turns m (command + 1) in
    if is_blank (m command) then rest else some command

-- The loops to the end of a word: `while(*com && ...) com++;`
unfoldable pub skip_word : ℕ → (ℕ → Bool) → Mem → ℕ → Option ℕ
skip_word zero stop m command = none
skip_word (suc turns) stop m command =
    let rest = skip_word turns stop m (command + 1) in
    if nonzero (m command) && not (stop (m command)) then rest else some command

-- Where a word begins, and what ends it.
abbrev pub word_start : Mem → ℕ → ℕ
word_start m command = if is_quote (m command) then command + 1 else command

abbrev pub word_stop : Mem → ℕ → ℕ → Bool
word_stop m command = if is_quote (m command) then is_quote else is_break

-- `if(*com) { *com = '\0'; com++; }`
abbrev pub cut : Mem → ℕ → Mem × ℕ
cut m command = if nonzero (m command) then (store m command 0, command + 1) else (m, command)

-- The loop that cuts the command into words, for at most `left` of them. The result is memory and
-- the filled part of `argv`.
unfoldable pub args_loop : ℕ → ℕ → Mem → ℕ → List ℕ → Option (Mem × List ℕ)
args_loop zero turns m command argv = some (m, argv)
args_loop (suc left) turns m command argv =
    let words = skip_blanks turns m command >>= λ at.
    let word = skip_word turns (word_stop m at) m (word_start m at) >>= λ last.
    args_loop left turns (cut m last).0 (cut m last).1 (argv ++ word_start m at ∷ []) in
    if nonzero (m at) then word else some (m, argv) in
    if nonzero (m command) then words else some (m, argv)

-- `sizeof(current)`
abbrev pub current_size : ℕ
current_size = 100

-- Where the program's image has the array `current`, and its literals.
pub record Image : Type 0 where
  pub current : ℕ
  pub literal : List ℕ → ℕ

-- `cd ..`
unfoldable pub cd_up : ℕ → Image → Mem → Option Mem
cd_up turns image m = do
  last ← strrchr turns m image.current b'/'
  some (if last == 0 then m else store m last 0)

-- A target that begins with `/`. The flag says that it is too long, which is printed.
unfoldable pub cd_root : ℕ → Image → ℕ → Mem → Option (Mem × Bool)
cd_root turns image trgt m = do
  len ← strlen turns m trgt
  let copied = strcpy turns m image.current (trgt + 1) >>= λ r. some (r.0, false)
  if ltb len current_size then copied else some (m, true)

-- The `/` between a directory and a target below it.
unfoldable pub cd_join : ℕ → Image → ℕ → Mem → Option Mem
cd_join turns image len m =
    let joined = strcat turns m image.current (image.literal (b'/' ∷ [])) >>= λ r. some r.0 in
    if ltb 0 len && not (m (image.current + len - 1) == b'/') then joined else some m

unfoldable pub cd_below : ℕ → Image → ℕ → Mem → Option Mem
cd_below turns image trgt m = do
  len ← strlen turns m image.current
  more ← strlen turns m trgt
  let appended =
      cd_join turns image len m >>= λ m1. strcat turns m1 image.current trgt >>= λ r. some r.0
  if ltb (len + 1 + more) current_size then appended else some m

abbrev silent : Option Mem → Option (Mem × Bool)
silent r = r >>= λ m. some (m, false)

-- `cd` with a target: memory, and whether it prints that the target is too long.
unfoldable pub cd : ℕ → Image → ℕ → Mem → Option (Mem × Bool)
cd turns image trgt m = strlen turns m trgt >>= λ len.
    strcmp turns m trgt (image.literal (b'.' ∷ b'.' ∷ [])) >>= λ up.
    if len == 1 && m trgt == b'.'
    then some (m, false)
    else if is_ok up
    then silent (cd_up turns image m)
    else if m trgt == b'/'
    then cd_root turns image trgt m
    else silent (cd_below turns image trgt m)
