-- ===== src/Libc/Text.antt =====
-- The functions of libc/string.c on texts that a zero byte ends. A loop that looks for that byte
-- takes the number of turns it may make; `none` says that they were not enough. A pointer is its
-- address, and 0 is NULL.
pub mod Spec
pub mod Compare
pub mod Copy
use trs.Common.{
  ℕ, zero, suc, ◌+◌, Bool, not, ◌&&◌, ◌||◌, Option, none, some, ◌==◌, ltb, if◌then◌else◌, u8, ℤ,
  pos, nonzero,
}
use trs.Common.Memory.{Mem, store}
use trs.Libc.Memory.{byte_difference}

-- `while(*s++) len++;`
unfoldable pub strlen_loop : ℕ → Mem → ℕ → ℕ → Option ℕ
strlen_loop zero m s len = none
strlen_loop (suc fuel) m s len =
    let rest = strlen_loop fuel m (s + 1) (len + 1) in if nonzero (m s) then rest else some len

unfoldable pub strlen : ℕ → Mem → ℕ → Option ℕ
strlen fuel m s = strlen_loop fuel m s 0

-- The bytes are read as `unsigned char` for the result.
unfoldable pub strcmp : ℕ → Mem → ℕ → ℕ → Option ℤ
strcmp zero m a b = none
strcmp (suc fuel) m a b =
    let rest = strcmp fuel m (a + 1) (b + 1) in
    if nonzero (m a) && nonzero (m b) && m a == m b
    then rest
    else some (byte_difference (m a) (m b))

-- `while(len-- && (*a != '\0' && *b != '\0'))` and the return behind it.
unfoldable pub strncmp_loop : ℕ → Mem → ℕ → ℕ → ℤ
strncmp_loop zero m a b = byte_difference (m a) (m b)
strncmp_loop (suc len) m a b =
    let rest = strncmp_loop len m (a + 1) (b + 1) in
    if nonzero (m a) && nonzero (m b) && m a == m b then rest else byte_difference (m a) (m b)

unfoldable pub strncmp : Mem → ℕ → ℕ → ℕ → ℤ
strncmp m a b len = if len == 0 then pos 0 else strncmp_loop len m a b

-- `while((*dst++ = *src++)) {}`
unfoldable pub copy_text : ℕ → Mem → ℕ → ℕ → Option Mem
copy_text zero m dst src = none
copy_text (suc fuel) m dst src =
    let m' = store m dst (m src) in
    let rest = copy_text fuel m' (dst + 1) (src + 1) in if nonzero (m src) then rest else some m'

-- `while(*dst != '\0') dst++;`
unfoldable pub find_end : ℕ → Mem → ℕ → Option ℕ
find_end zero m dst = none
find_end (suc fuel) m dst =
    let rest = find_end fuel m (dst + 1) in if nonzero (m dst) then rest else some dst

-- The memory, and the pointer returned.
unfoldable pub strcat : ℕ → Mem → ℕ → ℕ → Option (Mem × ℕ)
strcat fuel m dst src = elim (find_end fuel m dst) [
  | none ↦ none
  | some last ↦ elim (copy_text fuel m last src) [ none ↦ none | some m' ↦ some (m', dst) ]
]

unfoldable pub strcpy : ℕ → Mem → ℕ → ℕ → Option (Mem × ℕ)
strcpy fuel m dst src =
    if dst == 0 || src == 0
    then some (m, 0)
    else elim (copy_text fuel m dst src) [ none ↦ none | some m' ↦ some (m', dst) ]

-- `*str == (unsigned char)ch`: a `char` of 128 or more is negative and equals no `unsigned char`.
abbrev pub char_is : ℕ → ℕ → Bool
char_is c ch = ltb c 128 && c == u8 ch

unfoldable pub strrchr_loop : ℕ → Mem → ℕ → ℕ → ℕ → Option ℕ
strrchr_loop zero m str ch last = none
strrchr_loop (suc fuel) m str ch last =
    let last' = if char_is (m str) ch then str else last in
    let rest = strrchr_loop fuel m (str + 1) ch last' in
    if nonzero (m str) then rest else some last'

unfoldable pub strrchr : ℕ → Mem → ℕ → ℕ → Option ℕ
strrchr fuel m str ch = strrchr_loop fuel m str ch 0
