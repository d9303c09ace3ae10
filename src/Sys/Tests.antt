-- ===== src/Sys/Tests.antt =====
-- A line typed for SYS_READ, an entry for SYS_READDIR, and the theorems there.
use trs.Common.{ℕ, ◌+◌, ◌-◌, ◌≤◌, ◌<◌, ◌⊎◌, ◌≡◌, refl, arith, List, [], ◌∷◌, some}
use trs.Common.Memory.{Mem, store_le, store_list}
use trs.Sys.{DirInfo, sys_read, store_info}
use trs.Libc.Memory.{memset}
use trs.Sys.Line.{edit, ReadsLine, sys_read-ReadsLine}
use trs.Sys.Entry.{store_info_lem}

abbrev blank : Mem
blank a = 0

-- c, x, backspace, d, newline.
abbrev typed : List ℕ
typed = b'c' ∷ b'x' ∷ 8 ∷ b'd' ∷ 10 ∷ []

edited : edit 15 typed [] ≡ some (b'd' ∷ b'c' ∷ [])
unfolding edit
edited = refl

sys_read-ReadsLine_example :
    ReadsLine blank 100 16 (edit (16 - 1) typed []) (sys_read typed 100 16 blank [])
sys_read-ReadsLine_example = sys_read-ReadsLine typed 100 16 blank [] (omega arith) (omega arith)

abbrev readme : DirInfo
readme = record { name = b'a' ∷ b'b' ∷ []; name_len = 2; size = 0x12345; attr = 0x20 }

abbrev ones : Mem
ones a = 1

size_stored : store_info ones 100 readme 137 ≡ 0x23
unfolding store_info store_le store_list memset
size_stored = refl

store_info_lem_example :
    (store_info ones 100 readme (100 + 32) ≡ 0)
    × ((a : ℕ) → (a < 100) ⊎ (100 + 44 ≤ a) → store_info ones 100 readme a ≡ ones a)
store_info_lem_example = store_info_lem ones 100 readme
