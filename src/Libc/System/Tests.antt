-- ===== src/Libc/System/Tests.antt =====
-- A directory of a label and a file, and the theorems there.
use trs.Common.{
  ℕ, ◌+◌, ◌≡◌, refl, arith, ◌⊎◌, inr, true, false, ◌==◌, if◌then◌else◌, List, [], ◌∷◌, none, some,
  pos,
}
use trs.Common.Memory.{Mem, store_list, store_le}
use trs.BootInfo.{load_le}
use trs.Fat32.{FatDir, fat32_dir_read, read_entry, slot_of, is_ok}
use trs.Libc.Memory.{memset}
use trs.Sys.{Sys, DirInfo, syscall_handler, sys_readdir, int_of, reg_of, store_info}
use trs.Libc.System.{next_entry, syscall2, readdir}
use trs.Libc.System.Entries.{Skips, none_skipped, skipped, returned, is_listed, readdir-Skips}

abbrev volume : DirInfo
volume = record { name = b'V' ∷ []; name_len = 1; size = 0; attr = 0x08 }

abbrev file : DirInfo
file = record { name = b'f' ∷ []; name_len = 1; size = 7; attr = 0x20 }

-- A directory is the number of its entry that the next read returns.
abbrev two_entries : FatDir ℕ ℕ DirInfo
two_entries = record {
  zeroed = 0;
  fat_dir_open = λ d path f. record { result = pos 0; dir = 0; fat = f };
  fat_dir_next = λ d f. record { result = pos 0; dir = d + 1; fat = f };
  fat_dir_read =
      λ d f. record { result = (pos 0, if d == 0 then volume else file); dir = d; fat = f };
}

abbrev no_text : Mem → ℕ → List ℕ
no_text m a = []

abbrev opened : Sys ℕ ℕ
opened = record {
  regs = record { rax = 0; rdx = 0; rdi = 0 };
  mem = λ a. 0;
  display = [];
  driver = record {
    disk_id = 0;
    base_lba = 0;
    mounted = true;
    dirs = record { dir = 0; used = true; need_next = false } ∷ [];
    fat = 0;
  };
}

abbrev answer : Sys ℕ ℕ → Sys ℕ ℕ
answer s = elim (next_entry two_entries no_text 64 200 s) [ none ↦ s | some r ↦ r.1 ]

answers : next_entry two_entries no_text 64 200 opened ≡ some (0, answer opened)
unfolding syscall2 syscall_handler sys_readdir fat32_dir_read read_entry slot_of int_of reg_of
    store_info store_list store_le memset load_le
answers = refl

ok_zero : is_ok (int_of 0) ≡ true
unfolding int_of
ok_zero = refl

label_passed : is_listed (answer opened).mem 200 ≡ false
unfolding syscall2 syscall_handler sys_readdir fat32_dir_read read_entry slot_of int_of reg_of
    store_info store_list store_le memset load_le
label_passed = refl

file_listed : is_listed (answer (answer opened)).mem 200 ≡ true
unfolding syscall2 syscall_handler sys_readdir fat32_dir_read read_entry slot_of int_of reg_of
    store_info store_list store_le memset load_le
file_listed = refl

after_label :
    next_entry two_entries no_text 64 200 (answer opened) ≡ some (0, answer (answer opened))
unfolding syscall2 syscall_handler sys_readdir fat32_dir_read read_entry slot_of int_of reg_of
    store_info store_list store_le memset load_le
after_label = refl

label_first : Skips two_entries no_text 64 300 200 opened 1 (answer opened)
label_first = skipped answers ok_zero label_passed none_skipped

readdir-Skips_example :
    (readdir two_entries no_text 2 200 64 300 opened
      ≡ some (returned two_entries no_text 64 300 200 0 (answer (answer opened))))
    × ((is_ok (returned two_entries no_text 64 300 200 0 (answer (answer opened))).0 ≡ false)
        ⊎ (is_listed (returned two_entries no_text 64 300 200 0 (answer (answer opened))).1.mem 300
            ≡ true))
readdir-Skips_example =
    readdir-Skips two_entries no_text 64 300 200 2 0 (answer (answer opened)) (omega arith)
      (omega arith) label_first (omega arith) after_label (inr file_listed)
