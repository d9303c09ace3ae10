-- ===== src/Fat32/Tests.antt =====
-- The driver over a small library, and the theorems there: a directory of three entries, whose
-- state is the place in it; the library's state counts its calls.
use trs.Common.{
  ℕ, ◌+◌, ◌≡◌, ◌≢◌, refl, arith, true, false, ltb, if◌then◌else◌, [], ◌∷◌, replicate, none, some,
  pos, negsuc,
}
use trs.Fat32.{
  FatDir, Driver, DirSlot, slot_at, fat32_dir_open, fat32_dir_read, fat32_dir_close, fat_err_none,
  fat_err_param, open_loop, read_entry, slot_of,
}
use trs.Fat32.Table.{Opens, fat32_dir_open_lem}
use trs.Fat32.Handles.{looks_at, fat32_dir_read_lem, fat32_dir_close_lem}

abbrev three : FatDir ℕ ℕ ℕ
three = record {
  zeroed = 0;
  fat_dir_open = λ dir path calls. record { result = pos 0; dir = 0; fat = calls + 1 };
  fat_dir_next = λ dir calls. record {
    result = if ltb dir 2 then pos 0 else negsuc 5;
    dir = dir + 1;
    fat = calls + 1;
  };
  fat_dir_read = λ dir calls. record { result = (pos 0, 100 + dir); dir = dir; fat = calls + 1 };
}

abbrev taken : DirSlot ℕ
taken = record { dir = 1; used = true; need_next = true }

-- Slot 0 is in use.
abbrev driver : Driver ℕ ℕ
driver = record {
  disk_id = 0;
  base_lba = 2048;
  mounted = true;
  dirs = taken ∷ replicate 9 (record { dir = 0; used = false; need_next = false });
  fat = 0;
}

abbrev opened : Driver ℕ ℕ
opened = (fat32_dir_open three (some []) driver).1

first_read : (fat32_dir_read three (pos 1) true opened).0 ≡ (pos 0, some 100)
unfolding fat32_dir_open fat32_dir_read open_loop read_entry slot_of
first_read = refl

second_read :
    (fat32_dir_read three (pos 1) true (fat32_dir_read three (pos 1) true opened).1).0
    ≡ (pos 0, some 101)
unfolding fat32_dir_open fat32_dir_read open_loop read_entry slot_of
second_read = refl

fat32_dir_open_lem_example : Opens three driver [] 0 10 (fat32_dir_open three (some []) driver)
fat32_dir_open_lem_example = fat32_dir_open_lem three [] driver refl

fat32_dir_read_lem_example :
    (let c = three.fat_dir_read (looks_at three driver 0).0 (looks_at three driver 0).1 in
      let r = fat32_dir_read three (pos 0) true driver in
      (r.0 ≡ (c.result.0, some c.result.1))
      × (slot_at three r.1 0 ≡ record { dir = c.dir; used = true; need_next = true })
      × (r.1.fat ≡ c.fat)
      × ((j : ℕ) → 0 ≢ j → slot_at three r.1 j ≡ slot_at three driver j))
fat32_dir_read_lem_example = fat32_dir_read_lem three 0 driver refl (omega arith) refl refl

fat32_dir_close_lem_example :
    (let t = (fat32_dir_close three (pos 0) driver).1 in
      ((fat32_dir_close three (pos 0) driver).0 ≡ fat_err_none)
      × (fat32_dir_close three (pos 0) t ≡ (fat_err_param, t))
      × (fat32_dir_read three (pos 0) true t ≡ ((fat_err_param, none), t))
      × ((j : ℕ) → 0 ≢ j → slot_at three t j ≡ slot_at three driver j))
fat32_dir_close_lem_example = fat32_dir_close_lem three 0 true driver refl (omega arith) refl
