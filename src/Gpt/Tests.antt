-- ===== src/Gpt/Tests.antt =====
-- Two small disks searched for the EFI system partition, and the theorems at them.
use trs.Common.{
  ℕ, ◌+◌, ◌-◌, ◌||◌, ◌≡◌, refl, arith, ltb, leb, ◌==◌, ◌&&◌, if◌then◌else◌, Option, none, some,
  get_or,
}
use trs.Common.Memory.{Mem}
use trs.BootInfo.{load_le}
use trs.Gpt.{signature, esp_type_guid, bytes_are, all_zero, header_ok, gpt_find_partition}
use trs.Gpt.Search.{later_entries_lost}

-- 128 entries of 128 bytes from sector 2 on.
abbrev header : Mem
header a =
    if ltb a 8
    then get_or signature a 0
    else if a == 72
    then 2
    else if a == 80 || a == 84
    then 128
    else 0

-- The system partition, from sector 34 to sector 99, at a place of the sector.
abbrev entries : ℕ → Mem
entries at a =
    if leb at a && ltb a (at + 16)
    then get_or esp_type_guid (a - at) 0
    else if a == at + 32
    then 34
    else if a == at + 40
    then 99
    else 0

abbrev disk : ℕ → ℕ → ℕ → Option Mem × ℕ
disk at lba reads = (some (if lba == 1 then header else entries at), reads + 1)

-- The system partition is the second entry.
later_entries_lost_example : gpt_find_partition (disk 128) esp_type_guid 0 ≡ (none, 2)
unfolding header_ok bytes_are all_zero load_le
later_entries_lost_example =
    later_entries_lost (disk 128) esp_type_guid header (entries 128) 0 1 2 refl refl refl refl
      (omega arith)
