-- ===== src/Gpt.antt =====
-- kernel/driver/gpt.c: finding a partition in the table of a disk. The buffer `sec` is one: the
-- header is a view of it, so its fields change when a sector of entries is read into it.
-- Reading a sector of the disk is the parameter `read_sector`.
pub mod Search
pub mod Tests
use trs.Common.{
  ℕ, zero, suc, ◌+◌, ◌-◌, ◌*◌, ◌/◌, ◌%◌, ◌^◌, Bool, true, false, not, ◌&&◌, ◌||◌, ◌==◌, ltb,
  if◌then◌else◌, u64, List, [], ◌∷◌, Option, none, some,
}
use trs.Common.Memory.{Mem}
use trs.BootInfo.{load_le}

abbrev pub disk_sector_size : ℕ
disk_sector_size = 512

-- `gpt_part_t`
pub record Part : Type 0 where
  pub first_lba : ℕ
  pub last_lba : ℕ

-- `gpt_header_t` and `gpt_entry_t`: fields of the packed structures by their offsets.
abbrev pub parts_lba : Mem → ℕ
parts_lba sec = load_le 8 sec 72

abbrev pub parts_count : Mem → ℕ
parts_count sec = load_le 4 sec 80

abbrev pub parts_size : Mem → ℕ
parts_size sec = load_le 4 sec 84

abbrev pub entry_size : ℕ
entry_size = 128

abbrev pub entry_first_lba : Mem → ℕ → ℕ
entry_first_lba sec entry = load_le 8 sec (entry + 32)

abbrev pub entry_last_lba : Mem → ℕ → ℕ
entry_last_lba sec entry = load_le 8 sec (entry + 40)

-- `memcmp(…) == 0` against constant bytes.
unfoldable pub bytes_are : Mem → ℕ → List ℕ → Bool
bytes_are sec a [] = true
bytes_are sec a (b ∷ bs) = sec a == b && bytes_are sec (a + 1) bs

-- The loop that sets `empty`: all `n` bytes from `a` on are 0.
unfoldable pub all_zero : ℕ → Mem → ℕ → Bool
all_zero zero sec a = true
all_zero (suc n) sec a = sec a == 0 && all_zero n sec (a + 1)

-- "EFI PART"
abbrev pub signature : List ℕ
signature = 0x45 ∷ 0x46 ∷ 0x49 ∷ 0x20 ∷ 0x50 ∷ 0x41 ∷ 0x52 ∷ 0x54 ∷ []

abbrev pub esp_type_guid : List ℕ
esp_type_guid =
    0x28 ∷ 0x73 ∷ 0x2a ∷ 0xc1 ∷ 0x1f ∷ 0xf8 ∷ 0xd2 ∷ 0x11 ∷ 0xba ∷ 0x4b ∷ 0x00 ∷ 0xa0 ∷ 0xc9 ∷ 0x3e
    ∷ 0xc9 ∷ 0x3b ∷ []

-- The checks of the header.
unfoldable pub header_ok : Mem → Bool
header_ok sec =
    bytes_are sec 0 signature
    && not (parts_count sec == 0 || ltb 512 (parts_count sec))
    && not (ltb (parts_size sec) entry_size || ltb disk_sector_size (parts_size sec))

-- Sectors read, one after another, from a device whose state is a `W`.
module _ {W : Type 0} (read_sector : ℕ → W → Option Mem × W) where
  -- The buffer that the turn for entry `i` looks at: at a multiple of the entries per sector, the
  -- next sector of entries, and otherwise what the buffer holds.
  unfoldable pub load_entries : ℕ → ℕ → Mem → W → Option Mem × W
  load_entries i per_sector sec w =
      if i % per_sector == 0
      then read_sector (u64 (parts_lba sec + i / per_sector)) w
      else (some sec, w)

  -- The loop from entry `i` on, for `left` turns. Each turn reads the count of entries, and their
  -- place, from what the buffer then holds. The entry of the source begins at
  -- `(i % parts_per_sector) * parts_count`.
  unfoldable pub search_loop : ℕ → ℕ → ℕ → List ℕ → Mem → W → Option Part × W
  search_loop zero i per_sector type_guid sec w = (none, w)
  search_loop (suc left) i per_sector type_guid sec w =
      let r = load_entries i per_sector sec w in
      let body : Mem → Option Part × W = λ s.
        let entry = i % per_sector * parts_count s in
        let next = search_loop left (i + 1) per_sector type_guid s r.1 in
        if not (all_zero 16 s entry) && bytes_are s entry type_guid
        then (
          some (record { first_lba = entry_first_lba s entry; last_lba = entry_last_lba s entry }),
          r.1,
        )
        else next in
      if ltb i (parts_count sec)
      then elim r.0 [ none ↦ (none, r.1) | some s ↦ body s ]
      else (none, w)

  -- `none` is the code -1. The count of a header is 512 at most, but the buffer's next content may
  -- show any 32-bit number in its place, and the loop counter is compared with that.
  unfoldable pub gpt_find_partition : List ℕ → W → Option Part × W
  gpt_find_partition type_guid w =
      let r = read_sector 1 w in
      elim r.0 [
        | none ↦ (none, r.1)
        | some sec ↦
            if header_ok sec
            then search_loop (2 ^ 32) 0 (disk_sector_size / parts_size sec) type_guid sec r.1
            else (none, r.1)
      ]

  unfoldable pub gpt_find_esp : W → Option Part × W
  gpt_find_esp w = gpt_find_partition esp_type_guid w
