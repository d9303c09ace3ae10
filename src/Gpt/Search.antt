-- ===== src/Gpt/Search.antt =====
-- What `gpt_find_partition` of kernel/driver/gpt.c finds, and what it does not.
use trs.Common.{
  ℕ, zero, suc, ◌+◌, ◌-◌, ◌*◌, ◌/◌, ◌%◌, ◌^◌, ◌≤◌, ◌<◌, ◌≡◌, refl, ◌∙◌, ap, arith, Bool, true,
  false, not, ◌&&◌, ◌==◌, ltb, if◌then◌else◌, u64, List, Option, none, some,
}
use trs.Common.Memory.{Mem}
use trs.Gpt.{
  parts_lba, parts_count, parts_size, entry_first_lba, entry_last_lba, disk_sector_size, bytes_are,
  all_zero, header_ok, load_entries, search_loop, gpt_find_partition,
}

-- The entry at an offset of a sector is in use and has the type looked for.
abbrev pub is_match : List ℕ → Mem → ℕ → Bool
is_match type_guid sec entry = not (all_zero 16 sec entry) && bytes_are sec entry type_guid

header_bounds :
    (h : Mem)
    → header_ok h ≡ true
    → (0 < parts_count h) × (128 ≤ parts_size h) × (parts_size h ≤ 512)
unfolding header_ok
header_bounds h ok = ground arith

module _ {W : Type 0} (read_sector : ℕ → W → Option Mem × W) (type_guid : List ℕ) where
  -- A turn of the loop at which a sector of entries is read.
  reading_turn :
      (left i per : ℕ) (h s : Mem) (w1 w2 : W)
      → i % per ≡ 0
      → i < parts_count h
      → read_sector (u64 (parts_lba h + i / per)) w1 ≡ (some s, w2)
      → search_loop read_sector (suc left) i per type_guid h w1 ≡ (
          if is_match type_guid s 0
          then (
            some (record { first_lba = entry_first_lba s 0; last_lba = entry_last_lba s 0 }),
            w2,
          )
          else search_loop read_sector left (i + 1) per type_guid s w2)
  unfolding search_loop load_entries
  reading_turn left i per h s w1 w2 m lt entries =
      let b : (i % per == 0) ≡ true = ground arith in
      let t : ltb i (parts_count h) ≡ true = ground arith in
      let z0 : 0 * parts_count s ≡ 0 = omega arith in
      let z : i % per * parts_count s ≡ 0 = ap (λ x. x * parts_count s) m ∙ z0 in
      let e : load_entries read_sector i per h w1 ≡ (some s, w2) = rw b entries in
      let found = ap (λ r. r.0) e in
      let left_world = ap (λ r. r.1) e in rw (search_loop, t, found, z, left_world) refl

  last_turn :
      (left i per : ℕ) (s : Mem) (w : W)
      → parts_count s ≤ i
      → search_loop read_sector left i per type_guid s w ≡ (none, w)
  unfolding search_loop
  last_turn zero i per s w le = refl
  last_turn (suc left) i per s w le = let t : ltb i (parts_count s) ≡ false = ground arith in rw t

  -- The first turn of the search, behind a header that passes the checks.
  search_begin :
      (h s : Mem) (w w1 w2 : W)
      → read_sector 1 w ≡ (some h, w1)
      → header_ok h ≡ true
      → read_sector (u64 (parts_lba h)) w1 ≡ (some s, w2)
      → gpt_find_partition read_sector type_guid w ≡ (
          if is_match type_guid s 0
          then (
            some (record { first_lba = entry_first_lba s 0; last_lba = entry_last_lba s 0 }),
            w2,
          )
          else search_loop read_sector
              (2 ^ 32 - 1)
              1
              (disk_sector_size / parts_size h)
              type_guid
              s
              w2)
  unfolding gpt_find_partition
  search_begin h s w w1 w2 header ok entries =
      let (some_parts, low, high) = header_bounds h ok in
      let per = disk_sector_size / parts_size h in
      let same : parts_lba h + 0 / per ≡ parts_lba h = omega arith in
      let read = ap (λ r. r.0) header in
      let read_world = ap (λ r. r.1) header in
      rw (gpt_find_partition, read, ok, read_world)
        (reading_turn (2 ^ 32 - 1) 0 per h s w1 w2 (omega arith) some_parts
          (ap (λ x. read_sector (u64 x) w1) same ∙ entries))

  -- Where the header's sector and the first sector of entries can be read and the header passes the
  -- checks, the partition of the first entry is found when that entry is in use and its type is the
  -- one looked for: both of its addresses are returned.
  pub first_entry_found :
      (h s : Mem) (w w1 w2 : W)
      → read_sector 1 w ≡ (some h, w1)
      → header_ok h ≡ true
      → read_sector (u64 (parts_lba h)) w1 ≡ (some s, w2)
      → is_match type_guid s 0 ≡ true
      → gpt_find_partition read_sector type_guid w
        ≡ (some (record { first_lba = entry_first_lba s 0; last_lba = entry_last_lba s 0 }), w2)
  first_entry_found h s w w1 w2 header ok entries match =
      search_begin h s w w1 w2 header ok entries ∙ rw match refl

  -- Where the header's sector and the first sector of entries can be read and the header passes the
  -- checks, nothing is found, whatever the later entries hold, when the first entry does not match
  -- and bytes 80 to 83 of the sector of entries, which stand where the header had its count
  -- of entries, give a number below 2: the loop takes its bound from the entries it has read.
  pub later_entries_lost :
      (h s : Mem) (w w1 w2 : W)
      → read_sector 1 w ≡ (some h, w1)
      → header_ok h ≡ true
      → read_sector (u64 (parts_lba h)) w1 ≡ (some s, w2)
      → is_match type_guid s 0 ≡ false
      → parts_count s ≤ 1
      → gpt_find_partition read_sector type_guid w ≡ (none, w2)
  later_entries_lost h s w w1 w2 header ok entries other few =
      search_begin h s w w1 w2 header ok entries
      ∙ rw other (last_turn (2 ^ 32 - 1) 1 (disk_sector_size / parts_size h) s w2 few)
