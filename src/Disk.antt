-- ===== src/Disk.antt =====
-- kernel/driver/disk.c and kernel/inc/disk.h: the polled ATA driver, LBA28. The table of disks is
-- the list of those found, so `disk_num` is its length; a word is 16 bits.
pub mod Address
pub mod Transfer
pub mod Probe
pub mod Tests
use trs.Common.{
  ℕ, zero, suc, ◌+◌, ◌*◌, ◌/◌, ◌^◌, Bool, true, false, not, ◌&&◌, ◌||◌, ◌==◌, ltb, leb,
  if◌then◌else◌, bit_and, bit_or, u8, u64, has_bits, nonzero, List, [], ◌∷◌, ◌++◌, Option, none,
  some, length, get_elem?, get_or, drop, ℤ, pos, minus_one,
}
use trs.Ports.{World, inb, inw, outb, outw}

abbrev pub disk_max : ℕ
disk_max = 4

-- `ATA_LBA28_MAX`: nine hexadecimal digits, the first of them 0.
abbrev pub ata_lba28_max : ℕ
ata_lba28_max = 0xffffffff

abbrev pub poll_limit : ℕ
poll_limit = 10000000

-- `disk_t`
pub record Disk : Type 0 where
  pub sectors : ℕ
  pub io_base : ℕ
  pub ctrl_base : ℕ
  pub drive : ℕ
  pub present : ℕ

abbrev pub ata_delay400 : ℕ → World → World
ata_delay400 ctrl w = (inb ctrl (inb ctrl (inb ctrl (inb ctrl w).1).1).1).1

-- The polls left; `true` is the code 0 and `false` the code -1.
unfoldable pub wait_bsy_loop : ℕ → ℕ → World → Bool × World
wait_bsy_loop zero io w = (false, w)
wait_bsy_loop (suc polls) io w =
    let (st, w') = inb (io + 7) w in
    let rest = wait_bsy_loop polls io w' in if has_bits st 0x80 then rest else (true, w')

unfoldable pub ata_wait_bsy : ℕ → World → Bool × World
ata_wait_bsy io w = wait_bsy_loop poll_limit io w

unfoldable pub wait_drq_loop : ℕ → ℕ → World → Bool × World
wait_drq_loop zero io w = (false, w)
wait_drq_loop (suc polls) io w =
    let (st, w') = inb (io + 7) w in
    let rest = wait_drq_loop polls io w' in
    if has_bits st (bit_or 0x01 0x20)
    then (false, w')
    else if has_bits st 0x08
    then (true, w')
    else rest

unfoldable pub ata_wait_drq : ℕ → World → Bool × World
ata_wait_drq io w = wait_drq_loop poll_limit io w

-- `n` words from the data port.
unfoldable pub read_words : ℕ → ℕ → World → List ℕ × World
read_words zero io w = ([], w)
read_words (suc n) io w =
    let (word, w') = inw io w in let r = read_words n io w' in (word ∷ r.0, r.1)

-- The writes of `ata_identify` up to its command.
unfoldable pub identify_command : ℕ → ℕ → ℕ → World → World
identify_command io ctrl drive w =
    let w1 = outb ctrl 0x02 w in
    let w2 = ata_delay400 ctrl (outb (io + 6) (u8 (bit_or 0xa0 (drive * 2 ^ 4))) w1) in
    let w3 = outb (io + 5) 0 (outb (io + 4) 0 (outb (io + 3) 0 (outb (io + 2) 0 w2))) in
    ata_delay400 ctrl (outb (io + 7) 0xec w3)

-- `((unsigned long long)id[61] << 16) | id[60]`, cut off at the limit; 0 is refused.
unfoldable pub sectors_of : List ℕ → Option ℕ
sectors_of id =
    let sectors = bit_or (get_or id 61 0 * 2 ^ 16) (get_or id 60 0) in
    if sectors == 0
    then none
    else if ltb ata_lba28_max sectors
    then some ata_lba28_max
    else some sectors

-- `none` is the code -1; otherwise the size that goes through `out`.
unfoldable pub ata_identify : ℕ → ℕ → ℕ → World → Option ℕ × World
ata_identify io ctrl drive w =
    let (st, w1) = inb (io + 7) (identify_command io ctrl drive w) in
    let (idle, w2) = ata_wait_bsy io w1 in
    let (mid, w3) = inb (io + 4) w2 in
    let (high, w4) = inb (io + 5) w3 in
    let (ready, w5) = ata_wait_drq io w4 in
    let (id, w6) = read_words 256 io w5 in
    if st == 0 || st == 0xff
    then (none, w1)
    else if not idle
    then (none, w2)
    else if nonzero mid
    then (none, w3)
    else if nonzero high
    then (none, w4)
    else if not ready
    then (none, w5)
    else (sectors_of id, w6)

-- The body of the two loops of `disk_init`, over the channels and drives left.
unfoldable pub probe_loop : List (ℕ × ℕ × ℕ) → List Disk → World → List Disk × World
probe_loop [] disks w = (disks, w)
probe_loop ((io, ctrl, drive) ∷ rest) disks w =
    let (found, w') = ata_identify io ctrl (u8 drive) w in
    let next =
      probe_loop rest
        (elim found [
          | none ↦ disks
          | some sectors ↦
              disks
              ++ record {
                sectors = sectors;
                io_base = io;
                ctrl_base = ctrl;
                drive = u8 drive;
                present = 1;
              }
                ∷ []
        ])
        w' in
    if leb disk_max (length disks) then (disks, w) else next

abbrev pub channels : List (ℕ × ℕ × ℕ)
channels = (0x1f0, 0x3f6, 0) ∷ (0x1f0, 0x3f6, 1) ∷ (0x170, 0x376, 0) ∷ (0x170, 0x376, 1) ∷ []

-- The table of disks; the result of the call is its length.
unfoldable pub disk_init : World → List Disk × World
disk_init w = probe_loop channels [] w

unfoldable pub disk_count : List Disk → ℕ
disk_count disks = length disks

unfoldable pub disk_get : List Disk → ℕ → Option Disk
disk_get disks id = get_elem? disks id

-- The writes that `read_disk` and `write_disk` share, up to the command.
unfoldable pub ata_command : Disk → ℕ → ℕ → ℕ → World → World
ata_command disk lba count command w =
    let io = disk.io_base in
    let select = u8 (bit_or (bit_or 0xe0 (disk.drive * 2 ^ 4)) (bit_and (lba / 2 ^ 24) 0x0f)) in
    let w1 = ata_delay400 disk.ctrl_base (outb (io + 6) select w) in
    let w2 = outb (io + 2) (u8 count) (outb (io + 1) 0 w1) in
    let w3 = outb (io + 3) (u8 (bit_and lba 0xff)) w2 in
    let w4 = outb (io + 4) (u8 (bit_and (lba / 2 ^ 8) 0xff)) w3 in
    outb (io + 7) command (outb (io + 5) (u8 (bit_and (lba / 2 ^ 16) 0xff)) w4)

-- The guards that both functions begin with.
unfoldable pub admits : List Disk → ℕ → ℕ → ℕ → ℕ → Option Disk
admits disks id lba count buf = elim (get_elem? disks id) [
  | none ↦ none
  | some disk ↦
      if buf == 0 || count == 0 || ltb 255 count || ltb disk.sectors (u64 (lba + count))
      then none
      else some disk
]

-- The loop over the sectors left: whether all came, and the words stored.
unfoldable pub read_sectors : ℕ → Disk → World → (Bool × List ℕ) × World
read_sectors zero disk w = ((true, []), w)
read_sectors (suc left) disk w =
    let (idle, w1) = ata_wait_bsy disk.io_base w in
    let (ready, w2) = ata_wait_drq disk.io_base w1 in
    let (words, w3) = read_words 256 disk.io_base w2 in
    let rest = read_sectors left disk (ata_delay400 disk.ctrl_base w3) in
    if not idle
    then ((false, []), w1)
    else if not ready
    then ((false, []), w2)
    else ((rest.0.0, words ++ rest.0.1), rest.1)

-- The code, and the words stored from `buf` on.
unfoldable pub read_disk : List Disk → ℕ → ℕ → ℕ → ℕ → World → (ℤ × List ℕ) × World
read_disk disks id lba count buf w = elim (admits disks id lba count buf) [
  | none ↦ ((minus_one, []), w)
  | some disk ↦
      let (idle, w1) = ata_wait_bsy disk.io_base w in
      let r = read_sectors count disk (ata_command disk lba count 0x20 w1) in
      if not idle then ((minus_one, []), w1) else ((if r.0.0 then pos 0 else minus_one, r.0.1), r.1)
]

unfoldable pub write_words : ℕ → List ℕ → ℕ → World → World
write_words zero words io w = w
write_words (suc n) [] io w = w
write_words (suc n) (word ∷ words) io w = write_words n words io (outw word io w)

-- The loop over the sectors left, with the words from `p` on.
unfoldable pub write_sectors : ℕ → List ℕ → Disk → World → Bool × World
write_sectors zero p disk w = (true, w)
write_sectors (suc left) p disk w =
    let (idle, w1) = ata_wait_bsy disk.io_base w in
    let (ready, w2) = ata_wait_drq disk.io_base w1 in
    let w3 = ata_delay400 disk.ctrl_base (write_words 256 p disk.io_base w2) in
    let rest = write_sectors left (drop 256 p) disk w3 in
    if not idle then (false, w1) else if not ready then (false, w2) else rest

-- The words are those that stand from `buf` on.
unfoldable pub write_disk : List Disk → ℕ → ℕ → ℕ → ℕ → List ℕ → World → ℤ × World
write_disk disks id lba count buf words w = elim (admits disks id lba count buf) [
  | none ↦ (minus_one, w)
  | some disk ↦
      let io = disk.io_base in
      let (idle, w1) = ata_wait_bsy io w in
      let (sent, w2) = write_sectors count words disk (ata_command disk lba count 0x30 w1) in
      let (done, w3) = ata_wait_bsy io w2 in
      let (flushed, w4) = ata_wait_bsy io (outb (io + 7) 0xe7 w3) in
      if not idle
      then (minus_one, w1)
      else if not sent
      then (minus_one, w2)
      else if not done
      then (minus_one, w3)
      else if not flushed
      then (minus_one, w4)
      else (pos 0, w4)
]
