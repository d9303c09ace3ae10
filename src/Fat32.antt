-- ===== src/Fat32.antt =====
-- kernel/driver/fat32.c: the table of open directories over the FAT library, which is a parameter:
-- its calls on a directory, and the state `F` of its volumes that they change.
pub mod Table
pub mod Handles
pub mod Tests
use trs.Common.{
  u64, ℕ, zero, suc, ◌+◌, Bool, true, false, not, ◌&&◌, ◌||◌, ltb, if◌then◌else◌, List, [], ◌∷◌,
  set, get_or, get_elem?, Option, none, some, ℤ, pos, negsuc, u32,
}
use trs.Common.Memory.{Mem}
use trs.Ports.{World}
use trs.Disk.{Disk, read_disk, write_disk}
use trs.Gpt.{Part, gpt_find_esp}

-- Error codes of trfs/fat32/fat.h.
abbrev pub fat_err_none : ℤ
fat_err_none = pos 0

abbrev pub max_opendirs : ℕ
max_opendirs = 10

-- `DirSlot`
pub record DirSlot (D : Type 0) : Type 0 where
  pub dir : D
  pub used : Bool
  pub need_next : Bool

-- What a call leaves: a result, the directory and the library's state.
pub record Call (D F R : Type 0) : Type 0 where
  pub result : R
  pub dir : D
  pub fat : F

-- The calls of the FAT library that the driver makes.
pub record FatDir (D F Info : Type 0) : Type 0 where
  -- What `memset` to 0 makes of a directory.
  pub zeroed : D
  pub fat_dir_open : D → List ℕ → F → Call D F ℤ
  pub fat_dir_next : D → F → Call D F ℤ
  pub fat_dir_read : D → F → Call D F (ℤ × Info)

-- The driver's static variables.
pub record Driver (D F : Type 0) : Type 0 where
  pub disk_id : ℕ
  pub base_lba : ℕ
  pub mounted : Bool
  pub dirs : List (DirSlot D)
  pub fat : F

abbrev pub fat_err_nofat : ℤ
fat_err_nofat = negsuc 0

abbrev pub fat_err_param : ℤ
fat_err_param = negsuc 3

abbrev pub fat_err_full : ℤ
fat_err_full = negsuc 7

-- `rc == FAT_ERR_NONE`
abbrev pub is_ok : ℤ → Bool
is_ok (pos zero) = true
is_ok (pos (suc n)) = false
is_ok (negsuc n) = false

module _ {D F Info : Type 0} (lib : FatDir D F Info) where
  -- A slot set to 0.
  abbrev pub zero_slot : DirSlot D
  zero_slot = record { dir = lib.zeroed; used = false; need_next = false }

  abbrev pub slot_at : Driver D F → ℕ → DirSlot D
  slot_at d i = get_or d.dirs i zero_slot

  -- The driver after a call on the directory of slot `i`, which is left with the flags given.
  abbrev pub with_slot : {R : Type 0} → Driver D F → ℕ → Call D F R → Bool → Bool → Driver D F
  with_slot d i c used need_next = record d {
    dirs = set d.dirs i (record { dir = c.dir; used = used; need_next = need_next });
    fat = c.fat;
  }

  -- The loop of `fat32_dir_open`, from slot `i` on, for `left` turns.
  unfoldable pub open_loop : ℕ → ℕ → List ℕ → Driver D F → ℤ × Driver D F
  open_loop zero i path d = (fat_err_full, d)
  open_loop (suc left) i path d =
      let rest = open_loop left (i + 1) path d in
      let s = slot_at d i in
      let c = lib.fat_dir_open s.dir path d.fat in
      if s.used
      then rest
      else if not (is_ok c.result)
      then (c.result, with_slot d i c s.used s.need_next)
      else (pos i, with_slot d i c true false)

  -- `path` is `none` for a null pointer.
  unfoldable pub fat32_dir_open : Option (List ℕ) → Driver D F → ℤ × Driver D F
  fat32_dir_open none d = (fat_err_param, d)
  fat32_dir_open (some path) d =
      if not d.mounted then (fat_err_param, d) else open_loop max_opendirs 0 path d

  -- The handle that an `int` is, if it is one of a slot in use.
  unfoldable pub slot_of : ℤ → Driver D F → Option ℕ
  slot_of (negsuc n) d = none
  slot_of (pos n) d = if ltb n max_opendirs && (slot_at d n).used then some n else none

  -- The end of `fat32_dir_read`: `need_next` is set, and the entry read.
  unfoldable pub read_entry : ℕ → D → Driver D F → (ℤ × Option Info) × Driver D F
  read_entry i dir d =
      let c = lib.fat_dir_read dir d.fat in
      ((c.result.0, some c.result.1), with_slot d i c (slot_at d i).used true)

  -- `given` tells whether `info` is not null. The information is that of the library's last call,
  -- if one was made.
  unfoldable pub fat32_dir_read : ℤ → Bool → Driver D F → (ℤ × Option Info) × Driver D F
  fat32_dir_read slot given d = elim (slot_of slot d) [
    | none ↦ ((fat_err_param, none), d)
    | some i ↦
        let s = slot_at d i in
        let n = lib.fat_dir_next s.dir d.fat in
        let moved = with_slot d i n s.used s.need_next in
        if not given
        then ((fat_err_param, none), d)
        else if not s.need_next
        then read_entry i s.dir d
        else if not (is_ok n.result)
        then ((n.result, none), moved)
        else read_entry i n.dir moved
  ]

  unfoldable pub fat32_dir_close : ℤ → Driver D F → ℤ × Driver D F
  fat32_dir_close slot d = elim (slot_of slot d) [
    | none ↦ (fat_err_param, d)
    | some i ↦ (fat_err_none, record d { dirs = set d.dirs i zero_slot })
  ]

-- `fat32_init`. A sector of the volume is the disk's sector behind the first one of the partition,
-- whose number is kept in 32 bits. `fat_mount` is the library's, and takes the disk, that number
-- and the world whose sectors it reads.
unfoldable pub fat32_init :
    {D F W : Type 0}
    → (ℕ → ℕ → W → Option Mem × W)
    → (ℕ → ℕ → F → W → (ℤ × F) × W)
    → ℕ
    → Driver D F
    → W
    → ℤ × Driver D F × W
fat32_init read_sector fat_mount disk_id d w =
    let r = gpt_find_esp (read_sector disk_id) w in
    elim r.0 [
      | none ↦ (fat_err_nofat, d, r.1)
      | some esp ↦
          let base = u32 esp.first_lba in
          let m = fat_mount disk_id base d.fat r.1 in
          let here = record d { disk_id = disk_id; base_lba = base; fat = m.0.1 } in
          if is_ok m.0.0
          then (fat_err_none, record here { mounted = true }, m.1)
          else (m.0.0, here, m.1)
    ]

-- The two callbacks that the library reads and writes sectors by, and whether they succeed.
unfoldable pub fat32_read_sect :
    {D F : Type 0} → List Disk → Driver D F → ℕ → ℕ → World → (Bool × List ℕ) × World
fat32_read_sect disks d buf sect w =
    let r = read_disk disks d.disk_id (u64 (d.base_lba + sect)) 1 buf w in
    ((is_ok r.0.0, r.0.1), r.1)

-- The words are those that stand from `buf` on.
unfoldable pub fat32_write_sect :
    {D F : Type 0} → List Disk → Driver D F → ℕ → List ℕ → ℕ → World → Bool × World
fat32_write_sect disks d buf words sect w =
    let r = write_disk disks d.disk_id (u64 (d.base_lba + sect)) 1 buf words w in (is_ok r.0, r.1)

-- `fat32_get`; `none` is a null pointer.
unfoldable pub fat32_get : {D F : Type 0} → Driver D F → Option F
fat32_get d = if d.mounted then some d.fat else none
