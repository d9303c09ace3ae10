-- ===== src/Disk/Transfer.antt =====
-- How many words the transfers of kernel/driver/disk.c store, and which calls they refuse.
use trs.Common.{
  ℕ, zero, suc, ◌+◌, ◌*◌, ◌^◌, ◌≤◌, ◌<◌, ◌≡◌, ◌≢◌, ◌↔◌, refl, ap, ◌⊎◌, inl, inr, arith, true, false,
  Bool-cases, Option-cases, u64, List, [], none, some, get_elem?, length, length-append, pos,
  minus_one,
}
use trs.Ports.{World, inw}
use trs.Disk.{
  Disk, ata_delay400, ata_wait_bsy, ata_wait_drq, read_words, ata_command, admits, read_sectors,
  read_disk, write_disk,
}

-- The calls that the guards let pass.
pub record IsAdmitted (disks : List Disk) (id lba count buf : ℕ) (disk : Disk) : Type 0 where
  pub known : get_elem? disks id ≡ some disk
  pub somewhere : buf ≢ 0
  pub some_sectors : (0 < count) × (count ≤ 255)
  pub inside : u64 (lba + count) ≤ disk.sectors

-- The guards pass exactly the calls for a known disk, a buffer that is not null, 1 to 255 sectors
-- and an end, as a 64-bit sum, within the disk.
pub admits_iff :
    (disks : List Disk) (id lba count buf : ℕ) (disk : Disk)
    → (admits disks id lba count buf ≡ some disk) ↔ IsAdmitted disks id lba count buf disk
unfolding admits
admits_iff disks id lba count buf disk = (there, back)
  where
    there : admits disks id lba count buf ≡ some disk → IsAdmitted disks id lba count buf disk
    there h = ground arith

    back : IsAdmitted disks id lba count buf disk → admits disks id lba count buf ≡ some disk
    back a = ground (arith, a.known, a.somewhere, a.some_sectors, a.inside)

length-read_words : (n io : ℕ) (w : World) → length (read_words n io w).0 ≡ n
unfolding read_words
length-read_words zero io w = refl
length-read_words (suc n) io w = ap suc (length-read_words n io (inw io w).1)

read_sectors_size :
    (n : ℕ) (disk : Disk) (w : World)
    → let r = (read_sectors n disk w).0 in
      ((r.0 ≡ true) × (length r.1 ≡ n * 256)) ⊎ ((r.0 ≡ false) × (length r.1 < n * 256))
unfolding read_sectors
read_sectors_size zero disk w = inl (refl, refl)
read_sectors_size (suc n) disk w =
    let a = ata_wait_bsy disk.io_base w in
    let b = ata_wait_drq disk.io_base a.1 in
    let c = read_words 256 disk.io_base b.1 in
    let d = ata_delay400 disk.ctrl_base c.1 in
    let rest = read_sectors n disk d in
    let whole = length-append c.0 rest.0.1 in
    let first = length-read_words 256 disk.io_base b.1 in
    elim (Bool-cases a.0) [
      | inr e ↦ rw e (inr (refl, omega arith))
      | inl e ↦ elim (Bool-cases b.0) [
        | inr f ↦ rw (e, f) (inr (refl, omega arith))
        | inl f ↦
            rw (e, f)
              (elim (read_sectors_size n disk d) [
                | inl (ok, size) ↦ inl (ok, omega arith)
                | inr (ok, size) ↦ inr (ok, omega arith)
              ])
      ]
    ]

-- Whatever the hardware answers, `read_disk` returns 0 for a call that its guards admit, with the
-- 256 words of each sector stored, or it returns -1 with fewer words stored, or none.
pub read_disk_size :
    (disks : List Disk) (id lba count buf : ℕ) (w : World)
    → let r = (read_disk disks id lba count buf w).0 in
      ((r.0 ≡ pos 0)
        × (length r.1 ≡ count * 256)
        × ((disk : Disk) × IsAdmitted disks id lba count buf disk))
      ⊎ ((r.0 ≡ minus_one) × ((length r.1 < count * 256) ⊎ (length r.1 ≡ 0)))
unfolding read_disk
read_disk_size disks id lba count buf w = elim (Option-cases (admits disks id lba count buf)) [
  | inl e ↦ rw (e, read_disk) (inr (refl, inr refl))
  | inr (disk, e) ↦
      let a = ata_wait_bsy disk.io_base w in
      let c = ata_command disk lba count 0x20 a.1 in
      let admitted = (admits_iff disks id lba count buf disk).0 e in
      elim (Bool-cases a.0) [
        | inr f ↦ rw (e, read_disk) (rw f (inr (refl, inr refl)))
        | inl f ↦
            rw (e, read_disk)
              (rw f (elim (read_sectors_size count disk c) [
                | inl (ok, size) ↦ rw ok (inl (refl, size, (disk, admitted)))
                | inr (ok, size) ↦ rw ok (inr (refl, inl size))
              ]))
      ]
]

-- A call that the guards refuse returns -1 and touches neither buffer nor hardware, read or write.
pub refused :
    (disks : List Disk) (id lba count buf : ℕ) (words : List ℕ) (w : World)
    → admits disks id lba count buf ≡ none
    → (read_disk disks id lba count buf w ≡ ((minus_one, []), w))
      × (write_disk disks id lba count buf words w ≡ (minus_one, w))
unfolding read_disk write_disk
refused disks id lba count buf words w e = (rw (e, read_disk), rw (e, write_disk))

-- The 64-bit sum of the guard wraps: a sector number so large that the end passes `2 ^ 64` is
-- admitted, for a known disk of less than `2 ^ 63` sectors, a buffer that is not null and 1 to 255
-- sectors, if the disk is not smaller than what is left of the sum; the sector lies past its end.
pub wrapped_admitted :
    (disks : List Disk) (id lba count buf : ℕ) (disk : Disk)
    → get_elem? disks id ≡ some disk
    → buf ≢ 0
    → 0 < count
    → count ≤ 255
    → lba < 2 ^ 64
    → 2 ^ 64 ≤ lba + count
    → lba + count ≤ 2 ^ 64 + disk.sectors
    → disk.sectors < 2 ^ 63
    → (admits disks id lba count buf ≡ some disk) × (disk.sectors < lba)
wrapped_admitted disks id lba count buf disk known here lo hi in_range wraps fits small = (
  (admits_iff disks id lba count buf disk).1
      (record { known = known; somewhere = here; some_sectors = (lo, hi); inside = omega arith }),
  omega arith,
)
