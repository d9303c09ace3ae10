-- ===== src/Disk/Probe.antt =====
-- What `disk_init` of kernel/driver/disk.c puts in the table of disks.
use trs.Common.{
  ℕ, ◌+◌, ◌≤◌, ◌<◌, ◌≡◌, refl, ◌⊎◌, inl, inr, arith, Bool, not, ◌||◌, ◌==◌, leb, Bool-cases,
  Option-cases, if◌then◌else◌, u8, List, [], ◌∷◌, ◌++◌, Option, none, some, nonzero, length,
  length-append,
}
use trs.Ports.{World, inb}
use trs.Disk.{
  Disk, disk_max, ata_lba28_max, sectors_of, ata_identify, probe_loop, channels, disk_init,
  identify_command, ata_wait_bsy, ata_wait_drq, read_words,
}

-- An entry of the table.
pub record IsDisk (disk : Disk) : Type 0 where
  pub drive_in : disk.drive < 2
  pub size : (0 < disk.sectors) × (disk.sectors ≤ ata_lba28_max)
  pub is_present : disk.present ≡ 1
  pub channel :
      ((disk.io_base ≡ 0x1f0) × (disk.ctrl_base ≡ 0x3f6))
      ⊎ ((disk.io_base ≡ 0x170) × (disk.ctrl_base ≡ 0x376))

abbrev pub AllDisks : List Disk → Type 0
AllDisks [] = Unit {0}
AllDisks (d ∷ ds) = IsDisk d × AllDisks ds

AllDisks-append : (xs ys : List Disk) → AllDisks xs → AllDisks ys → AllDisks (xs ++ ys)
AllDisks-append [] ys h k = k
AllDisks-append (x ∷ xs) ys h k = (h.0, AllDisks-append xs ys h.1 k)

sectors_of_range : (id : List ℕ) {n : ℕ} → sectors_of id ≡ some n → (0 < n) × (n ≤ ata_lba28_max)
unfolding sectors_of
sectors_of_range id h = ground arith

-- The result of the ladder of early returns.
ladder :
    (a b c d e : Bool) (id : List ℕ) (w1 w2 w3 w4 w5 w6 : World) (n : ℕ)
    → let r : Option ℕ × World =
        if a
        then (none, w1)
        else if b
        then (none, w2)
        else if c
        then (none, w3)
        else if d
        then (none, w4)
        else if e
        then (none, w5)
        else (sectors_of id, w6) in
      r.0 ≡ some n → sectors_of id ≡ some n
ladder a b c d e id w1 w2 w3 w4 w5 w6 n h = ground arith

identify_range :
    (io ctrl drive : ℕ) (w : World) (n : ℕ)
    → (ata_identify io ctrl drive w).0 ≡ some n
    → (0 < n) × (n ≤ ata_lba28_max)
unfolding ata_identify
identify_range io ctrl drive w n h =
    let s1 = inb (io + 7) (identify_command io ctrl drive w) in
    let s2 = ata_wait_bsy io s1.1 in
    let s3 = inb (io + 4) s2.1 in
    let s4 = inb (io + 5) s3.1 in
    let s5 = ata_wait_drq io s4.1 in
    let s6 = read_words 256 io s5.1 in
    sectors_of_range s6.0 (
      ladder (s1.0 == 0 || s1.0 == 0xff) (not s2.0) (nonzero s3.0) (nonzero s4.0) (not s5.0) s6.0
        s1.1 s2.1 s3.1 s4.1 s5.1 s6.1 n h)

-- A channel and a drive that `disk_init` probes.
abbrev IsPlace : ℕ × ℕ × ℕ → Type 0
IsPlace (io, ctrl, drive) =
    (drive < 2) × (((io ≡ 0x1f0) × (ctrl ≡ 0x3f6)) ⊎ ((io ≡ 0x170) × (ctrl ≡ 0x376)))

abbrev AllPlaces : List (ℕ × ℕ × ℕ) → Type 0
AllPlaces [] = Unit {0}
AllPlaces (p ∷ ps) = IsPlace p × AllPlaces ps

probe_loop-AllDisks :
    (places : List (ℕ × ℕ × ℕ)) (disks : List Disk) (w : World)
    → AllPlaces places
    → AllDisks disks
    → length disks ≤ disk_max
    → let r = (probe_loop places disks w).0 in AllDisks r × (length r ≤ disk_max)
unfolding probe_loop
probe_loop-AllDisks [] disks w ps ds room = (ds, room)
probe_loop-AllDisks ((io, ctrl, drive) ∷ rest) disks w ((small, place), ps) ds room =
    elim (Bool-cases (leb disk_max (length disks))) [
      | inl full ↦ rw full (ds, room)
      | inr space ↦ rw space (elim (Option-cases (ata_identify io ctrl (u8 drive) w).0) [
        | inl e ↦
            rw (e, probe_loop)
              (probe_loop-AllDisks rest disks (ata_identify io ctrl (u8 drive) w).1 ps ds room)
        | inr (n, e) ↦
            let disk : Disk = record {
              sectors = n;
              io_base = io;
              ctrl_base = ctrl;
              drive = u8 drive;
              present = 1;
            } in
            let is : IsDisk disk = record {
              drive_in = omega arith;
              size = identify_range io ctrl (u8 drive) w n e;
              is_present = refl;
              channel = place;
            } in
            rw (e, probe_loop)
              (probe_loop-AllDisks rest (disks ++ disk ∷ []) (ata_identify io ctrl (u8 drive) w).1
                ps (AllDisks-append disks (disk ∷ []) ds (is, tt))
                (ground (arith, length-append disks (disk ∷ []))))
      ])
    ]

-- Whatever the hardware answers, `disk_init` finds at most four disks. Each of them is on one of
-- the two channels as drive 0 or 1, is marked present, and has at least one sector.
pub disk_init-AllDisks :
    (w : World) → AllDisks (disk_init w).0 × (length (disk_init w).0 ≤ disk_max)
unfolding disk_init
disk_init-AllDisks w = probe_loop-AllDisks channels [] w (omega arith) tt (omega arith)
