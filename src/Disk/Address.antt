-- ===== src/Disk/Address.antt =====
-- What the driver of kernel/driver/disk.c writes to the device's registers, and the sector that
-- the device understands.
use trs.Common.{
  ℕ, zero, suc, ◌+◌, ◌*◌, ◌/◌, ◌%◌, ◌^◌, ◌<◌, ◌≡◌, refl, ◌∙◌, ap, ◌⊎◌, inl, inr, arith, Bool-cases,
  Option-cases, bit_and, bit_or, List, [], ◌∷◌, ◌++◌, some, has_bits,
}
use trs.Common.Bits.{bit_and_low, bit_or_sum}
use trs.Ports.{World, PortOp, out8, outputs, inb, inw, outb}
use trs.Disk.{
  Disk, ata_delay400, wait_bsy_loop, ata_wait_bsy, wait_drq_loop, ata_wait_drq, read_words,
  ata_command, admits, read_sectors, read_disk,
}

-- The register values of a command: drive select, then the sector number from the high byte on.
pub record Registers : Type 0 where
  pub select : ℕ
  pub high : ℕ
  pub mid : ℕ
  pub low : ℕ
  pub count : ℕ

-- The sector and the drive that the device reads off its registers.
abbrev pub device_lba : Registers → ℕ
device_lba r = r.select % 16 * 2 ^ 24 + r.high * 2 ^ 16 + r.mid * 2 ^ 8 + r.low

abbrev pub device_drive : Registers → ℕ
device_drive r = r.select / 16 % 2

-- The writes of a command, the latest first.
abbrev pub command_writes : ℕ → ℕ → Registers → List PortOp
command_writes io command r =
    out8 (io + 7) command
    ∷ out8 (io + 5) r.high
    ∷ out8 (io + 4) r.mid
    ∷ out8 (io + 3) r.low
    ∷ out8 (io + 2) r.count
    ∷ out8 (io + 1) 0
    ∷ out8 (io + 6) r.select
    ∷ []

select_lem : (d n : ℕ) → d < 2 → n < 16 → bit_or (bit_or 0xe0 (d * 2 ^ 4)) n ≡ (14 + d) * 16 + n
select_lem zero n h k = bit_or_sum 4 14 n k
select_lem (suc zero) n h k = bit_or_sum 4 15 n k
select_lem (suc (suc d)) n h k = absurd (omega arith)

-- The registers that the driver fills in.
abbrev pub registers_of : Disk → ℕ → ℕ → Registers
registers_of disk lba count = record {
  select = (14 + disk.drive) * 16 + lba / 2 ^ 24 % 16;
  high = lba / 2 ^ 16 % 256;
  mid = lba / 2 ^ 8 % 256;
  low = lba % 256;
  count = count % 256;
}

outputs-delay : (ctrl : ℕ) (w : World) → outputs (ata_delay400 ctrl w).log ≡ outputs w.log
unfolding inb outputs
outputs-delay ctrl w = refl

ata_command_writes :
    (disk : Disk) (lba count command : ℕ) (w : World)
    → disk.drive < 2
    → command < 256
    → outputs (ata_command disk lba count command w).log
      ≡ command_writes disk.io_base command (registers_of disk lba count) ++ outputs w.log
unfolding ata_command outb outputs inb
ata_command_writes disk lba count command w h k = ground (
  arith,
  select_lem disk.drive (bit_and (lba / 2 ^ 24) 0x0f),
  bit_and_low 4 (lba / 2 ^ 24),
  bit_and_low 8 lba,
  bit_and_low 8 (lba / 2 ^ 8),
  bit_and_low 8 (lba / 2 ^ 16),
)

outputs-wait_bsy :
    (polls io : ℕ) (w : World) → outputs (wait_bsy_loop polls io w).1.log ≡ outputs w.log
unfolding wait_bsy_loop inb outputs
outputs-wait_bsy zero io w = refl
outputs-wait_bsy (suc polls) io w =
    let w' = (inb (io + 7) w).1 in
    elim (Bool-cases (has_bits (inb (io + 7) w).0 0x80)) [
      | inl e ↦ rw e (outputs-wait_bsy polls io w')
      | inr e ↦ rw e
    ]

outputs-wait_drq :
    (polls io : ℕ) (w : World) → outputs (wait_drq_loop polls io w).1.log ≡ outputs w.log
unfolding wait_drq_loop inb outputs
outputs-wait_drq zero io w = refl
outputs-wait_drq (suc polls) io w =
    let w' = (inb (io + 7) w).1 in
    let st = (inb (io + 7) w).0 in
    elim (Bool-cases (has_bits st (bit_or 0x01 0x20))) [
      | inl e ↦ rw e
      | inr e ↦ elim (Bool-cases (has_bits st 0x08)) [
        | inl f ↦ rw (e, f)
        | inr f ↦ rw (e, f) (outputs-wait_drq polls io w')
      ]
    ]

outputs-read_words : (n io : ℕ) (w : World) → outputs (read_words n io w).1.log ≡ outputs w.log
unfolding read_words inw outputs
outputs-read_words zero io w = refl
outputs-read_words (suc n) io w = outputs-read_words n io (inw io w).1

outputs-read_sectors :
    (n : ℕ) (disk : Disk) (w : World) → outputs (read_sectors n disk w).1.log ≡ outputs w.log
unfolding read_sectors ata_wait_bsy ata_wait_drq
outputs-read_sectors zero disk w = refl
outputs-read_sectors (suc n) disk w =
    let a = ata_wait_bsy disk.io_base w in
    let b = ata_wait_drq disk.io_base a.1 in
    let c = read_words 256 disk.io_base b.1 in
    let d = ata_delay400 disk.ctrl_base c.1 in
    let ea = outputs-wait_bsy 10000000 disk.io_base w in
    let eb = outputs-wait_drq 10000000 disk.io_base a.1 ∙ ea in
    let ed = outputs-delay disk.ctrl_base c.1 ∙ outputs-read_words 256 disk.io_base b.1 ∙ eb in
    elim (Bool-cases a.0) [
      | inr e ↦ rw e ea
      | inl e ↦ elim (Bool-cases b.0) [
        | inr f ↦ rw (e, f) eb
        | inl f ↦ rw (e, f) (outputs-read_sectors n disk d ∙ ed)
      ]
    ]

-- For disks that are drive 0 or 1 of their channel, `read_disk` writes nothing to the device, or
-- exactly one command to the drive asked for, and none but that of reading. The device takes the
-- sector from its registers: it is `lba` modulo `2 ^ 28`, so the sector asked for only where
-- `lba` has 28 bits.
pub read_disk-device_lba :
    (disks : List Disk) (id lba count buf : ℕ) (w : World)
    → ((disk : Disk) → admits disks id lba count buf ≡ some disk → disk.drive < 2)
    → (outputs (read_disk disks id lba count buf w).1.log ≡ outputs w.log)
      ⊎ ((disk : Disk) × (r : Registers) × (admits disks id lba count buf ≡ some disk)
          × (outputs (read_disk disks id lba count buf w).1.log
              ≡ command_writes disk.io_base 0x20 r ++ outputs w.log)
          × (device_lba r ≡ lba % 2 ^ 28)
          × (device_drive r ≡ disk.drive)
          × (r.count ≡ count % 256))
unfolding read_disk ata_wait_bsy
read_disk-device_lba disks id lba count buf w drives =
    elim (Option-cases (admits disks id lba count buf)) [
      | inl e ↦ inl (rw (e, read_disk))
      | inr (disk, e) ↦
          let a = ata_wait_bsy disk.io_base w in
          let ea = outputs-wait_bsy 10000000 disk.io_base w in
          let c = ata_command disk lba count 0x20 a.1 in
          let small = drives disk e in
          let r = registers_of disk lba count in
          elim (Bool-cases a.0) [
            | inr f ↦ inl (rw (e, read_disk) (rw f ea))
            | inl f ↦ inr (
              disk,
              r,
              e,
              rw (e, read_disk)
                  (rw f (
                    outputs-read_sectors count disk c
                    ∙ ata_command_writes disk lba count 0x20 a.1 small (omega arith)
                    ∙ ap (λ l. command_writes disk.io_base 0x20 r ++ l) ea)),
              omega (arith, small),
              omega (arith, small),
              refl,
            )
          ]
    ]
