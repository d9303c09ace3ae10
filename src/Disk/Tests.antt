-- ===== src/Disk/Tests.antt =====
-- The theorems on kernel/driver/disk.c at concrete disks and answers.
use trs.Common.{
  ◌==◌, ◌||◌, if◌then◌else◌, ◌%◌, ◌^◌, ◌≤◌, ◌<◌, ◌≡◌, refl, ◌⊎◌, arith, List, [], ◌∷◌, ◌++◌, true,
  some, length, some, ◌-◌,
}
use trs.Ports.{World, outputs, inb, inw, outb}
use trs.Disk.{
  Disk, disk_max, admits, read_disk, disk_init, probe_loop, ata_identify, identify_command,
  ata_wait_bsy, wait_bsy_loop, ata_wait_drq, wait_drq_loop, read_words, sectors_of,
}
use trs.Disk.Address.{Registers, command_writes, device_lba, device_drive, read_disk-device_lba}
use trs.Disk.Probe.{AllDisks, disk_init-AllDisks}
use trs.Disk.Transfer.{wrapped_admitted}

abbrev small_disk : Disk
small_disk = record { sectors = 4096; io_base = 0x1f0; ctrl_base = 0x3f6; drive = 1; present = 1 }

abbrev one_disk : List Disk
one_disk = small_disk ∷ []

-- Hardware that answers 0x08 to every read: not busy, ready to transfer.
abbrev willing : World
willing = record { answer = λ n. 0x08; reads = 0; log = [] }

ready_at_once : (ata_wait_bsy 0x1f0 willing).0 ≡ true
unfolding ata_wait_bsy wait_bsy_loop inb
ready_at_once = refl

read_disk-device_lba_example :
    (outputs (read_disk one_disk 0 77 1 100 willing).1.log ≡ outputs willing.log)
    ⊎ ((disk : Disk) × (r : Registers) × (admits one_disk 0 77 1 100 ≡ some disk)
        × (outputs (read_disk one_disk 0 77 1 100 willing).1.log
            ≡ command_writes disk.io_base 0x20 r ++ outputs willing.log)
        × (device_lba r ≡ 77 % 2 ^ 28)
        × (device_drive r ≡ disk.drive)
        × (r.count ≡ 1 % 256))
unfolding admits
read_disk-device_lba_example =
    read_disk-device_lba one_disk 0 77 1 100 willing λ disk e. ground arith

wrapped_admitted_example :
    (admits one_disk 0 (2 ^ 64 - 1) 1 100 ≡ some small_disk) × (4096 < 2 ^ 64 - 1)
wrapped_admitted_example =
    wrapped_admitted one_disk 0 (2 ^ 64 - 1) 1 100 small_disk refl (omega arith) (omega arith)
      (omega arith) (omega arith) (omega arith) (omega arith) (omega arith)

-- Hardware with one drive of 4096 sectors, the first of the first channel. The driver's first eight
-- reads are its delay; then come the status, the poll for busy, the two bytes of the signature, the
-- poll for data, and 256 words, of which word 60 is the 74th answer. All later answers are 0.
abbrev one_drive : World
one_drive = record {
  answer = λ n. if n == 8 || n == 9 || n == 12 then 0x48 else if n == 73 then 4096 else 0;
  reads = 0;
  log = [];
}

one_is_found :
    (disk_init one_drive).0
    ≡ record { sectors = 4096; io_base = 0x1f0; ctrl_base = 0x3f6; drive = 0; present = 1 } ∷ []
unfolding disk_init probe_loop ata_identify identify_command ata_wait_bsy wait_bsy_loop ata_wait_drq
    wait_drq_loop read_words sectors_of inb inw outb
one_is_found = refl

disk_init-AllDisks_example :
    AllDisks (disk_init one_drive).0 × (length (disk_init one_drive).0 ≤ disk_max)
disk_init-AllDisks_example = disk_init-AllDisks one_drive
