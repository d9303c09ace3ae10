-- ===== src/Kernel.antt =====
-- kernel/kernel.c and kernel/app.c: the start of the kernel, as the calls of the modelled parts in
-- their order. The display's memory is the kernel's. The FAT library, the handlers and the program
-- that is started are parameters.
pub mod Start
pub mod Statue
pub mod Ends
pub mod Tests
use trs.Common.{
  ℕ, zero, suc, ◌+◌, ◌*◌, ◌/◌, ◌%◌, ◌==◌, Bool, true, false, not, if◌then◌else◌, List, [], ◌∷◌,
  get_or, get_elem?, length, Option, none, some, ◌>>=◌, nonzero, u32, ℤ, pos, negsuc,
}
use trs.Common.Memory.{Mem, store_list}
use trs.Common.Texts.{codes}
use trs.BootInfo.{BootInfo}
use trs.Ports.{World}
use trs.Stream.{Stream, stream_try_read, deliver}
use trs.Cpu.Gdt.{Gdt, gdt_init}
use trs.Cpu.Pic.{pic_remap}
use trs.Cpu.Idt.{Gate, Handler, Handlers, no_handlers, idt_gates, isr_install, irq_base}
use trs.Disk.{Disk, disk_init, read_disk}
use trs.Display.{Font, Display, dsp_init, dsp_clear, dsp_print, dsp_set_color, dsp_set_cursor}
use trs.Display.Number.{dsp_print_dec}
use trs.Fat32.{Driver, fat32_init, is_ok, fat_err_none}
use trs.Keyboard.{Keyboard}
use trs.Keyboard.Init.{Started, kb_init}
use trs.Libc.Colors.{red, peach, sapphire, lavender, crust, yantar, term_bg}
use trs.Panic.{Machine, Outcome, halted, goes_on, kpanic}
use trs.Pmm.{Pmm, pmm_usable_pages, pmm_used_pages}
use trs.Pmm.Init.{Panic, map_missing, no_memory, no_room, panicked, ready, pmm_init}
use trs.Sys.{int_of}

-- `PRO_BASE` of kernel/inc/app.h
abbrev pub pro_base : ℕ
pro_base = 0x400000

-- Addresses that the linker gives, and the names that `__FILE__` stands for.
pub record Layout : Type 0 where
  pub font : Font
  pub gdt : ℕ
  pub tss : ℕ
  pub df_stack : ℕ
  pub stubs : ℕ → ℕ
  pub kernel_start : ℕ
  pub kernel_end : ℕ
  pub sector : ℕ
  pub key : ℕ
  pub kernel_file : List ℕ
  pub paging_file : List ℕ

-- `syscall_handler` and `kb_irq_handler` as entries of the tables, and what the kernel calls of the
-- FAT library: a file is opened with its size, and read.
pub record Services (K F File : Type 0) : Type 0 where
  pub sys_handler : Handler K
  pub kb_handler : Handler K
  pub fat_mount : ℕ → ℕ → F → World → (ℤ × F) × World
  pub fat_get_error : ℤ → List ℕ
  pub fat_stat : List ℕ → F → (ℤ × ℕ) × F
  pub fat_file_open : List ℕ → F → (ℤ × File) × F
  pub file_size : File → ℕ
  pub fat_file_read : File → ℕ → F → (ℤ × List ℕ) × F

-- What the start works on; `i` and `ferr` are locals of `kmain`.
pub record Kernel (K D F : Type 0) : Type 0 where
  pub boot : BootInfo
  pub gdt : Gdt
  pub idt : List Gate
  pub handlers : Handlers K
  pub ports : World
  pub machine : Machine
  pub keyboard : Keyboard
  pub pmm : Pmm
  pub disks : List Disk
  pub driver : Driver D F
  pub ferr : ℤ
  pub i : ℕ

-- The kernel goes on, a panic has halted the machine, a loop has not ended in its turns, or an index
-- lies outside `statue`.
pub data Stage (K D F : Type 0) : Type 0 where
  running : Kernel K D F → Stage K D F
  stopped : Machine → Stage K D F
  waiting : Stage K D F
  outside : Stage K D F

abbrev pub statue : List (List ℕ)
statue =
    codes "    %%%"
    ∷ codes "   ====="
    ∷ codes "  &%&%%%&"
    ∷ codes "  %& < <% "
    ∷ codes "   &\\__/"
    ∷ codes "    \\ |____"
    ∷ codes "   .', ,  ()"
    ∷ codes "  / -.  _)| "
    ∷ codes " |_(_.    |"
    ∷ codes " '-'\\  )  |"
    ∷ codes " trs )    |"
    ∷ codes "    /  .  )."
    ∷ codes "   /    _. |"
    ∷ codes " /'---':.-'|"
    ∷ codes "(__.' /    /"
    ∷ codes " \\   ( /  /"
    ∷ codes "  \\ /  _  | "
    ∷ codes "   \\  |  '|"
    ∷ codes "   | . \\  |"
    ∷ codes "   |(     | "
    ∷ codes "   |  \\ \\ |"
    ∷ codes "    \\  )\\ |"
    ∷ codes "   __)/ / \\"
    ∷ codes "--\"--(_.Ooo'----"
    ∷ []

-- A sector as bytes of the words that were read.
abbrev pub sector_bytes : List ℕ → Mem
sector_bytes words a =
    let word = get_or words (a / 2) 0 in if a % 2 == 0 then word % 256 else word / 256

abbrev pub read_sector : List Disk → ℕ → ℕ → ℕ → World → Option Mem × World
read_sector disks buf disk lba w =
    let r = read_disk disks disk lba 1 buf w in
    (if is_ok r.0.0 then some (sector_bytes r.0.1) else none, r.1)

abbrev pub Step : Type 0 → Type 0 → Type 0 → Type 0
Step K D F = Kernel K D F → Stage K D F

-- One statement after another.
unfoldable pub run_steps : {K D F : Type 0} → List (Step K D F) → Step K D F
run_steps [] k = running k
run_steps (step ∷ steps) k = elim (step k) [
  | running k' ↦ run_steps steps k'
  | stopped m ↦ stopped m
  | waiting ↦ waiting
  | outside ↦ outside
]

abbrev pub shows : {K D F : Type 0} → (Display → Display) → Step K D F
shows call k =
    running (record k { machine = record k.machine { display = call k.machine.display } })

abbrev pub say : {K D F : Type 0} → List ℕ → Step K D F
say text = shows (dsp_print text)

abbrev pub colored : {K D F : Type 0} → ℕ → ℕ → Step K D F
colored fg bg = shows (dsp_set_color fg bg)

-- `kpanic` does not return.
abbrev pub panics : {K D F : Type 0} → List ℕ → List ℕ → ℕ → Step K D F
panics msg file line k = elim (kpanic (some msg) (some file) line k.machine) [
  | halted m ↦ stopped m
  | goes_on m ↦ stopped m
]

-- `YES`
unfoldable pub yes : {K D F : Type 0} → Step K D F
yes k = run_steps (colored peach crust ∷ say (codes "[+]\n") ∷ []) k

-- `PRINT_STATUE`
unfoldable pub print_statue : {K D F : Type 0} → Step K D F
print_statue k = elim (get_elem? statue k.i) [
  | none ↦ outside
  | some line ↦
      run_steps
        (colored red crust ∷ say line ∷ shows (dsp_set_cursor 30 0) ∷ colored sapphire crust ∷ [])
        (record k { i = k.i + 1 })
]
