-- ===== src/Kernel/Start.antt =====
-- kernel/kernel.c: `kmain`, statement by statement, and kernel/app.c.
use trs.Common.{
  ℕ, Bool, true, not, if◌then◌else◌, List, [], ◌∷◌, Option, none, some, nonzero, ℤ, pos, negsuc,
}
use trs.Common.Memory.{store_list}
use trs.Common.Texts.{codes}
use trs.Stream.{Stream, stream_try_read, deliver}
use trs.Cpu.Gdt.{gdt_init}
use trs.Cpu.Pic.{pic_remap}
use trs.Cpu.Idt.{no_handlers, idt_gates, isr_install, irq_base}
use trs.Disk.{disk_init}
use trs.Display.{dsp_init, dsp_clear}
use trs.Display.Number.{dsp_print_dec}
use trs.Fat32.{fat32_init, is_ok}
use trs.Keyboard.Init.{Started, kb_init}
use trs.Libc.Colors.{sapphire, lavender, crust, yantar, term_bg}
use trs.Pmm.{Pmm, pmm_usable_pages, pmm_used_pages}
use trs.Pmm.Init.{InitResult, map_missing, no_memory, no_room, panicked, ready, pmm_init}
use trs.Sys.{int_of}
use trs.Kernel.{
  Layout, Services, pro_base, Kernel, running, waiting, Step, read_sector, run_steps, shows, say,
  colored, panics, yes, print_statue,
}

-- `if(stream_try_read(kb, &c, 1)) break;`
abbrev pub got_key : ℤ → Bool
got_key (pos n) = nonzero n
got_key (negsuc n) = true

-- The loop that waits for a key; `c` is the address of the local, and `arrivals` are the bytes that
-- interrupts put before each turn.
unfoldable pub wait_loop : ℕ → List (List ℕ) → Stream → Option Stream
wait_loop c [] s = none
wait_loop c (bytes ∷ arrivals) s =
    let r = stream_try_read (record s { rb = deliver s.rb bytes }) c 1 in
    let rest = wait_loop c arrivals r.2 in if got_key r.0 then some r.2 else rest

module _ {K D F File : Type 0} (layout : Layout) (services : Services K F File) (turns : ℕ) where
  unfoldable pub gdt_step : Step K D F
  gdt_step k = running (record k { gdt = gdt_init layout.gdt layout.tss layout.df_stack })

  unfoldable pub pic_step : Step K D F
  pic_step k = running (record k { ports = pic_remap irq_base k.ports })

  -- `idt_init`
  unfoldable pub idt_step : Step K D F
  idt_step k = running (record k { idt = idt_gates 256 0 layout.stubs; handlers = no_handlers })

  -- `int i = 0; dsp_init(_boot.fb);`
  unfoldable pub display_step : Step K D F
  display_step k = shows (dsp_init layout.font k.boot.fb) (record k { i = 0 })

  unfoldable pub keyboard_step : Step K D F
  keyboard_step k =
      let begun : Started K = record {
        keyboard = k.keyboard;
        handlers = k.handlers;
        ports = k.ports;
      } in
      elim (kb_init turns services.kb_handler begun) [
        | none ↦ waiting
        | some s ↦
            running (record k { keyboard = s.keyboard; handlers = s.handlers; ports = s.ports })
      ]

  -- What follows from `pmm_init(&_boot)`: it returns, or it has called `kpanic`.
  unfoldable pub behind_init : InitResult → Step K D F
  behind_init (ready p) k = running (record k {
    pmm = p;
    machine = record k.machine { display = record k.machine.display { mem = p.mem } };
  })
  behind_init (panicked map_missing) k =
      panics (codes "Memory map is missing") layout.paging_file 47 k
  behind_init (panicked no_memory) k =
      panics (codes "No convetnional memory found") layout.paging_file 61 k
  behind_init (panicked no_room) k =
      panics (codes "Bitmap does not fit into memory") layout.paging_file 78 k

  unfoldable pub memory_step : Step K D F
  memory_step k =
      let here : Pmm = record k.pmm { mem = k.machine.display.mem } in
      behind_init (pmm_init k.boot layout.kernel_start layout.kernel_end here) k

  unfoldable pub disk_step : Step K D F
  disk_step k = let r = disk_init k.ports in running (record k { disks = r.0; ports = r.1 })

  -- `syscall_init` of kernel/sys.c
  unfoldable pub syscall_init : Step K D F
  syscall_init k =
      running (record k { handlers = isr_install 0x77 services.sys_handler k.handlers })

  -- `int ferr = fat32_init(0);`
  unfoldable pub mount_step : Step K D F
  mount_step k =
      let r =
        fat32_init (read_sector k.disks layout.sector) services.fat_mount 0 k.driver k.ports in
      running (record k { ferr = r.0; driver = r.1; ports = r.2 })

  unfoldable pub error_step : Step K D F
  error_step k = say (if is_ok k.ferr then [] else services.fat_get_error k.ferr) k

  -- The size of kernel.bin, or the panic where it is not found.
  unfoldable pub size_step : Step K D F
  size_step k =
      let r = services.fat_stat (codes "/dsk/space/sys/kern/kernel.bin") k.driver.fat in
      let asked : Kernel K D F = record k { driver = record k.driver { fat = r.1 } } in
      if not (is_ok k.ferr)
      then running k
      else if is_ok r.0.0
      then run_steps
          (print_statue
            ∷ colored lavender crust
            ∷ say (codes "kernel.bin size: ")
            ∷ shows (dsp_print_dec (int_of r.0.1))
            ∷ say (codes "\n")
            ∷ print_statue
            ∷ [])
          asked
      else panics (codes "NO DISK") layout.kernel_file 120 asked

  -- `dsp_print_dec(pmm_usable_pages());` and its like.
  unfoldable pub usable_step : Step K D F
  usable_step k = shows (dsp_print_dec (int_of (pmm_usable_pages k.pmm))) k

  unfoldable pub used_step : Step K D F
  used_step k = shows (dsp_print_dec (int_of (pmm_used_pages k.pmm))) k

  -- From `gdt_init` to `syscall_init`, with what is printed behind each.
  abbrev pub init_steps : List (Step K D F)
  init_steps =
      gdt_step
      ∷ pic_step
      ∷ idt_step
      ∷ display_step
      ∷ print_statue
      ∷ colored sapphire crust
      ∷ say (codes "Display initialized. ")
      ∷ yes
      ∷ print_statue
      ∷ say (codes "GDT initialized. ")
      ∷ yes
      ∷ print_statue
      ∷ say (codes "IDT initialized. ")
      ∷ yes
      ∷ print_statue
      ∷ say (codes "PIC remaped. ")
      ∷ yes
      ∷ print_statue
      ∷ keyboard_step
      ∷ say (codes "Keyboard intialized. ")
      ∷ yes
      ∷ print_statue
      ∷ memory_step
      ∷ say (codes "Memory initialized. ")
      ∷ yes
      ∷ print_statue
      ∷ disk_step
      ∷ say (codes "Disk initialized. ")
      ∷ yes
      ∷ print_statue
      ∷ syscall_init
      ∷ say (codes "Syscall initialized. ")
      ∷ yes
      ∷ []

  -- From there to the mounted volume.
  abbrev pub mount_steps : List (Step K D F)
  mount_steps =
      print_statue
      ∷ say (codes "\n")
      ∷ print_statue
      ∷ colored lavender crust
      ∷ say (codes "System info:\n")
      ∷ print_statue
      ∷ colored lavender crust
      ∷ say (codes "----")
      ∷ mount_step
      ∷ say (codes "\n")
      ∷ print_statue
      ∷ colored lavender crust
      ∷ say (codes "FAT32 init: ")
      ∷ error_step
      ∷ yes
      ∷ []

  -- From the size of the kernel's file to the prompt.
  abbrev pub report_steps : List (Step K D F)
  report_steps =
      size_step
      ∷ say (codes "\n")
      ∷ print_statue
      ∷ colored lavender crust
      ∷ say (codes "usable pages: ")
      ∷ usable_step
      ∷ say (codes "\n")
      ∷ print_statue
      ∷ colored lavender crust
      ∷ say (codes "used pages: ")
      ∷ used_step
      ∷ say (codes "\n")
      ∷ print_statue
      ∷ colored lavender crust
      ∷ say (codes "\n")
      ∷ print_statue
      ∷ colored lavender crust
      ∷ say (codes "TRS OS v0.0.8\n")
      ∷ print_statue
      ∷ colored lavender crust
      ∷ say (codes "==============\n\n")
      ∷ colored yantar crust
      ∷ say (codes "> [SYSTEM] ready.\n\n")
      ∷ []

  -- `sti`
  unfoldable pub enable_step : Step K D F
  enable_step k = running (record k { machine = record k.machine { interrupts = true } })

  unfoldable pub wait_step : List (List ℕ) → Step K D F
  wait_step arrivals k = elim (wait_loop layout.key arrivals k.keyboard.stream) [
    | none ↦ waiting
    | some s ↦ running (record k { keyboard = record k.keyboard { stream = s } })
  ]

  -- `start_proc` of kernel/app.c: its result, and the kernel behind it. What `program` does is what
  -- the call of the loaded program does. Nothing compares the size of the file with `PRO_MAX_SIZE`.
  unfoldable pub start_proc :
      (Kernel K D F → Kernel K D F) → List ℕ → Kernel K D F → ℤ × Kernel K D F
  start_proc program path k =
      let o = services.fat_file_open path k.driver.fat in
      let opened : Kernel K D F = record k { driver = record k.driver { fat = o.1 } } in
      let r = services.fat_file_read o.0.1 (services.file_size o.0.1) o.1 in
      let loaded : Kernel K D F = record k {
        driver = record k.driver { fat = r.1 };
        machine = record k.machine {
          display = record k.machine.display {
            mem = store_list k.machine.display.mem pro_base r.0.1;
          };
        };
      } in
      if not (is_ok o.0.0)
      then (negsuc 0, opened)
      else if not (is_ok r.0.0)
      then (negsuc 1, loaded)
      else (pos 0, program loaded)

  -- The program does not reach the local `i`.
  unfoldable pub start_step : (Kernel K D F → Kernel K D F) → Step K D F
  start_step program k =
      running (record (start_proc program (codes "/dsk/space/sys/term.pro") k).1 { i = k.i })

  -- The end of `kmain`, before it halts for ever.
  abbrev pub last_steps : (Kernel K D F → Kernel K D F) → List (List ℕ) → List (Step K D F)
  last_steps program arrivals =
      enable_step
      ∷ colored yantar crust
      ∷ say (codes "START TERMINAL..\n")
      ∷ say (codes "Press any key for work!")
      ∷ wait_step arrivals
      ∷ colored yantar term_bg
      ∷ shows dsp_clear
      ∷ start_step program
      ∷ []

  unfoldable pub kmain : (Kernel K D F → Kernel K D F) → List (List ℕ) → Step K D F
  kmain program arrivals k =
      run_steps
        (run_steps init_steps
          ∷ run_steps mount_steps
          ∷ run_steps report_steps
          ∷ run_steps (last_steps program arrivals)
          ∷ [])
        k
