-- ===== src/Kernel/Ends.antt =====
-- How `kmain` ends: its index into `statue` stays below the number of its lines.
use trs.Common.{ℕ, ◌+◌, ◌≡◌, arith, List, [], ◌∷◌, Option, none, some, Bool-cases, inl, inr}
use trs.Common.Texts.{codes}
use trs.Display.{dsp_clear}
use trs.Display.Number.{dsp_print_dec}
use trs.Fat32.{is_ok}
use trs.Panic.{Outcome, halted, goes_on, kpanic}
use trs.Pmm.{Pmm}
use trs.Pmm.Init.{map_missing, no_memory, no_room, InitResult, panicked, ready, pmm_init}
use trs.Stream.{Stream}
use trs.Keyboard.Init.{Started, kb_init}
use trs.Libc.Colors.{sapphire, lavender, crust, yantar, term_bg}
use trs.Sys.{int_of}
use trs.Kernel.{
  Layout, Services, Kernel, running, stopped, waiting, run_steps, shows, say, colored, panics,
  print_statue,
}
use trs.Kernel.Statue.{
  IsWithin, Prints, AllPrint, done, next, weaker, run_steps-Prints, shows-Prints, say-Prints,
  colored-Prints, yes-Prints, print_statue-Prints,
}
use trs.Kernel.Start.{
  gdt_step, pic_step, idt_step, display_step, keyboard_step, behind_init, memory_step, disk_step,
  syscall_init, mount_step, error_step, size_step, usable_step, used_step, enable_step, wait_loop,
  wait_step, start_step, init_steps, mount_steps, report_steps, last_steps, kmain,
}

panics-Prints :
    {K D F : Type 0} (msg file : List ℕ) (line : ℕ)
    → Prints 0 (panics {K = K} {D = D} {F = F} msg file line)
panics-Prints {K} {D} {F} msg file line n k room h =
    stopped_by (kpanic (some msg) (some file) line k.machine)
  where
    stopped_by :
        (o : Outcome)
        → IsWithin {K = K} {D = D} {F = F}
            (n + 0)
            (elim o [ halted m ↦ stopped m | goes_on m ↦ stopped m ])
    stopped_by (halted m) = omega arith
    stopped_by (goes_on m) = omega arith

module _ {K D F File : Type 0} (layout : Layout) (services : Services K F File) (turns : ℕ) where
  gdt_step-Prints : Prints 0 (gdt_step {D = D} layout services turns)
  unfolding gdt_step
  gdt_step-Prints n k room h = omega arith

  pic_step-Prints : Prints 0 (pic_step {D = D} layout services turns)
  unfolding pic_step
  pic_step-Prints n k room h = omega arith

  idt_step-Prints : Prints 0 (idt_step {D = D} layout services turns)
  unfolding idt_step
  idt_step-Prints n k room h = omega arith

  disk_step-Prints : Prints 0 (disk_step {D = D} layout services turns)
  unfolding disk_step
  disk_step-Prints n k room h = omega arith

  syscall_init-Prints : Prints 0 (syscall_init {D = D} layout services turns)
  unfolding syscall_init
  syscall_init-Prints n k room h = omega arith

  mount_step-Prints : Prints 0 (mount_step {D = D} layout services turns)
  unfolding mount_step
  mount_step-Prints n k room h = omega arith

  error_step-Prints : Prints 0 (error_step {D = D} layout services turns)
  unfolding error_step
  error_step-Prints n k room h = omega arith

  usable_step-Prints : Prints 0 (usable_step {D = D} layout services turns)
  unfolding usable_step
  usable_step-Prints n k room h = omega arith

  used_step-Prints : Prints 0 (used_step {D = D} layout services turns)
  unfolding used_step
  used_step-Prints n k room h = omega arith

  enable_step-Prints : Prints 0 (enable_step {D = D} layout services turns)
  unfolding enable_step
  enable_step-Prints n k room h = omega arith

  display_step-Prints : Prints 0 (display_step {D = D} layout services turns)
  unfolding display_step
  display_step-Prints n k room h = omega arith

  keyboard_step-Prints : Prints 0 (keyboard_step {D = D} layout services turns)
  unfolding keyboard_step
  keyboard_step-Prints n k room h = begun (
      kb_init turns services.kb_handler
        (record { keyboard = k.keyboard; handlers = k.handlers; ports = k.ports }))
    where
      begun :
          (o : Option (Started K))
          → IsWithin (n + 0) (elim o [
            | none ↦ waiting
            | some s ↦
                running (record k { keyboard = s.keyboard; handlers = s.handlers; ports = s.ports })
          ])
      begun none = omega arith
      begun (some s) = omega arith

  behind_init-Prints : (r : InitResult) → Prints 0 (behind_init {D = D} layout services turns r)
  unfolding behind_init
  behind_init-Prints (ready p) n k room h = omega arith
  behind_init-Prints (panicked map_missing) n k room h =
      panics-Prints _ layout.paging_file 47 n k room h
  behind_init-Prints (panicked no_memory) n k room h =
      panics-Prints _ layout.paging_file 61 n k room h
  behind_init-Prints (panicked no_room) n k room h =
      panics-Prints _ layout.paging_file 78 n k room h

  memory_step-Prints : Prints 0 (memory_step {D = D} layout services turns)
  unfolding memory_step
  memory_step-Prints n k room h =
      let here : Pmm = record k.pmm { mem = k.machine.display.mem } in
      behind_init-Prints (pmm_init k.boot layout.kernel_start layout.kernel_end here) n k room h

  wait_step-Prints :
      (arrivals : List (List ℕ)) → Prints 0 (wait_step {D = D} layout services turns arrivals)
  unfolding wait_step
  wait_step-Prints arrivals n k room h = waited (wait_loop layout.key arrivals k.keyboard.stream)
    where
      waited :
          (o : Option Stream)
          → IsWithin (n + 0) (elim o [
            | none ↦ waiting
            | some s ↦ running (record k { keyboard = record k.keyboard { stream = s } })
          ])
      waited none = omega arith
      waited (some s) = omega arith

  start_step-Prints :
      (program : Kernel K D F → Kernel K D F) → Prints 0 (start_step layout services turns program)
  unfolding start_step
  start_step-Prints program n k room h = omega arith

  size_step-Prints : Prints 2 (size_step {D = D} layout services turns)
  unfolding size_step
  size_step-Prints n k room h =
      let r = services.fat_stat (codes "/dsk/space/sys/kern/kernel.bin") k.driver.fat in
      let asked : Kernel K D F = record k { driver = record k.driver { fat = r.1 } } in
      let listed : AllPrint (1 ∷ 0 ∷ 0 ∷ 0 ∷ 0 ∷ 1 ∷ []) (
          print_statue
          ∷ colored lavender crust
          ∷ say (codes "kernel.bin size: ")
          ∷ shows (dsp_print_dec (int_of r.0.1))
          ∷ say (codes "\n")
          ∷ print_statue
          ∷ []) =
        next print_statue-Prints (
          next (colored-Prints lavender crust) (
            next (say-Prints (codes "kernel.bin size: ")) (
              next (shows-Prints (dsp_print_dec (int_of r.0.1)))
                (next (say-Prints (codes "\n")) (next print_statue-Prints done))))) in
      let sized = run_steps-Prints listed n asked room h in
      let missing =
        panics-Prints (codes "NO DISK") layout.kernel_file 120 n asked (omega arith) h in
      elim (Bool-cases (is_ok k.ferr)) [
        | inl e ↦ elim (Bool-cases (is_ok r.0.0)) [
          | inl f ↦ simp (size_step, e, f) sized
          | inr f ↦
              simp (size_step, e, f)
                (weaker (panics (codes "NO DISK") layout.kernel_file 120 asked) (omega arith)
                  missing)
        ]
        | inr e ↦ simp (size_step, e) (omega arith)
      ]

  init_steps-AllPrint :
      AllPrint
        (0 ∷ 0 ∷ 0 ∷ 0 ∷ 1 ∷ 0 ∷ 0 ∷ 0 ∷ 1 ∷ 0 ∷ 0 ∷ 1 ∷ 0 ∷ 0 ∷ 1 ∷ 0 ∷ 0 ∷ 1 ∷ 0 ∷ 0 ∷ 0 ∷ 1 ∷ 0
          ∷ 0 ∷ 0 ∷ 1 ∷ 0 ∷ 0 ∷ 0 ∷ 1 ∷ 0 ∷ 0 ∷ 0 ∷ [])
        (init_steps {D = D} layout services turns)
  init_steps-AllPrint = next gdt_step-Prints (
      next pic_step-Prints (
        next idt_step-Prints (
          next display_step-Prints (
            next print_statue-Prints (
              next (colored-Prints sapphire crust) (
                next (say-Prints (codes "Display initialized. ")) (
                  next yes-Prints (
                    next print_statue-Prints (
                      next (say-Prints (codes "GDT initialized. ")) (
                        next yes-Prints (
                          next print_statue-Prints (
                            next (say-Prints (codes "IDT initialized. ")) (
                              next yes-Prints (
                                next print_statue-Prints (
                                  next (say-Prints (codes "PIC remaped. ")) (
                                    next yes-Prints (
                                      next print_statue-Prints (
                                        next keyboard_step-Prints (
                                          next (say-Prints (codes "Keyboard intialized. ")) (
                                            next yes-Prints (
                                              next print_statue-Prints (
                                                next memory_step-Prints (
                                                  next (say-Prints (codes "Memory initialized. ")) (
                                                    next yes-Prints (
                                                      next print_statue-Prints (
                                                        next disk_step-Prints (
                                                          next
                                                            (say-Prints
                                                            (codes "Disk initialized. "))
                                                            (next yes-Prints (
                                                            next print_statue-Prints (
                                                            next syscall_init-Prints (
                                                            next
                                                            (say-Prints
                                                            (codes "Syscall initialized. "))
                                                            (next yes-Prints
                                                            done))))))))))))))))))))))))))))))))

  mount_steps-AllPrint :
      AllPrint
        (1 ∷ 0 ∷ 1 ∷ 0 ∷ 0 ∷ 1 ∷ 0 ∷ 0 ∷ 0 ∷ 0 ∷ 1 ∷ 0 ∷ 0 ∷ 0 ∷ 0 ∷ [])
        (mount_steps {D = D} layout services turns)
  mount_steps-AllPrint = next print_statue-Prints (
      next (say-Prints (codes "\n")) (
        next print_statue-Prints (
          next (colored-Prints lavender crust) (
            next (say-Prints (codes "System info:\n")) (
              next print_statue-Prints (
                next (colored-Prints lavender crust) (
                  next (say-Prints (codes "----")) (
                    next mount_step-Prints (
                      next (say-Prints (codes "\n")) (
                        next print_statue-Prints (
                          next (colored-Prints lavender crust) (
                            next (say-Prints (codes "FAT32 init: "))
                              (next error_step-Prints (next yes-Prints done))))))))))))))

  report_steps-AllPrint :
      AllPrint
        (2 ∷ 0 ∷ 1 ∷ 0 ∷ 0 ∷ 0 ∷ 0 ∷ 1 ∷ 0 ∷ 0 ∷ 0 ∷ 0 ∷ 1 ∷ 0 ∷ 0 ∷ 1 ∷ 0 ∷ 0 ∷ 1 ∷ 0 ∷ 0 ∷ 0 ∷ 0
          ∷ [])
        (report_steps {D = D} layout services turns)
  report_steps-AllPrint = next size_step-Prints (
      next (say-Prints (codes "\n")) (
        next print_statue-Prints (
          next (colored-Prints lavender crust) (
            next (say-Prints (codes "usable pages: ")) (
              next usable_step-Prints (
                next (say-Prints (codes "\n")) (
                  next print_statue-Prints (
                    next (colored-Prints lavender crust) (
                      next (say-Prints (codes "used pages: ")) (
                        next used_step-Prints (
                          next (say-Prints (codes "\n")) (
                            next print_statue-Prints (
                              next (colored-Prints lavender crust) (
                                next (say-Prints (codes "\n")) (
                                  next print_statue-Prints (
                                    next (colored-Prints lavender crust) (
                                      next (say-Prints (codes "TRS OS v0.0.8\n")) (
                                        next print_statue-Prints (
                                          next (colored-Prints lavender crust) (
                                            next (say-Prints (codes "==============\n\n")) (
                                              next (colored-Prints yantar crust) (
                                                next (say-Prints (codes "> [SYSTEM] ready.\n\n"))
                                                  done))))))))))))))))))))))

  last_steps-AllPrint :
      (program : Kernel K D F → Kernel K D F) (arrivals : List (List ℕ))
      → AllPrint
          (0 ∷ 0 ∷ 0 ∷ 0 ∷ 0 ∷ 0 ∷ 0 ∷ 0 ∷ [])
          (last_steps layout services turns program arrivals)
  last_steps-AllPrint program arrivals = next enable_step-Prints (
      next (colored-Prints yantar crust) (
        next (say-Prints (codes "START TERMINAL..\n")) (
          next (say-Prints (codes "Press any key for work!")) (
            next (wait_step-Prints arrivals) (
              next (colored-Prints yantar term_bg)
                (next (shows-Prints dsp_clear) (next (start_step-Prints program) done)))))))

  -- The start of the kernel, whatever the hardware, the volume and the program do: it never takes a
  -- line past the end of the statue, of which it prints 19 at most of 24, so that it ends running,
  -- halted by a panic or waiting.
  pub kmain-IsWithin :
      (program : Kernel K D F → Kernel K D F) (arrivals : List (List ℕ)) (k : Kernel K D F)
      → k.i ≡ 0
      → IsWithin 19 (kmain layout services turns program arrivals k)
  unfolding kmain
  kmain-IsWithin program arrivals k start =
      let all : AllPrint (8 ∷ 4 ∷ 7 ∷ 0 ∷ []) (
          run_steps (init_steps layout services turns)
          ∷ run_steps (mount_steps layout services turns)
          ∷ run_steps (report_steps layout services turns)
          ∷ run_steps (last_steps layout services turns program arrivals)
          ∷ []) =
        next (run_steps-Prints init_steps-AllPrint) (
          next (run_steps-Prints mount_steps-AllPrint) (
            next (run_steps-Prints report_steps-AllPrint)
              (next (run_steps-Prints (last_steps-AllPrint program arrivals)) done))) in
      run_steps-Prints all 0 k (omega arith) (omega arith)
