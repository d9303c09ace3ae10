-- ===== src/Cpu/Tests.antt =====
-- The controllers and descriptors of kernel/cpu at concrete values, and the theorems there.
use trs.Common.{ℕ, ◌+◌, ◌≡◌, true, refl, arith, ◌==◌, if◌then◌else◌, []}
use trs.Ports.{World}
use trs.Cpu.Idt.{Frame, Handlers, Handler, no_handlers, irq_install, isr_dispatcher}
use trs.Cpu.Idt.Dispatch.{Serves, is_spurious, isr_dispatcher-Serves}

-- The controller that is asked has all lines in service but its last.
abbrev ports : World
ports = record { answer = λ n. if n == 0 then 0x7f else 0; reads = 0; log = [] }

-- The kernel's state counts the interrupts of line 15.
abbrev count : Handler ℕ
count r = record r { kernel = r.kernel + 1 }

abbrev second_disk : Handlers ℕ
second_disk = irq_install 15 count no_handlers

abbrev on_vector : ℕ → Frame ℕ
on_vector v = record { int_no = v; kernel = 5; ports = ports }

is_not_served : is_spurious 15 ports ≡ true
is_not_served = refl

isr_dispatcher-Serves_example :
    Serves second_disk 15 (on_vector 47) (isr_dispatcher second_disk (on_vector 47))
unfolding irq_install no_handlers
isr_dispatcher-Serves_example =
    isr_dispatcher-Serves second_disk 15 (on_vector 47) (omega arith) refl refl
