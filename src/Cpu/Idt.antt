-- ===== src/Cpu/Idt.antt =====
-- kernel/cpu/idt.c: the interrupt gates, and the dispatcher of interrupts. `K` is the kernel's
-- state that handlers work on, the saved registers but the vector included.
pub mod Gates
pub mod Dispatch
use trs.Common.{
  ℕ, zero, suc, ◌+◌, ◌-◌, ◌/◌, ◌%◌, ◌^◌, Bool, true, false, not, ◌&&◌, ◌||◌, ◌==◌, ltb, leb,
  if◌then◌else◌, u8, u16, u32, u64, bit_and, has_bits, List, [], ◌∷◌, map, Option, none, some,
}
use trs.Ports.{World, inb, outb}
use trs.Cpu.Pic.{pic1_cmd, pic2_cmd, pic_eoi}

-- `idt_entry_t`
pub record Gate : Type 0 where
  pub offset_low : ℕ
  pub selector : ℕ
  pub zero : ℕ
  pub flags : ℕ
  pub offset_mid : ℕ
  pub offset_high : ℕ
  pub reserved : ℕ

-- `idt_set_gate`, what it stores.
unfoldable pub idt_set_gate : ℕ → ℕ → Gate
idt_set_gate addr ist = record {
  offset_low = u16 (bit_and addr 0xffff);
  selector = 0x08;
  zero = u8 (bit_and ist 0x0f);
  flags = 0x8e;
  offset_mid = u16 (bit_and (addr / 2 ^ 16) 0xffff);
  offset_high = u32 (bit_and (addr / 2 ^ 32) 0xffffffff);
  reserved = 0;
}

-- The gates from vector `i` on: the table that `idt_init` fills from `isr_stub_table`.
unfoldable pub idt_gates : ℕ → ℕ → (ℕ → ℕ) → List Gate
idt_gates zero i stub = []
idt_gates (suc n) i stub =
    idt_set_gate (stub i) (if i == 8 then 1 else 0) ∷ idt_gates n (i + 1) stub

abbrev pub irq_base : ℕ
irq_base = 0x20

-- What a handler works on: the vector, the kernel's state and the ports.
pub record Frame (K : Type 0) : Type 0 where
  pub int_no : ℕ
  pub kernel : K
  pub ports : World

abbrev pub Handler : Type 0 → Type 0
Handler K = Frame K → Frame K

-- The tables of handlers; `none` is a null pointer.
pub record Handlers (K : Type 0) : Type 0 where
  pub isr_handlers : ℕ → Option (Handler K)
  pub irq_handlers : ℕ → Option (Handler K)

-- The dispatcher returns, or it calls `kpanic_regs`, which does not.
pub data Outcome (K : Type 0) : Type 0 where
  returned : Frame K → Outcome K
  panics : ℕ → Frame K → Outcome K

-- The interrupt is not in service at its controller.
unfoldable pub irq_is_spurious : ℕ → World → Bool × World
irq_is_spurious irq w =
    let cmd = if ltb irq 8 then pic1_cmd else pic2_cmd in
    let r = inb cmd (outb cmd 0x0b w) in (not (has_bits r.0 (2 ^ bit_and irq 7)), r.1)

module _ {K : Type 0} where
  unfoldable pub isr_install : ℕ → Handler K → Handlers K → Handlers K
  isr_install vector h t = record t {
    isr_handlers = λ v. if v == vector then some h else t.isr_handlers v;
  }

  unfoldable pub irq_install : ℕ → Handler K → Handlers K → Handlers K
  irq_install irq h t =
      if ltb irq 16
      then record t { irq_handlers = λ q. if q == irq then some h else t.irq_handlers q }
      else t

  -- Both tables as `idt_init` leaves them.
  unfoldable pub no_handlers : Handlers K
  no_handlers = record { isr_handlers = λ v. none; irq_handlers = λ q. none }

  -- A call through a table.
  abbrev pub call : Option (Handler K) → Frame K → Frame K
  call none r = r
  call (some h) r = h r

  abbrev pub end_of : ℕ → Frame K → Frame K
  end_of cmd r = record r { ports = outb cmd pic_eoi r.ports }

  unfoldable pub acknowledge : ℕ → Frame K → Frame K
  acknowledge irq r = if leb 8 irq then end_of pic1_cmd (end_of pic2_cmd r) else end_of pic1_cmd r

  -- The part of the dispatcher that serves hardware interrupts.
  unfoldable pub serve_irq : Handlers K → ℕ → Frame K → Outcome K
  serve_irq t irq r =
      let s = irq_is_spurious irq r.ports in
      let asked = record r { ports = s.1 } in
      let served : Frame K → Outcome K =
        λ q. returned (acknowledge irq (call (t.irq_handlers irq) q)) in
      if irq == 7 || irq == 15
      then if s.0
        then returned (if irq == 15 then end_of pic1_cmd asked else asked)
        else served asked
      else served r

  -- The vector is read again behind the handler, which may change it.
  unfoldable pub isr_dispatcher : Handlers K → Frame K → Outcome K
  isr_dispatcher t r0 =
      let r = call (t.isr_handlers r0.int_no) r0 in
      if ltb r.int_no 32
      then panics r.int_no r
      else if ltb r.int_no irq_base || leb (irq_base + 16) r.int_no
      then returned r
      else serve_irq t (u32 (r.int_no - irq_base)) r
