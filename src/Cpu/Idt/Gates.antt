-- ===== src/Cpu/Idt/Gates.antt =====
-- The address that the processor reads out of a gate.
use trs.Common.{ℕ, ◌+◌, ◌*◌, ◌/◌, ◌^◌, ◌<◌, ◌≡◌, arith}
use trs.Common.Bits.{bit_and_low}
use trs.Cpu.Idt.{Gate, idt_set_gate}

-- The handler's address, put together from a gate's three fields.
abbrev pub gate_address : Gate → ℕ
gate_address g = g.offset_low + g.offset_mid * 2 ^ 16 + g.offset_high * 2 ^ 32

-- A gate holds the 64-bit address it was set to, without loss.
pub gate_address-idt_set_gate :
    (addr ist : ℕ) → addr < 2 ^ 64 → gate_address (idt_set_gate addr ist) ≡ addr
unfolding idt_set_gate
gate_address-idt_set_gate addr ist h =
    omega
      (arith, bit_and_low 16 addr, bit_and_low 16 (addr / 2 ^ 16), bit_and_low 32 (addr / 2 ^ 32))
