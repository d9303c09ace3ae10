-- ===== src/Cpu.antt =====
-- kernel/cpu: the interrupt controller (pic.c), the interrupt and segment descriptors (idt.c, gdt.c).
pub mod Pic
pub mod Idt
pub mod Gdt
pub mod Tests
