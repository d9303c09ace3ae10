-- ===== src/Cpu/Pic.antt =====
-- kernel/cpu/pic.c: the two interrupt controllers, programmed through their ports.
pub mod Lines
use trs.Common.{ℕ, suc, ◌+◌, ◌-◌, ◌/◌, ◌%◌, ◌^◌, ltb, if◌then◌else◌, u8, bit_and, bit_or}
use trs.Ports.{World, inb, outb}

abbrev pub pic1_cmd : ℕ
pic1_cmd = 0x20

abbrev pub pic1_data : ℕ
pic1_data = 0x21

abbrev pub pic2_cmd : ℕ
pic2_cmd = 0xa0

abbrev pub pic2_data : ℕ
pic2_data = 0xa1

abbrev pub pic_eoi : ℕ
pic_eoi = 0x20

-- `io_wait` of kernel/inc/io.h
abbrev pub io_wait : World → World
io_wait w = outb 0x80 0 w

-- A command byte, and the wait behind it.
abbrev pub send : ℕ → ℕ → World → World
send port byte w = io_wait (outb port byte w)

-- Between `irq_save` and `irq_restore`, which touch no port.
unfoldable pub pic_remap : ℕ → World → World
pic_remap off w0 =
    let w1 = send pic2_cmd 0x11 (send pic1_cmd 0x11 w0) in
    let w2 = send pic2_data (off + 8) (send pic1_data off w1) in
    let w3 = send pic2_data 0x02 (send pic1_data 0x04 w2) in
    let w4 = send pic2_data 0x01 (send pic1_data 0x01 w3) in
    outb pic2_data 0xff (outb pic1_data 0xfb w4)

abbrev pub mask_port : ℕ → ℕ
mask_port line = if ltb line 8 then pic1_data else pic2_data

-- `1 << (line & 7)`, as a byte.
abbrev pub line_bit : ℕ → ℕ
line_bit line = u8 (2 ^ bit_and line 7)

-- `~bit` is that of an `int`.
abbrev pub without : ℕ → ℕ → ℕ
without mask bit = bit_and mask (2 ^ 32 - 1 - bit)

unfoldable pub pic_unmask : ℕ → World → World
pic_unmask line w =
    let r = inb (mask_port line) w in outb (mask_port line) (without r.0 (line_bit line)) r.1

unfoldable pub pic_mask : ℕ → World → World
pic_mask line w =
    let r = inb (mask_port line) w in outb (mask_port line) (bit_or r.0 (line_bit line)) r.1
