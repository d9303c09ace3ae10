-- ===== src/Cpu/Gdt/Fields.antt =====
-- What the processor reads out of a segment descriptor.
use trs.Common.{
  ℕ, ◌+◌, ◌-◌, ◌*◌, ◌/◌, ◌%◌, ◌^◌, ◌<◌, ◌≡◌, refl, arith, bit_and, bit_or, u8, ◌==◌, Bool, true,
  ◌&&◌,
}
use trs.Common.Bits.{bit_and_low, holds_below, holds_below_lem}
use trs.Cpu.Gdt.{GdtEntry, gdt_set_gate, gdt_set_tss, tss_size}

-- The base and the limit of 20 bits, put together from their fields.
abbrev pub base_of : GdtEntry → ℕ
base_of e = e.base_low + e.base_mid * 2 ^ 16 + e.base_high * 2 ^ 24

abbrev pub limit_of : GdtEntry → ℕ
limit_of e = e.limit_low + e.flags % 16 * 2 ^ 16

-- The high half of the flags' byte is the flags given, and its low half the limit's top digit.
abbrev halves : ℕ → ℕ → Bool
halves top f = let b = u8 (bit_or top (bit_and f 0xf0)) in (b % 16 == top) && (b / 16 == f / 16)

halves_table : holds_below 16 (λ top. holds_below 256 (halves top)) ≡ true
unfolding holds_below
halves_table = refl

halves_lem :
    (top f : ℕ)
    → top < 16
    → f < 256
    → (u8 (bit_or top (bit_and f 0xf0)) % 16 ≡ top)
      × (u8 (bit_or top (bit_and f 0xf0)) / 16 ≡ f / 16)
halves_lem top f p q =
    let row = holds_below_lem 16 (λ t. holds_below 256 (halves t)) top halves_table p in
    let entry = holds_below_lem 256 (halves top) f row q in (ground arith, ground arith)

-- A descriptor holds the 32-bit base and the high half of the flags it was set to without loss,
-- and of the limit its low 20 bits.
pub gdt_set_gate_lem :
    (base limit access flags : ℕ)
    → base < 2 ^ 32
    → flags < 256
    → (let e = gdt_set_gate base limit access flags in
        (base_of e ≡ base)
        × (limit_of e ≡ limit % 2 ^ 20)
        × (e.flags / 16 ≡ flags / 16)
        × (e.access ≡ access))
unfolding gdt_set_gate
gdt_set_gate_lem base limit access flags p q =
    let top = bit_and (limit / 2 ^ 16) 0x0f in
    let t = bit_and_low 4 (limit / 2 ^ 16) in
    let (low, high) = halves_lem top flags (omega (arith, t)) q in
    (
      omega (
        arith,
        bit_and_low 16 base,
        bit_and_low 8 (base / 2 ^ 16),
        bit_and_low 8 (base / 2 ^ 24),
      ),
      omega (arith, bit_and_low 16 limit, t, low),
      high,
      refl,
    )

-- The descriptor of the task state segment, with the word behind it, holds its 64-bit address, and
-- the segment's last byte as the limit.
pub gdt_set_tss_lem :
    (base : ℕ)
    → base < 2 ^ 64
    → (let e = gdt_set_tss base in
        (base_of e.low + e.upper_0 * 2 ^ 32 ≡ base) × (limit_of e.low ≡ tss_size - 1))
unfolding gdt_set_tss
gdt_set_tss_lem base p = (
  omega (arith, bit_and_low 16 base, bit_and_low 8 (base / 2 ^ 16), bit_and_low 8 (base / 2 ^ 24)),
  refl,
)
