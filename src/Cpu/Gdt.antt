-- ===== src/Cpu/Gdt.antt =====
-- kernel/cpu/gdt.c: the table of segment descriptors.
pub mod Fields
use trs.Common.{ℕ, ◌+◌, ◌*◌, u64, ◌-◌, ◌/◌, ◌^◌, u8, u16, u32, bit_and, bit_or, List, [], ◌∷◌}

-- `gdt_entry`
pub record GdtEntry : Type 0 where
  pub limit_low : ℕ
  pub base_low : ℕ
  pub base_mid : ℕ
  pub access : ℕ
  pub flags : ℕ
  pub base_high : ℕ

-- `gdt_set_gate`, what it stores.
unfoldable pub gdt_set_gate : ℕ → ℕ → ℕ → ℕ → GdtEntry
gdt_set_gate base limit access flags = record {
  limit_low = u16 (bit_and limit 0xffff);
  base_low = u16 (bit_and base 0xffff);
  base_mid = u8 (bit_and (base / 2 ^ 16) 0xff);
  access = access;
  flags = u8 (bit_or (bit_and (limit / 2 ^ 16) 0x0f) (bit_and flags 0xf0));
  base_high = u8 (bit_and (base / 2 ^ 24) 0xff);
}

-- `sizeof(tss_t)`
abbrev pub tss_size : ℕ
tss_size = 104

-- `gdt_set_tss` for a task state segment at `base`: the descriptor, and the two words behind it.
pub record TssEntry : Type 0 where
  pub low : GdtEntry
  pub upper_0 : ℕ
  pub upper_1 : ℕ

unfoldable pub gdt_set_tss : ℕ → TssEntry
gdt_set_tss base = record {
  low = record {
    limit_low = u16 (bit_and (tss_size - 1) 0xffff);
    base_low = u16 (bit_and base 0xffff);
    base_mid = u8 (bit_and (base / 2 ^ 16) 0xff);
    access = 0x89;
    flags = u8 (bit_and ((tss_size - 1) / 2 ^ 16) 0x0f);
    base_high = u8 (bit_and (base / 2 ^ 24) 0xff);
  };
  upper_0 = u32 (base / 2 ^ 32);
  upper_1 = 0;
}

-- The descriptors that `gdt_init` sets before that of the task state segment.
unfoldable pub gdt_gates : List GdtEntry
gdt_gates =
    gdt_set_gate 0 0 0 0
    ∷ gdt_set_gate 0 0xffffff 0x9a 0xa0
    ∷ gdt_set_gate 0 0xffffff 0x92 0xc0
    ∷ gdt_set_gate 0 0xffffff 0xfa 0xa0
    ∷ gdt_set_gate 0 0xffffff 0xf2 0xc0
    ∷ []

-- The fields of `tss_t` that are ever set.
pub record Tss : Type 0 where
  pub rsp0 : ℕ
  pub ist_0 : ℕ
  pub iomap_base : ℕ

unfoldable pub tss_set_kernel_stack : ℕ → Tss → Tss
tss_set_kernel_stack rsp0 tss = record tss { rsp0 = rsp0 }

-- The table, less its last entry, which stays 0; the segment; and what `lgdt` loads.
pub record Gdt : Type 0 where
  pub gates : List GdtEntry
  pub tss_entry : TssEntry
  pub tss : Tss
  pub limit : ℕ
  pub base : ℕ

-- The addresses are those of `gdt`, `tss` and `df_stack`, which has 8192 bytes. The table has eight
-- entries of eight bytes.
unfoldable pub gdt_init : ℕ → ℕ → ℕ → Gdt
gdt_init gdt tss df_stack = record {
  gates = gdt_gates;
  tss_entry = gdt_set_tss tss;
  tss = record { rsp0 = 0; ist_0 = u64 (df_stack + 8192); iomap_base = tss_size };
  limit = 8 * 8 - 1;
  base = gdt;
}
