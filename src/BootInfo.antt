-- ===== src/BootInfo.antt =====
-- bootloader/uefi/inc/bootinfo.h: what the boot loader hands to the kernel.
use trs.Common.{ℕ, zero, suc, ◌+◌, ◌*◌}
use trs.Common.Memory.{Mem}

-- `ConventionalMemory` of `kern_mem_type`
abbrev pub conventional_memory : ℕ
conventional_memory = 7

-- `framebuf_info_t`
pub record Framebuffer : Type 0 where
  pub base : ℕ
  pub size : ℕ
  pub width : ℕ
  pub height : ℕ
  pub pitch : ℕ
  pub bpp : ℕ
  pub rmask : ℕ
  pub gmask : ℕ
  pub bmask : ℕ
  pub reserved_mask : ℕ

-- `mem_desc_t`, less its padding, its virtual address and its attributes, which nothing reads.
pub record MemDesc : Type 0 where
  pub kind : ℕ
  pub phys : ℕ
  pub pages : ℕ

-- `boot_info_t`
pub record BootInfo : Type 0 where
  pub fb : Framebuffer
  pub mmap_addr : ℕ
  pub mmap_size : ℕ
  pub mmap_dsize : ℕ
  pub stack_top : ℕ

-- The little-endian number in `n` bytes.
unfoldable pub load_le : ℕ → Mem → ℕ → ℕ
load_le zero m a = 0
load_le (suc n) m a = m a + 256 * load_le n m (a + 1)

-- The packed `mem_desc_t` at an address.
unfoldable pub load_desc : Mem → ℕ → MemDesc
load_desc m a = record {
  kind = load_le 4 m a;
  phys = load_le 8 m (a + 8);
  pages = load_le 8 m (a + 24);
}
