-- ===== src/Boot.antt =====
-- bootloader/uefi/boot.c: the boot loader. The firmware is a parameter: its services, over a state
-- `W` that they change. A service that fails returns `none` or `false`.
pub mod Mode
pub mod Map
pub mod Tests
use trs.Common.{
  ℕ, zero, suc, ◌+◌, ◌*◌, ◌/◌, ◌==◌, Bool, true, false, not, ◌||◌, ltb, if◌then◌else◌, u32, u64,
  List, Option, none, some,
}
use trs.Common.Texts.{codes}
use trs.BootInfo.{Framebuffer, BootInfo}

abbrev pub kernel_addr : ℕ
kernel_addr = 0x100000

-- `EFI_GRAPHICS_PIXEL_FORMAT`
pub data PixelFormat : Type 0 where
  red_green_blue blue_green_red bit_mask blt_only : PixelFormat

-- What the loader reads of `EFI_GRAPHICS_OUTPUT_MODE_INFORMATION`.
pub record ModeInfo : Type 0 where
  pub width : ℕ
  pub height : ℕ
  pub line : ℕ
  pub format : PixelFormat
  pub red_mask : ℕ
  pub green_mask : ℕ
  pub blue_mask : ℕ
  pub reserved_mask : ℕ

-- `gop->Mode`
pub record GopMode : Type 0 where
  pub mode : ℕ
  pub max_mode : ℕ
  pub info : ModeInfo
  pub base : ℕ
  pub size : ℕ

-- An answer of `GetMemoryMap`: the size, and with a map its key and the size of a descriptor.
pub data MapAnswer : Type 0 where
  too_small : ℕ → MapAnswer
  failed : MapAnswer
  mapped : ℕ → ℕ → ℕ → MapAnswer

pub record Firmware (W : Type 0) : Type 0 where
  pub open_kernel : W → Bool × W
  -- The position behind the file's last byte; the file is left at its begin.
  pub kernel_size : W → ℕ × W
  pub allocate_at : ℕ → ℕ → W → Bool × W
  -- Reads at most so many bytes to an address; the number read.
  pub read_kernel : ℕ → ℕ → W → Option ℕ × W
  pub close_kernel : W → W
  pub locate_gop : W → Bool × W
  pub gop_mode : W → GopMode
  pub query_mode : ℕ → W → Option ModeInfo × W
  pub free_info : W → W
  pub set_mode : ℕ → W → W
  -- The address is whatever the variable holds, since the status is not looked at.
  pub allocate_pages : ℕ → W → ℕ × W
  pub allocate_pool : ℕ → W → Option ℕ × W
  pub free_pool : ℕ → W → W
  pub get_memory_map : ℕ → ℕ → W → MapAnswer × W
  pub exit_boot_services : ℕ → W → Bool × W

-- A step of the loader is done, or it has stopped in `fatal`, or its loop has not ended.
pub data Loaded (W A : Type 0) : Type 0 where
  loaded : A → W → Loaded W A
  fatal : List ℕ → W → Loaded W A
  unfinished : Loaded W A

abbrev pub and_then : {W A B : Type 0} → Loaded W A → (A → W → Loaded W B) → Loaded W B
and_then (loaded a w) f = f a w
and_then (fatal msg w) f = fatal msg w
and_then unfinished f = unfinished

-- `(size + 0xFFF) / 0x1000 + 64`
abbrev pub kernel_pages : ℕ → ℕ
kernel_pages size = u64 (u64 (size + 0xfff) / 0x1000 + 64)

-- The masks of a mode, red, green and blue.
abbrev pub masks : ModeInfo → Option (ℕ × ℕ × ℕ)
masks mi = elim mi.format [
  | red_green_blue ↦ some (0xff0000, 0x00ff00, 0x0000ff)
  | blue_green_red ↦ some (0x0000ff, 0x00ff00, 0xff0000)
  | bit_mask ↦ some (mi.red_mask, mi.green_mask, mi.blue_mask)
  | blt_only ↦ none
]

abbrev pub framebuffer : GopMode → ℕ × ℕ × ℕ → Framebuffer
framebuffer m (red, green, blue) = record {
  base = m.base;
  size = m.size;
  width = m.info.width;
  height = m.info.height;
  pitch = u32 (m.info.line * 4);
  bpp = 32;
  rmask = red;
  gmask = green;
  bmask = blue;
  reserved_mask = m.info.reserved_mask;
}

-- `px`, of a mode's information.
abbrev pub pixels : ModeInfo → ℕ
pixels mi = u32 (mi.width * mi.height)

-- Where the loop over the memory map stands: `msize`, `ds` and the firmware.
pub record MapLoop (W : Type 0) : Type 0 where
  pub msize : ℕ
  pub ds : ℕ
  pub world : W

-- What the loop stores in `_bootinfo`.
pub record MapInfo : Type 0 where
  pub mmap_addr : ℕ
  pub mmap_size : ℕ
  pub mmap_dsize : ℕ

-- A turn of the loop: it goes on, returns or stops.
pub data Turn (W : Type 0) : Type 0 where
  again : MapLoop W → Turn W
  exited : MapInfo → W → Turn W
  dead : List ℕ → W → Turn W

module _ {W : Type 0} (fw : Firmware W) where
  unfoldable pub read_kernel : W → Loaded W ℕ
  read_kernel w0 =
      let opened = fw.open_kernel w0 in
      let size = fw.kernel_size opened.1 in
      let pages = fw.allocate_at kernel_addr (kernel_pages size.0) size.1 in
      let read = fw.read_kernel size.0 kernel_addr pages.1 in
      if not opened.0
      then fatal (codes "cannot open kernel.") opened.1
      else if not pages.0
      then fatal (codes "Allocate fail.") pages.1
      else elim read.0 [
        | none ↦ fatal (codes "file read error.") read.1
        | some n ↦ loaded n (fw.close_kernel read.1)
      ]

  -- The loop over the modes from `i` on, for `left` turns: `best` and `bestpx`.
  unfoldable pub mode_loop : ℕ → ℕ → ℕ × ℕ → W → (ℕ × ℕ) × W
  mode_loop zero i best w = (best, w)
  mode_loop (suc left) i best w =
      let q = fw.query_mode i w in
      elim q.0 [
        | none ↦ mode_loop left (i + 1) best q.1
        | some mi ↦
            mode_loop left (i + 1) (if ltb best.1 (pixels mi) then (i, pixels mi) else best)
              (fw.free_info q.1)
      ]

  -- The choice of a mode, and the framebuffer of the mode then set.
  unfoldable pub init_framebuf : W → Loaded W Framebuffer
  init_framebuf w0 =
      let located = fw.locate_gop w0 in
      let before = fw.gop_mode located.1 in
      let chosen = mode_loop before.max_mode 0 (before.mode, 0) located.1 in
      let best = chosen.0.0 in
      let w = if best == (fw.gop_mode chosen.1).mode then chosen.1 else fw.set_mode best chosen.1 in
      let mode = fw.gop_mode w in
      if not located.0
      then fatal (codes "framebuffer initialization.") located.1
      else elim (masks mode.info) [
        | none ↦ fatal (codes "no linear framebufer") w
        | some m ↦
            let fb = framebuffer mode m in
            if fb.base == 0 || fb.width == 0 || fb.height == 0
            then fatal (codes "bad framebuffer.") w
            else loaded fb w
      ]

  unfoldable pub map_turn : MapLoop W → Turn W
  map_turn l =
      let w = if l.ds == 0 then l.world else fw.free_pool l.ds l.world in
      let pool = fw.allocate_pool l.msize w in
      elim pool.0 [
        | none ↦ dead (codes "cannot allocate pool for mmap.") pool.1
        | some ds ↦
            let got = fw.get_memory_map l.msize ds pool.1 in
            elim got.0 [
              | too_small actual ↦
                  again (record { msize = u64 (actual + 0x2000); ds = ds; world = got.1 })
              | failed ↦ dead (codes "memory mapping.") got.1
              | mapped actual key dsize ↦
                  let left = fw.exit_boot_services key got.1 in
                  if left.0
                  then exited (record { mmap_addr = ds; mmap_size = actual; mmap_dsize = dsize })
                      left.1
                  else again (record { msize = u64 (actual + 0x2000); ds = ds; world = left.1 })
            ]
      ]

  unfoldable pub map_loop : ℕ → MapLoop W → Loaded W MapInfo
  map_loop zero l = unfinished
  map_loop (suc turns) l = elim (map_turn l) [
    | again l' ↦ map_loop turns l'
    | exited info w ↦ loaded info w
    | dead msg w ↦ fatal msg w
  ]

  unfoldable pub get_mmaped_end_exit : ℕ → W → Loaded W MapInfo
  get_mmaped_end_exit turns w = map_loop turns (record { msize = 0x1000; ds = 0; world = w })

  -- What the kernel is entered with: the boot information, whose stack pointer it starts on.
  unfoldable pub efi_main : ℕ → W → Loaded W BootInfo
  efi_main turns w0 = and_then (read_kernel w0) λ size w1. and_then (init_framebuf w1) λ fb w2.
      let stack = fw.allocate_pages 32 w2 in
      and_then (get_mmaped_end_exit turns stack.1) λ info w3.
        loaded
          (record {
            fb = fb;
            mmap_addr = info.mmap_addr;
            mmap_size = info.mmap_size;
            mmap_dsize = info.mmap_dsize;
            stack_top = u64 (stack.0 + 32 * 0x1000);
          })
          w3
