-- ===== src/Kernel/Tests.antt =====
-- A start without a disk, and the theorem there.
use trs.Common.{◌+◌, ◌*◌, ℕ, ◌≡◌, refl, false, [], ◌∷◌, none, pos, negsuc}
use trs.Common.Texts.{codes}
use trs.BootInfo.{Framebuffer}
use trs.Cpu.Gdt.{gdt_init}
use trs.Cpu.Idt.{no_handlers}
use trs.Display.{Font}
use trs.Kernel.{Layout, Services, Kernel}
use trs.Kernel.Statue.{IsWithin}
use trs.Kernel.Start.{kmain, wait_loop}
use trs.Kernel.Ends.{kmain-IsWithin}
use trs.Stream.{stream_try_read, deliver, ringbuf_get, try_read_loop}

abbrev font : Font
font = record {
  headersize = 32;
  length = 256;
  charsize = 16;
  height = 16;
  width = 8;
  bytes = λ a. 0;
}

abbrev framebuffer : Framebuffer
framebuffer = record {
  base = 0x80000000;
  size = 0x300000;
  width = 1024;
  height = 768;
  pitch = 4096;
  bpp = 32;
  rmask = 0xff0000;
  gmask = 0xff00;
  bmask = 0xff;
  reserved_mask = 0;
}

abbrev layout : Layout
layout = record {
  font = font;
  gdt = 0x110000;
  tss = 0x110100;
  df_stack = 0x112000;
  stubs = λ v. 0x108000 + 16 * v;
  kernel_start = 0x100000;
  kernel_end = 0x120000;
  sector = 0x111000;
  key = 0x7000;
  kernel_file = codes "kernel.c";
  paging_file = codes "memory_paging.c";
}

-- No file is found.
abbrev services : Services ℕ ℕ ℕ
services = record {
  sys_handler = λ f. f;
  kb_handler = λ f. f;
  fat_mount = λ disk lba fat w. ((negsuc 0, fat), w);
  fat_get_error = λ e. codes "no volume";
  fat_stat = λ path fat. ((negsuc 0, 0), fat);
  fat_file_open = λ path fat. ((negsuc 0, 0), fat);
  file_size = λ f. 0;
  fat_file_read = λ f n fat. ((negsuc 0, []), fat);
}

abbrev before_start : Kernel ℕ ℕ ℕ
before_start = record {
  boot = record {
    fb = framebuffer;
    mmap_addr = 0x9000;
    mmap_size = 96;
    mmap_dsize = 48;
    stack_top = 0x90000;
  };
  gdt = gdt_init 0 0 0;
  idt = [];
  handlers = no_handlers;
  ports = record { answer = λ n. 0; reads = 0; log = [] };
  machine = record {
    in_panic = false;
    interrupts = false;
    cr2 = 0;
    display = record { font = font; fb = framebuffer; mem = λ a. 0; x = 0; y = 0; fg = 0; bg = 0 };
  };
  keyboard = record {
    stream = record { rb = record { buf = []; head = 0; tail = 0 }; flag = 1; overflow = 0 };
    shift_down = false;
    caps_down = false;
  };
  pmm = record {
    mem = λ a. 0;
    bitmap = 0;
    bitmap_bytes = 0;
    total_pages = 0;
    used_pages = 0;
    usable_pages = 0;
    last_alloc = 0;
  };
  disks = [];
  driver = record { disk_id = 0; base_lba = 0; mounted = false; dirs = []; fat = 0 };
  ferr = pos 0;
  i = 0;
}

-- No key in two turns.
two_turns : wait_loop 0x7000 ([] ∷ [] ∷ []) before_start.keyboard.stream ≡ none
unfolding wait_loop stream_try_read deliver try_read_loop ringbuf_get
two_turns = refl

kmain-IsWithin_example : IsWithin 19 (kmain layout services 4 (λ k. k) ([] ∷ []) before_start)
kmain-IsWithin_example = kmain-IsWithin layout services 4 (λ k. k) ([] ∷ []) before_start refl
