-- ===== src/Boot/Tests.antt =====
-- A firmware whose map grows with every pool, and the theorems there.
use trs.Common.{◌==◌, ◌-◌, ℕ, ◌+◌, ◌*◌, ◌≡◌, refl, ◌⊎◌, Bool, true, false, ltb, if◌then◌else◌, some}
use trs.Boot.{
  Firmware, ModeInfo, red_green_blue, too_small, mapped, loaded, get_mmaped_end_exit, map_loop,
  map_turn, mode_loop, kernel_pages,
}
use trs.Boot.Mode.{AreAtMost, IsAmong, described, mode_loop_lem}

abbrev mode_of : ℕ → ModeInfo
mode_of i = record {
  width = 640 + 320 * i;
  height = 480;
  line = 640 + 320 * i;
  format = red_green_blue;
  red_mask = 0;
  green_mask = 0;
  blue_mask = 0;
  reserved_mask = 0;
}

-- The state is whether a pool is held, and the number of changes that others still make to the map;
-- the map has 0x1100 bytes, and 48 more with a pool.
abbrev Loader : Type 0
Loader = Bool × ℕ

abbrev need : Bool → ℕ
need held = if held then 0x1130 else 0x1100

abbrev plain : Firmware Loader
plain = record {
  open_kernel = λ w. (true, w);
  kernel_size = λ w. (70000, w);
  allocate_at = λ a n w. (true, w);
  read_kernel = λ n a w. (some n, w);
  close_kernel = λ w. w;
  locate_gop = λ w. (true, w);
  gop_mode =
      λ w. record { mode = 1; max_mode = 2; info = mode_of 1; base = 0x80000000; size = 0x200000 };
  query_mode = λ i w. (some (mode_of i), w);
  free_info = λ w. w;
  set_mode = λ i w. w;
  allocate_pages = λ n w. (0x90000, w);
  allocate_pool = λ n w. (some 0x7000, (true, w.1));
  free_pool = λ p w. (false, w.1);
  get_memory_map =
      λ n ds w. (if ltb n (need w.0) then too_small (need w.0) else mapped (need w.0) 5 48, w);
  exit_boot_services = λ key w. (w.1 == 0, (w.0, w.1 - 1));
}

abbrev changes : Loader → ℕ
changes w = w.1

pages : kernel_pages 70000 ≡ 82
pages = refl

larger_mode : (mode_loop plain 2 0 (0, 0) (false, 0)).0 ≡ (1, 460800)
unfolding mode_loop
larger_mode = refl

mode_loop_lem_example :
    AreAtMost (mode_loop plain 2 0 (0, 0) (false, 0)).0.1 (described plain 2 0 (false, 0))
    × (((mode_loop plain 2 0 (0, 0) (false, 0)).0 ≡ (0, 0))
        ⊎ IsAmong (mode_loop plain 2 0 (0, 0) (false, 0)).0 (described plain 2 0 (false, 0)))
mode_loop_lem_example = mode_loop_lem plain 2 0 (false, 0)

-- The first buffer is too small, the second one's key is stale, and the third turn is the last.
third_turn :
    get_mmaped_end_exit plain 4 (false, 1)
    ≡ loaded (record { mmap_addr = 0x7000; mmap_size = 0x1130; mmap_dsize = 48 }) (true, 0)
unfolding get_mmaped_end_exit map_loop map_turn
third_turn = refl
