-- ===== src/Boot/Map.antt =====
-- The loop of bootloader/uefi/boot.c that gets the memory map and leaves the boot services.
use trs.Common.{
  ℕ, ◌+◌, ◌-◌, ◌*◌, ◌/◌, ◌≤◌, ◌<◌, ◌^◌, ◌≡◌, ◌⊎◌, true, false, ◌==◌, if◌then◌else◌, List, none,
  some,
}
use trs.Common.Texts.{codes}
use trs.Boot.{
  Firmware, too_small, failed, mapped, Loaded, loaded, fatal, unfinished, MapLoop, MapInfo, Turn,
  again, exited, dead,
}

-- What the loop relies on. A buffer is called too small only for a map that is larger, a map that
-- is given fits its buffer, and no map has more than `limit` bytes. The services may fail at any
-- call. Leaving the boot services is refused for a key that is no longer current: each time one of
-- the `changes` that others still make to the map has come in between.
pub record IsServing {W : Type 0} (fw : Firmware W) (limit : ℕ) (changes : W → ℕ) : Type 0 where
  pub bounded : limit + 0x2000 < 2 ^ 64
  pub small :
      (size ds : ℕ) (w : W) (n : ℕ)
      → (fw.get_memory_map size ds w).0 ≡ too_small n
      → (size < n) × (n ≤ limit)
  pub enough :
      (size ds : ℕ) (w : W) (n key dsize : ℕ)
      → (fw.get_memory_map size ds w).0 ≡ mapped n key dsize
      → (n ≤ size) × (n ≤ limit)
  pub stale :
      (key : ℕ) (w : W)
      → (fw.exit_boot_services key w).0 ≡ false
      → changes (fw.exit_boot_services key w).1 < changes w
  pub pool_keeps : (size : ℕ) (w : W) → changes (fw.allocate_pool size w).1 ≤ changes w
  pub free_keeps : (ds : ℕ) (w : W) → changes (fw.free_pool ds w) ≤ changes w
  pub map_keeps : (size ds : ℕ) (w : W) → changes (fw.get_memory_map size ds w).1 ≤ changes w

-- The turns that a map of at most `limit` bytes may take to fit, if nothing changes it from outside.
abbrev pub rounds : ℕ → ℕ
rounds limit = limit / 0x2000 + 2

module _ {W : Type 0} (fw : Firmware W) where
  -- The map lies in a pool of at least its size, which was allocated for it and not freed; it was
  -- given right behind the allocation, and the boot services were left right behind it with its key.
  pub record IsHeld (info : MapInfo) (v : W) : Type 0 where
    pub size : ℕ
    pub key : ℕ
    pub before : W
    pub pool : (fw.allocate_pool size before).0 ≡ some info.mmap_addr
    pub given :
        (fw.get_memory_map size info.mmap_addr (fw.allocate_pool size before).1).0
        ≡ mapped info.mmap_size key info.mmap_dsize
    pub left :
        let got = (fw.get_memory_map size info.mmap_addr (fw.allocate_pool size before).1).1 in
        ((fw.exit_boot_services key got).0 ≡ true) × ((fw.exit_boot_services key got).1 ≡ v)
    pub fits : info.mmap_size ≤ size

  -- The service that failed, and the message for it.
  abbrev pub IsRefused : List ℕ → W → Type 0
  IsRefused msg v =
      ((size : ℕ) × (u : W) × ((fw.allocate_pool size u).0 ≡ none)
        × ((fw.allocate_pool size u).1 ≡ v)
        × (msg ≡ codes "cannot allocate pool for mmap."))
      ⊎ ((size : ℕ) × (ds : ℕ) × (u : W) × ((fw.get_memory_map size ds u).0 ≡ failed)
          × ((fw.get_memory_map size ds u).1 ≡ v)
          × (msg ≡ codes "memory mapping."))

  abbrev pub Ends : Loaded W MapInfo → Type 0
  Ends (loaded info v) = IsHeld info v
  Ends (fatal msg v) = IsRefused msg v
  Ends unfinished = ⊥

module _ {W : Type 0} (fw : Firmware W) (limit : ℕ) (changes : W → ℕ)
    (serves : IsServing fw limit changes) where
  -- A turn that goes on has used up a change, or has more than 0x2000 bytes more for the next one.
  abbrev Goes : MapLoop W → Turn W → Type 0
  Goes l (again l') =
      (l'.msize ≤ limit + 0x2000)
      × ((changes l'.world < changes l.world)
          ⊎ ((changes l'.world ≤ changes l.world) × (l.msize + 0x2000 < l'.msize)))
  Goes l (exited info w) = IsHeld fw info w
  Goes l (dead msg w) = IsRefused fw msg w

  abbrev freed : MapLoop W → W
  freed l = if l.ds == 0 then l.world else fw.free_pool l.ds l.world

  -- The turns left cover the changes to come, and the sizes that a map may still grow to.
  abbrev IsCovered : ℕ → MapLoop W → Type 0
  IsCovered turns l = changes l.world * rounds limit + (limit + 0x2000 - l.msize) / 0x2000 < turns
