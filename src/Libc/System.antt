-- ===== src/Libc/System.antt =====
-- libc/syscall.c, libc/stdio.c, libc/dirent.c and libc/mem.c: the library's calls of the kernel,
-- answered by `syscall_handler`. A program's memory is the kernel's, since both use one address
-- space. A call is `none` where it waits for a key. An `int` that a call returns is a ℤ.
pub mod Entries
pub mod Tests
use trs.Common.{
  ℕ, zero, suc, ◌+◌, ◌-◌, ◌^◌, Bool, true, false, not, ◌&&◌, ◌||◌, ◌==◌, if◌then◌else◌, u32,
  has_bits, List, [], Option, none, some, ◌>>=◌, ℤ, pos, negsuc,
}
use trs.Common.Memory.{Mem, store_le}
use trs.BootInfo.{load_le}
use trs.Libc.Memory.Moved.{moved}
use trs.Fat32.{FatDir, is_ok}
use trs.Sys.{Sys, DirInfo, syscall_handler, int_of, reg_of}

-- Nothing is ever allocated: NULL.
abbrev pub malloc : ℕ → ℕ
malloc size = 0

abbrev pub calloc : ℕ → ℕ → ℕ
calloc num size = 0

abbrev pub realloc : ℕ → ℕ → ℕ
realloc ptr new_size = 0

-- `ATTR_LABEL` and `ATTR_DIR`, and where `DirInfo` has the attributes and how large it is.
abbrev pub attr_label : ℕ
attr_label = 0x08

abbrev pub attr_dir : ℕ
attr_dir = 0x10

abbrev pub attr_offset : ℕ
attr_offset = 40

abbrev pub info_size : ℕ
info_size = 44

-- The entries that `readdir` passes over: labels, "." and "..".
abbrev pub is_label : Mem → ℕ → Bool
is_label m inf = has_bits (m (inf + attr_offset)) attr_label

abbrev pub is_dots : Mem → ℕ → Bool
is_dots m inf = m inf == b'.' && (m (inf + 1) == 0 || m (inf + 1) == b'.' && m (inf + 2) == 0)

module _ {D F : Type 0} (lib : FatDir D F DirInfo) (text_at : Mem → ℕ → List ℕ) where
  -- The interrupt, between the registers that it takes and the result in `rax`.
  abbrev pub answered : Option (Sys D F) → Option (ℕ × Sys D F)
  answered none = none
  answered (some s) = some (u32 s.regs.rax, s)

  unfoldable pub syscall1 : ℕ → ℕ → Sys D F → Option (ℕ × Sys D F)
  syscall1 call one s = answered (
      syscall_handler lib text_at []
        (record s { regs = record { rax = call; rdx = one; rdi = s.regs.rdi } }))

  -- `keys` are the keys typed, for a call that reads them.
  unfoldable pub syscall2 : List ℕ → ℕ → ℕ → ℕ → Sys D F → Option (ℕ × Sys D F)
  syscall2 keys call one two s = answered (
      syscall_handler lib text_at keys
        (record s { regs = record { rax = call; rdx = one; rdi = two } }))

  unfoldable pub printf : ℕ → Sys D F → Option (Sys D F)
  printf str s = do r ← syscall1 1 str s; some r.1

  unfoldable pub scanf : List ℕ → ℕ → ℕ → Sys D F → Option (ℕ × Sys D F)
  scanf keys buf len s = syscall2 keys 2 buf len s

  unfoldable pub cli_clear : Sys D F → Option (Sys D F)
  cli_clear s = do r ← syscall1 3 0 s; some r.1

  unfoldable pub set_color : ℕ → ℕ → Sys D F → Option (Sys D F)
  set_color fg bg s = do r ← syscall2 [] 4 fg bg s; some r.1

  unfoldable pub set_crsr : ℕ → ℕ → Sys D F → Option (Sys D F)
  set_crsr x y s = do r ← syscall2 [] 5 x y s; some r.1

  -- `dir->fd`, widened to a register.
  abbrev pub fd_of : ℕ → Sys D F → ℕ
  fd_of dir s = reg_of (int_of (load_le 4 s.mem dir))

  unfoldable pub opendir : ℕ → ℕ → Sys D F → Option (ℤ × Sys D F)
  opendir dir name s =
      if dir == 0 || name == 0
      then some (negsuc 0, s)
      else syscall1 6 name s >>= λ r. elim (int_of r.0) [
        | pos fd ↦ some (pos 0, record r.1 { mem = store_le 4 r.1.mem dir fd })
        | negsuc e ↦ some (negsuc e, r.1)
      ]

  -- One turn's call, into the local `inf`.
  abbrev pub next_entry : ℕ → ℕ → Sys D F → Option (ℕ × Sys D F)
  next_entry dir inf s = syscall2 [] 8 (fd_of dir s) inf s

  -- `none` also where the turns are not enough.
  unfoldable pub readdir_loop : ℕ → ℕ → ℕ → ℕ → Sys D F → Option (ℤ × Sys D F)
  readdir_loop zero dir info inf s = none
  readdir_loop (suc turns) dir info inf s = next_entry dir inf s >>= λ r.
      let t = r.1 in
      let rest = readdir_loop turns dir info inf t in
      if not (is_ok (int_of r.0))
      then some (int_of r.0, t)
      else if is_label t.mem inf
      then rest
      else if is_dots t.mem inf
      then rest
      else some (pos 0, record t { mem = moved t.mem info inf info_size })

  -- `inf` is the address of the local.
  unfoldable pub readdir : ℕ → ℕ → ℕ → ℕ → Sys D F → Option (ℤ × Sys D F)
  readdir turns inf dir info s =
      if dir == 0 || info == 0 then some (negsuc 0, s) else readdir_loop turns dir info inf s

  unfoldable pub closedir : ℕ → Sys D F → Option (ℤ × Sys D F)
  closedir dir s =
      if dir == 0
      then some (negsuc 0, s)
      else syscall1 7 (fd_of dir s) s >>= λ r.
          some (int_of r.0, record r.1 { mem = store_le 4 r.1.mem dir (2 ^ 32 - 1) })
