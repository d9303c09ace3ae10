-- ===== src/Sys.antt =====
-- kernel/sys.c: the system calls. `fat32_dir_*` are those of `Fat32`, over the FAT library; calls
-- of the display are logged, the latest first.
pub mod Line
pub mod Entry
pub mod Tests
use trs.Common.{
  ℕ, zero, suc, ◌+◌, ◌-◌, ◌^◌, ◌%◌, Bool, true, false, not, ◌&&◌, ◌||◌, ◌==◌, ltb, if◌then◌else◌,
  u8, u32, ◌/◌, take, List, [], ◌∷◌, Option, none, some, ℤ, pos, negsuc,
}
use trs.Common.Memory.{Mem, store, store_le, store_list}
use trs.Libc.Memory.{memset}
use trs.Fat32.{
  FatDir, Driver, fat_err_param, is_ok, fat32_dir_open, fat32_dir_read, fat32_dir_close,
}

-- Calls of kernel/driver/image.c: a text by its address, a text of one byte, and the others.
pub data DspCall : Type 0 where
  dsp_print : ℕ → DspCall
  dsp_echo : ℕ → DspCall
  dsp_clear : DspCall
  dsp_set_color : ℕ → ℕ → DspCall
  dsp_set_cursor : ℕ → ℕ → DspCall

-- What SYS_READ has at a time: memory, the index `i` and the display's log.
pub record Input : Type 0 where
  pub mem : Mem
  pub i : ℕ
  pub display : List DspCall

abbrev pub backspace : ℕ
backspace = 8

abbrev pub newline : ℕ
newline = 10

-- The loop of SYS_READ. `keys` are the bytes that `stream_read` returns one after another; with
-- none left it still waits, which is `none`.
unfoldable pub read_line : List ℕ → ℕ → ℕ → Input → Option Input
read_line [] buf len l = if ltb (l.i + 1) len then none else some l
read_line (ch ∷ keys) buf len l =
    let erased : Input =
      if ltb 0 l.i then record l { i = l.i - 1; display = dsp_echo backspace ∷ l.display } else l in
    let kept : Input = record {
      mem = store l.mem (buf + l.i) ch;
      i = l.i + 1;
      display = dsp_echo ch ∷ l.display;
    } in
    let next = read_line keys buf len (if ch == backspace then erased else kept) in
    if ltb (l.i + 1) len then (if ch == newline then some l else next) else some l

-- SYS_READ: the result is the new memory, the count returned, and the display's log.
unfoldable pub sys_read : List ℕ → ℕ → ℕ → Mem → List DspCall → Option Input
sys_read keys buf len m display =
    if buf == 0 || len == 0
    then some (record { mem = m; i = 0; display = display })
    else elim (read_line keys buf len (record { mem = m; i = 0; display = display })) [
      | none ↦ none
      | some l ↦ some (record l { mem = store l.mem (buf + l.i) 0 })
    ]

-- The registers that a call passes and returns values in.
pub record Regs : Type 0 where
  pub rax : ℕ
  pub rdx : ℕ
  pub rdi : ℕ

-- `DirInfo` of the FAT library: what the kernel reads of it.
pub record DirInfo : Type 0 where
  pub name : List ℕ
  pub name_len : ℕ
  pub size : ℕ
  pub attr : ℕ

-- `(int)(long long)v`, and an `int` in a 64-bit register.
unfoldable pub int_of : ℕ → ℤ
int_of v = let n = u32 v in if ltb n (2 ^ 31) then pos n else negsuc (2 ^ 32 - 1 - n)

unfoldable pub reg_of : ℤ → ℕ
reg_of (pos n) = n
reg_of (negsuc n) = 2 ^ 64 - 1 - n

-- `ABI_NAME_MAX`
abbrev pub abi_name_max : ℕ
abi_name_max = 32

abbrev pub name_count : DirInfo → ℕ
name_count info = if ltb abi_name_max info.name_len then abi_name_max else info.name_len

-- `AbiDirInfo` filled at `out`: the name at 0, the size at 36, the attributes and the name's
-- length at 40 and 41.
unfoldable pub store_info : Mem → ℕ → DirInfo → Mem
store_info m out info =
    let n = name_count info in
    let cleared = memset m out 0 (abi_name_max + 1) in
    let named = store_list cleared out (take n info.name) in
    let sized = store_le 4 named (out + 36) info.size in
    store (store sized (out + 40) (u8 info.attr)) (out + 41) (u8 n)

-- What a system call works on.
pub record Sys (D F : Type 0) : Type 0 where
  pub regs : Regs
  pub mem : Mem
  pub display : List DspCall
  pub driver : Driver D F

module _ {D F : Type 0} (lib : FatDir D F DirInfo) (text_at : Mem → ℕ → List ℕ) where
  -- A call's result in `rax`.
  abbrev pub result : ℕ → Sys D F → Sys D F
  result v s = record s { regs = record { rax = v; rdx = s.regs.rdx; rdi = s.regs.rdi } }

  unfoldable pub sys_opendir : Sys D F → Sys D F
  sys_opendir s =
      let path = if s.regs.rdx == 0 then none else some (text_at s.mem s.regs.rdx) in
      let r = fat32_dir_open lib path s.driver in result (reg_of r.0) (record s { driver = r.1 })

  unfoldable pub sys_readdir : Sys D F → Sys D F
  sys_readdir s =
      let out = s.regs.rdi in
      let r = fat32_dir_read lib (int_of s.regs.rdx) true s.driver in
      let after = record s { driver = r.1 } in
      if out == 0
      then result (reg_of fat_err_param) s
      else if not (is_ok r.0.0)
      then result (reg_of r.0.0) after
      else elim r.0.1 [
        | none ↦ result 0 after
        | some info ↦ result 0 (record after { mem = store_info s.mem out info })
      ]

  unfoldable pub sys_closedir : Sys D F → Sys D F
  sys_closedir s =
      let r = fat32_dir_close lib (int_of s.regs.rdx) s.driver in
      result (reg_of r.0) (record s { driver = r.1 })

  abbrev pub shows : DspCall → Sys D F → Sys D F
  shows c s = record s { display = c ∷ s.display }

  -- The handler; `none` where it waits for a key.
  unfoldable pub syscall_handler : List ℕ → Sys D F → Option (Sys D F)
  syscall_handler keys s =
      let regs = s.regs in
      if regs.rax == 1
      then some (if regs.rdx == 0 then s else shows (dsp_print regs.rdx) s)
      else if regs.rax == 2
      then elim (sys_read keys regs.rdx regs.rdi s.mem s.display) [
        | none ↦ none
        | some l ↦ some (result l.i (record s { mem = l.mem; display = l.display }))
      ]
      else if regs.rax == 3
      then some (shows dsp_clear s)
      else if regs.rax == 4
      then some (shows (dsp_set_color (u32 regs.rdx) (u32 regs.rdi)) s)
      else if regs.rax == 5
      then some (shows (dsp_set_cursor (u32 regs.rdx) (u32 regs.rdi)) s)
      else if regs.rax == 6
      then some (sys_opendir s)
      else if regs.rax == 8
      then some (sys_readdir s)
      else if regs.rax == 7
      then some (sys_closedir s)
      else some (result (2 ^ 64 - 1) s)
