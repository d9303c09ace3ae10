-- ===== src/Panic.antt =====
-- kernel/panic.c: the kernel's last words. None of its entry points returns: the machine halts in
-- a state, or `panic_header` goes on. A text is its bytes, a null pointer is `none`.
pub mod Number
pub mod Halt
pub mod Tests
use trs.Common.{
  ℕ, zero, suc, ◌+◌, ◌/◌, ◌%◌, ◌^◌, Bool, true, false, ◌==◌, ltb, if◌then◌else◌, List, [], ◌∷◌,
  Option, none, some,
}
use trs.Common.Texts.{codes}
use trs.Display.{Display, dsp_print, dsp_clear, dsp_set_color}
use trs.Display.Number.{dsp_print_hex}

-- `in_panic`, the flag that the processor takes interrupts, its register cr2, and the display.
pub record Machine : Type 0 where
  pub in_panic : Bool
  pub interrupts : Bool
  pub cr2 : ℕ
  pub display : Display

pub data Outcome : Type 0 where
  halted : Machine → Outcome
  goes_on : Machine → Outcome

abbrev pub and_then : Outcome → (Machine → Outcome) → Outcome
and_then (halted m) f = halted m
and_then (goes_on m) f = f m

-- The registers that the interrupt's entry has pushed, less the segments that nothing prints.
pub record Regs : Type 0 where
  pub r8 : ℕ
  pub r9 : ℕ
  pub r10 : ℕ
  pub r11 : ℕ
  pub r12 : ℕ
  pub r13 : ℕ
  pub r14 : ℕ
  pub r15 : ℕ
  pub rdi : ℕ
  pub rsi : ℕ
  pub rbp : ℕ
  pub rbx : ℕ
  pub rdx : ℕ
  pub rcx : ℕ
  pub rax : ℕ
  pub int_no : ℕ
  pub err_code : ℕ
  pub rip : ℕ
  pub cs : ℕ
  pub rflags : ℕ
  pub rsp : ℕ
  pub ss : ℕ

-- Calls that one after another change the display.
abbrev pub run : List (Display → Display) → Display → Display
run [] d = d
run (call ∷ calls) d = run calls (call d)

-- `while(v > 0)`: the digits stored so far, in the order in which they are printed. A 64-bit number
-- has at most twenty.
unfoldable pub out_loop : ℕ → ℕ → List ℕ → List ℕ
out_loop zero v buf = buf
out_loop (suc left) v buf =
    let rest = out_loop left (v / 10) ((b'0' + v % 10) ∷ buf) in if ltb 0 v then rest else buf

abbrev pub out_digits : ℕ → List ℕ
out_digits v = out_loop 20 v (if v == 0 then b'0' ∷ [] else [])

unfoldable pub out_dec : ℕ → Display → Display
out_dec v d = dsp_print (out_digits v) d

unfoldable pub field : List ℕ → ℕ → Display → Display
field name v d = run (dsp_print name ∷ dsp_print (codes " = ") ∷ dsp_print_hex v ∷ []) d

unfoldable pub panic_halt : Machine → Outcome
panic_halt m = halted (record m { interrupts = false })

-- `_PanicRed` and `_PanicDark`
abbrev pub panic_red : ℕ
panic_red = 0xff4444

abbrev pub panic_dark : ℕ
panic_dark = 0x1a1a1a

unfoldable pub panic_header : List ℕ → Machine → Outcome
panic_header title m =
    if m.in_panic
    then panic_halt m
    else goes_on (record m {
      in_panic = true;
      interrupts = false;
      display =
          run
            (dsp_set_color panic_red panic_dark
              ∷ dsp_clear
              ∷ dsp_print (codes "\n\n << TRS PANIC >>\n")
              ∷ dsp_print title
              ∷ dsp_print (codes "\n")
              ∷ [])
            m.display;
    })

abbrev pub text_or : Option (List ℕ) → List ℕ → List ℕ
text_or none other = other
text_or (some text) other = text

-- The body of an entry point behind its header: it prints, and the machine halts.
abbrev pub print_and_halt : List (Display → Display) → Machine → Outcome
print_and_halt calls m = panic_halt (record m { display = run calls m.display })

-- `line` is the line number of a source file, so not negative.
unfoldable pub kpanic : Option (List ℕ) → Option (List ℕ) → ℕ → Machine → Outcome
kpanic msg file line m = and_then (panic_header (codes "--- Kernel panic ---") m) (
    print_and_halt (
      dsp_print (codes "  reason: ")
      ∷ dsp_print (text_or msg (codes "(no message)"))
      ∷ dsp_print (codes "\n at ")
      ∷ dsp_print (text_or file (codes "???"))
      ∷ dsp_print (codes " : ")
      ∷ out_dec line
      ∷ dsp_print (codes "\n\nSystem halted. Reset required\n")
      ∷ []))

-- `dsp_print("\n  "); field(name, v);`
abbrev pub below : List ℕ → ℕ → Display → Display
below name v d = run (dsp_print (codes "\n  ") ∷ field name v ∷ []) d

-- `dsp_print("  "); field(name, v); dsp_print("\n");`
abbrev pub register : List ℕ → ℕ → Display → Display
register name v d = run (dsp_print (codes "  ") ∷ field name v ∷ dsp_print (codes "\n") ∷ []) d

abbrev pub page_fault : Regs → ℕ → Display → Display
page_fault reg cr2 d = if reg.int_no == 14 then below (codes "cr2") cr2 d else d

abbrev pub registers : Regs → List (Display → Display)
registers reg =
    register (codes "rax") reg.rax
    ∷ register (codes "rcx") reg.rcx
    ∷ register (codes "rsi") reg.rsi
    ∷ register (codes "rbp") reg.rbp
    ∷ register (codes "rbx") reg.rbx
    ∷ register (codes "rdx") reg.rdx
    ∷ register (codes "rdi") reg.rdi
    ∷ register (codes "r8") reg.r8
    ∷ register (codes "r9") reg.r9
    ∷ register (codes "r10") reg.r10
    ∷ register (codes "r11") reg.r11
    ∷ register (codes "r12") reg.r12
    ∷ register (codes "r13") reg.r13
    ∷ register (codes "r14") reg.r14
    ∷ register (codes "r15") reg.r15
    ∷ dsp_print (codes "\n\nSystem halted. Reset required.\n")
    ∷ []

unfoldable pub kpanic_regs : Regs → Option (List ℕ) → Machine → Outcome
kpanic_regs reg msg m0 = and_then (panic_header (codes "--- CPU exception ---") m0) λ m.
    print_and_halt
      (dsp_print (codes "  ")
        ∷ dsp_print (text_or msg (codes "unknown exception"))
        ∷ dsp_print (codes "\n")
        ∷ below (codes "vector") reg.int_no
        ∷ below (codes "err") reg.err_code
        ∷ dsp_print (codes "\n")
        ∷ below (codes "rip") reg.rip
        ∷ below (codes "cs") reg.cs
        ∷ below (codes "rflags") reg.rflags
        ∷ below (codes "ss") reg.ss
        ∷ below (codes "rsp") reg.rsp
        ∷ page_fault reg m.cr2
        ∷ dsp_print (codes "\n")
        ∷ dsp_print (codes "=== registers ===\n")
        ∷ registers reg)
      m

unfoldable pub kassert_fail : Option (List ℕ) → Option (List ℕ) → ℕ → Machine → Outcome
kassert_fail expr file line m = and_then (panic_header (codes "Assertion failed") m) (
    print_and_halt (
      dsp_print (codes "  ")
      ∷ dsp_print (text_or expr (codes "(null)"))
      ∷ dsp_print (codes "\n at")
      ∷ dsp_print (text_or file (codes "???"))
      ∷ dsp_print (codes " : ")
      ∷ out_dec line
      ∷ dsp_print (codes "\n\nSystem halted. Reset required.\n")
      ∷ []))
