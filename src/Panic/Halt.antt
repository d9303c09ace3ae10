-- ===== src/Panic/Halt.antt =====
-- How a panic ends: halted, once, and on the screen only.
use trs.Common.{
  ℕ, Bool, true, false, Bool-cases, ◌≡◌, refl, sym, ◌∙◌, ap, inl, inr, ◌==◌, if◌then◌else◌, List,
  [], ◌∷◌, Option,
}
use mathlib.Core.Path.{subst}
use trs.Common.Texts.{codes}
use trs.Display.{Display, dsp_print, dsp_set_color, dsp_clear}
use trs.Display.Number.{dsp_print_hex}
use trs.Display.Screen.{
  IsFitting, IsFitting-Draws, Draws, Draws-refl, Draws-trans, dsp_print-Draws, dsp_clear-Draws,
}
use trs.Panic.{
  Machine, Outcome, halted, goes_on, Regs, run, field, out_dec, below, register, registers,
  page_fault, panic_red, panic_dark, panic_halt, panic_header, and_then, print_and_halt, kpanic,
  kpanic_regs, kassert_fail,
}

-- The ways into a panic, with what each is told.
pub data Entry : Type 0 where
  panic : Option (List ℕ) → Option (List ℕ) → ℕ → Entry
  exception : Regs → Option (List ℕ) → Entry
  failure : Option (List ℕ) → Option (List ℕ) → ℕ → Entry

abbrev pub enter : Entry → Machine → Outcome
enter (panic msg file line) m = kpanic msg file line m
enter (exception reg msg) m = kpanic_regs reg msg m
enter (failure expr file line) m = kassert_fail expr file line m

-- A call that draws on a fitting display, and calls that all do.
abbrev Drawing : (Display → Display) → Type 0
Drawing call = (d : Display) → IsFitting d.font d.fb → Draws d (call d)

data Drawings : List (Display → Display) → Type 1 where
  none : Drawings []
  one :
      {call : Display → Display} {calls : List (Display → Display)}
      → Drawing call
      → Drawings calls
      → Drawings (call ∷ calls)

run-Draws : {calls : List (Display → Display)} → Drawings calls → Drawing (run calls)
run-Draws none d fits = Draws-refl d
run-Draws (one {call} p ps) d fits =
    let q = p d fits in Draws-trans q (run-Draws ps (call d) (IsFitting-Draws q fits))

printing : (text : List ℕ) → Drawing (dsp_print text)
printing text d fits = dsp_print-Draws text d fits

field-Draws : (name : List ℕ) (v : ℕ) → Drawing (field name v)
unfolding field dsp_print_hex
field-Draws name v = run-Draws (one (printing _) (one (printing _) (one (printing _) none)))

out_dec-Draws : (v : ℕ) → Drawing (out_dec v)
unfolding out_dec
out_dec-Draws v = printing _

below-Draws : (name : List ℕ) (v : ℕ) → Drawing (below name v)
below-Draws name v = run-Draws (one (printing _) (one (field-Draws name v) none))

register-Draws : (name : List ℕ) (v : ℕ) → Drawing (register name v)
register-Draws name v =
    run-Draws (one (printing _) (one (field-Draws name v) (one (printing _) none)))

registers-Drawings : (reg : Regs) → Drawings (registers reg)
registers-Drawings reg =
    let r : (name : List ℕ) (v : ℕ) → Drawing (register name v) = register-Draws in
    one (r _ _) (
      one (r _ _) (
        one (r _ _) (
          one (r _ _) (
            one (r _ _) (
              one (r _ _) (
                one (r _ _) (
                  one (r _ _) (
                    one (r _ _) (
                      one (r _ _) (
                        one (r _ _) (
                          one (r _ _) (
                            one (r _ _)
                              (one (r _ _) (one (r _ _) (one (printing _) none)))))))))))))))

page_fault-Draws : (reg : Regs) (cr2 : ℕ) → Drawing (page_fault reg cr2)
page_fault-Draws reg cr2 d fits = elim (Bool-cases (reg.int_no == 14)) [
  | inl e ↦ rw e (below-Draws (codes "cr2") cr2 d fits)
  | inr e ↦ rw e (Draws-refl d)
]

set_color-Draws : (fg bg : ℕ) → Drawing (dsp_set_color fg bg)
unfolding dsp_set_color
set_color-Draws fg bg d fits = record { font = refl; fb = refl; outside = λ a o. refl }

-- The machine that an entry leaves.
record Halts (m : Machine) (o : Outcome) : Type 0 where
  last : Machine
  at : o ≡ halted last
  flag : last.in_panic ≡ true
  interrupts : last.interrupts ≡ false
  screen : Draws m.display last.display

-- An entry whose calls draw.
entry-Halts :
    (title : List ℕ) (calls : ℕ → List (Display → Display)) (m : Machine)
    → ((cr2 : ℕ) → Drawings (calls cr2))
    → IsFitting m.display.font m.display.fb
    → Halts m (and_then (panic_header title m) (λ n. print_and_halt (calls n.cr2) n))
unfolding panic_header panic_halt
entry-Halts title calls m drawing fits =
    let rest : Machine → Outcome = λ n. print_and_halt (calls n.cr2) n in
    let draw : List (Display → Display) =
      dsp_set_color panic_red panic_dark
      ∷ dsp_clear
      ∷ dsp_print (codes "\n\n << TRS PANIC >>\n")
      ∷ dsp_print title
      ∷ dsp_print (codes "\n")
      ∷ [] in
    let fresh : Machine = record m {
      in_panic = true;
      interrupts = false;
      display = run draw m.display;
    } in
    let motive : Bool → Type 0 =
      λ b. Halts m (and_then (if b then panic_halt m else goes_on fresh) rest) in
    elim (Bool-cases m.in_panic) [
      | inl e ↦ subst motive (sym e) (record {
        last = record m { interrupts = false };
        at = refl;
        flag = e;
        interrupts = refl;
        screen = Draws-refl m.display;
      })
      | inr e ↦
          let draws = one (set_color-Draws panic_red panic_dark) (
            one dsp_clear-Draws
              (one (printing _) (one (printing title) (one (printing _) none)))) in
          let header = run-Draws draws m.display fits in
          let body = run-Draws (drawing m.cr2) _ (IsFitting-Draws header fits) in
          subst motive (sym e) (record {
            last = _;
            at = refl;
            flag = refl;
            interrupts = refl;
            screen = Draws-trans header body;
          })
    ]

enter-Halts :
    (e : Entry) (m : Machine) → IsFitting m.display.font m.display.fb → Halts m (enter e m)
unfolding kpanic kpanic_regs kassert_fail
enter-Halts (panic msg file line) m fits =
    entry-Halts _ _ m
      (λ cr2. one (printing _) (
        one (printing _) (
          one (printing _) (
            one (printing _)
              (one (printing _) (one (out_dec-Draws line) (one (printing _) none)))))))
      fits
enter-Halts (exception reg msg) m fits =
    entry-Halts _ _ m
      (λ cr2. one (printing _) (
        one (printing _) (
          one (printing _) (
            one (below-Draws _ reg.int_no) (
              one (below-Draws _ reg.err_code) (
                one (printing _) (
                  one (below-Draws _ reg.rip) (
                    one (below-Draws _ reg.cs) (
                      one (below-Draws _ reg.rflags) (
                        one (below-Draws _ reg.ss) (
                          one (below-Draws _ reg.rsp) (
                            one (page_fault-Draws reg cr2) (
                              one (printing _)
                                (one (printing _) (registers-Drawings reg)))))))))))))))
      fits
enter-Halts (failure expr file line) m fits =
    entry-Halts _ _ m
      (λ cr2. one (printing _) (
        one (printing _) (
          one (printing _) (
            one (printing _)
              (one (printing _) (one (out_dec-Draws line) (one (printing _) none)))))))
      fits

stops :
    (b : Bool) (m : Machine) (fresh : Outcome) (k : Machine → Outcome)
    → b ≡ true
    → and_then (if b then halted m else fresh) k ≡ halted m
stops b m fresh k e = ap (λ t. and_then (if t then halted m else fresh) k) e

-- A machine in a panic that does not take interrupts is left as it is.
header-stops :
    (title : List ℕ) (m : Machine) (k : Machine → Outcome)
    → m.in_panic ≡ true
    → m.interrupts ≡ false
    → and_then (panic_header title m) k ≡ halted m
unfolding panic_header panic_halt
header-stops title m k e f =
    let off : record m { interrupts = false } ≡ m = ap (λ b. record m { interrupts = b }) (sym f) in
    stops m.in_panic (record m { interrupts = false }) _ k e ∙ ap halted off

enter-stops :
    (e : Entry) (m : Machine) → m.in_panic ≡ true → m.interrupts ≡ false → enter e m ≡ halted m
unfolding kpanic kpanic_regs kassert_fail
enter-stops (panic msg file line) m p q = header-stops _ m _ p q
enter-stops (exception reg msg) m p q = header-stops _ m _ p q
enter-stops (failure expr file line) m p q = header-stops _ m _ p q

-- Every entry into a panic halts the machine with interrupts off and `in_panic` set, and changes no
-- byte outside the framebuffer, on a display whose font and framebuffer fit; any further entry from
-- there halts the machine in that same state, so it prints nothing over the first panic's text.
pub enter_lem :
    (e later : Entry) (m : Machine)
    → IsFitting m.display.font m.display.fb
    → (last : Machine) × (enter e m ≡ halted last)
      × (enter later last ≡ halted last)
      × (last.in_panic ≡ true)
      × (last.interrupts ≡ false)
      × Draws m.display last.display
enter_lem e later m fits =
    let h = enter-Halts e m fits in
    (h.last, h.at, enter-stops later h.last h.flag h.interrupts, h.flag, h.interrupts, h.screen)
