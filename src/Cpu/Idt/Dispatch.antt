-- ===== src/Cpu/Idt/Dispatch.antt =====
-- How a hardware interrupt is served: which handler runs, and which controllers are told its end.
use trs.Common.{
  ℕ, ◌+◌, ◌-◌, ◌/◌, ◌%◌, ◌^◌, ◌<◌, ◌≡◌, refl, sym, arith, Bool, true, false, not, ◌&&◌, ◌||◌, ◌==◌,
  ltb, leb, Bool-cases, inl, inr, if◌then◌else◌, u8, u32, has_bits, List, [], ◌∷◌, ◌++◌, none, ap,
  ◌∙◌,
}
use trs.Common.Bits.{holds_below, holds_below_lem}
use mathlib.Core.Path.{subst}
use trs.Ports.{World, PortOp, in8, out8, inb, outb}
use trs.Cpu.Pic.{pic1_cmd, pic2_cmd}
use trs.Cpu.Idt.{
  Frame, Handlers, Outcome, returned, call, irq_is_spurious, acknowledge, end_of, serve_irq,
  isr_dispatcher,
}

-- The last line of each controller is the one that may be spurious, so that its controller is asked.
abbrev pub is_asked : ℕ → Bool
is_asked irq = irq == 7 || irq == 15

-- The ports of the first and of the second controller.
abbrev pub controller : ℕ → ℕ
controller irq = if ltb irq 8 then 0x20 else 0xa0

-- The controller answers the command 0x0b with the lines that are in service, a bit for each of its
-- eight; the interrupt is spurious if its own line is not one of them.
abbrev pub is_spurious : ℕ → World → Bool
is_spurious irq w = is_asked irq && (u8 (w.answer w.reads) / 2 ^ (irq % 8) % 2 == 0)

-- The ports behind that question: the command is written, and an answer is read.
abbrev pub question : ℕ → World → World
question irq w = record w {
  reads = w.reads + 1;
  log = in8 (controller irq) ∷ out8 (controller irq) 0x0b ∷ w.log;
}

abbrev pub asked : {K : Type 0} → ℕ → Frame K → Frame K
asked irq r = record r { ports = if is_asked irq then question irq r.ports else r.ports }

-- What is written at the end, the latest first: the second controller's lines are chained through
-- the first, which has to be told also when a line of the second one was spurious.
abbrev pub ends : ℕ → Bool → List PortOp
ends irq true = if irq == 15 then out8 0x20 0x20 ∷ [] else []
ends irq false = if ltb irq 8 then out8 0x20 0x20 ∷ [] else out8 0x20 0x20 ∷ out8 0xa0 0x20 ∷ []

-- What the code makes of the answer, for every byte.
abbrev bit_ok : ℕ → Bool
bit_ok b = if b / 2 ^ 7 % 2 == 0 then not (has_bits b (2 ^ 7)) else has_bits b (2 ^ 7)

bit_table : holds_below 256 bit_ok ≡ true
unfolding holds_below
bit_table = refl

last_bit : (b : ℕ) → b < 256 → not (has_bits b (2 ^ 7)) ≡ (b / 2 ^ 7 % 2 == 0)
last_bit b h = let t = holds_below_lem 256 bit_ok b bit_table h in ground arith

irq_is_spurious_lem :
    (irq : ℕ) (w : World)
    → is_asked irq ≡ true
    → ((irq_is_spurious irq w).0 ≡ is_spurious irq w) × ((irq_is_spurious irq w).1 ≡ question irq w)
unfolding irq_is_spurious inb outb
irq_is_spurious_lem irq w h =
    let Answers : ℕ → Type 0 =
      λ q. ((irq_is_spurious q w).0 ≡ is_spurious q w) × ((irq_is_spurious q w).1 ≡ question q w) in
    let bit = last_bit (u8 (w.answer w.reads)) (omega arith) in
    elim (Bool-cases (irq == 7)) [
      | inl e ↦ let seven : irq ≡ 7 = ground arith in subst Answers (sym seven) (bit, refl)
      | inr e ↦ let fifteen : irq ≡ 15 = ground arith in subst Answers (sym fifteen) (bit, refl)
    ]

-- The frame that the line's handler leaves; a spurious interrupt has no handler called.
abbrev pub handled : {K : Type 0} → Handlers K → ℕ → Frame K → Frame K
handled t irq r =
    if is_spurious irq r.ports then asked irq r else call (t.irq_handlers irq) (asked irq r)

module _ {K : Type 0} where
  -- The dispatcher returns, with the kernel's state as the handler left it, and its last port
  -- accesses are the ends written.
  pub record Serves (t : Handlers K) (irq : ℕ) (r : Frame K) (o : Outcome K) : Type 0 where
    pub final : Frame K
    pub returns : o ≡ returned final
    pub kernel : final.kernel ≡ (handled t irq r).kernel
    pub log : final.ports.log ≡ ends irq (is_spurious irq r.ports) ++ (handled t irq r).ports.log

  -- The end of an interrupt that is not spurious.
  acknowledged :
      (t : Handlers K) (irq : ℕ) (r q : Frame K)
      → serve_irq t irq r ≡ returned (acknowledge irq (call (t.irq_handlers irq) q))
      → is_spurious irq r.ports ≡ false
      → asked irq r ≡ q
      → Serves t irq r (serve_irq t irq r)
  unfolding acknowledge outb
  acknowledged t irq r q e s same =
      let run : handled t irq r ≡ call (t.irq_handlers irq) q = rw (s, same) refl in
      elim (Bool-cases (ltb irq 8)) [
        | inl low ↦
            let first : leb 8 irq ≡ false = ground arith in
            record {
              final = end_of pic1_cmd (call (t.irq_handlers irq) q);
              returns = e ∙ rw first refl;
              kernel = ap (λ x. x.kernel) (sym run);
              log = rw (s, same, low) refl;
            }
        | inr high ↦
            let second : leb 8 irq ≡ true = ground arith in
            record {
              final = end_of pic1_cmd (end_of pic2_cmd (call (t.irq_handlers irq) q));
              returns = e ∙ rw second refl;
              kernel = ap (λ x. x.kernel) (sym run);
              log = rw (s, same, high) refl;
            }
      ]

  serve_irq-Serves : (t : Handlers K) (irq : ℕ) (r : Frame K) → Serves t irq r (serve_irq t irq r)
  unfolding serve_irq acknowledge outb
  serve_irq-Serves t irq r =
      let q : Frame K = record r { ports = question irq r.ports } in
      elim (Bool-cases (is_asked irq)) [
        | inl a ↦
            let (test, behind) = irq_is_spurious_lem irq r.ports a in
            elim (Bool-cases (is_spurious irq r.ports)) [
              | inl s ↦ elim (Bool-cases (irq == 15)) [
                | inl f ↦ record {
                  final = end_of pic1_cmd q;
                  returns = rw (serve_irq, a, test, behind, s, f) refl;
                  kernel = rw s refl;
                  log = rw (s, a, f) refl;
                }
                | inr f ↦ record {
                  final = q;
                  returns = rw (serve_irq, a, test, behind, s, f) refl;
                  kernel = rw s refl;
                  log = rw (s, a, f) refl;
                }
              ]
              | inr s ↦
                  acknowledged t irq r q (rw (serve_irq, a, test, behind, s) refl) s (rw a refl)
            ]
        | inr a ↦ acknowledged t irq r r (rw (serve_irq, a) refl) (rw a refl) (rw a refl)
      ]

  -- A hardware interrupt, of line `irq`, whose vector has no handler of its own: the line's handler
  -- runs unless the interrupt is spurious, the dispatcher returns, and the ends of the interrupt
  -- are written last: to the first controller, before it to the second for the lines from 8 on, to
  -- none for a spurious interrupt but to the first for that of line 15. Spurious is an interrupt of
  -- line 7 or 15 whose bit is clear in the byte that its controller, at port 0x20 for line 7 and
  -- 0xa0 for line 15, answers to the command 0x0b; no other line is asked about.
  pub isr_dispatcher-Serves :
      (t : Handlers K) (irq : ℕ) (r : Frame K)
      → irq < 16
      → r.int_no ≡ 32 + irq
      → t.isr_handlers r.int_no ≡ none
      → Serves t irq r (isr_dispatcher t r)
  unfolding isr_dispatcher
  isr_dispatcher-Serves t irq r lt e h =
      let stays : call (t.isr_handlers r.int_no) r ≡ r = ap (λ x. call x r) h in
      let hardware : ltb r.int_no 32 ≡ false = ground arith in
      let inside : leb 48 r.int_no ≡ false = ground arith in
      let line : u32 (r.int_no - 32) ≡ irq = omega arith in
      let same : isr_dispatcher t r ≡ serve_irq t irq r =
        rw (isr_dispatcher, stays, hardware, inside, line) refl in
      subst (Serves t irq r) (sym same) (serve_irq-Serves t irq r)
