-- ===== src/Keyboard/Init.antt =====
-- `kb_init` of kernel/driver/keyboard.c: the stream, the handler, the controller's pending bytes and
-- the interrupt line.
use trs.Common.{
  ℕ, zero, suc, ◌+◌, ◌*◌, ◌<◌, ◌≡◌, ◌≢◌, refl, ap, ◌∙◌, arith, true, false, if◌then◌else◌, u8,
  has_bits, ◌∷◌, Option, none, some, ◌>>=◌,
}
use trs.Ports.{World, PortOp, out8, inb, outb, outputs}
use trs.Stream.{stream_init, st_read}
use trs.Cpu.Pic.{pic_unmask, without}
use trs.Cpu.Idt.{Handler, Handlers, irq_install}
use trs.Keyboard.{Keyboard, start_stream}

abbrev pub kb_com_port : ℕ
kb_com_port = 0x64

abbrev pub kb_data_port : ℕ
kb_data_port = 0x60

abbrev pub irq_kbd_line : ℕ
irq_kbd_line = 1

-- `while(inb(KB_COM_PORT) & 0x01) inb(KB_DATA_PORT);`, for so many turns at most.
unfoldable pub drain_loop : ℕ → World → Option World
drain_loop zero w = none
drain_loop (suc turns) w =
    let status = inb kb_com_port w in
    let rest = drain_loop turns (inb kb_data_port status.1).1 in
    if has_bits status.0 0x01 then rest else some status.1

-- What the driver starts: its stream, the table of handlers and the ports.
pub record Started (K : Type 0) : Type 0 where
  pub keyboard : Keyboard
  pub handlers : Handlers K
  pub ports : World

unfoldable pub kb_init : {K : Type 0} → ℕ → Handler K → Started K → Option (Started K)
kb_init turns handler s = drain_loop turns s.ports >>= λ drained. some (record {
  keyboard = start_stream s.keyboard;
  handlers = irq_install irq_kbd_line handler s.handlers;
  ports = pic_unmask 1 drained;
})

-- The controller has so many bytes: each status but the last has the bit that says so.
pub data Pending : ℕ → World → Type 0 where
  drained : {w : World} → has_bits (inb kb_com_port w).0 0x01 ≡ false → Pending zero w
  one_more :
      {w : World} {k : ℕ}
      → has_bits (inb kb_com_port w).0 0x01 ≡ true
      → Pending k (inb kb_data_port (inb kb_com_port w).1).1
      → Pending (suc k) w

-- The world behind the loop: a status and a byte read for each byte pending, and the last status;
-- nothing is written.
drain_loop_lem :
    (turns k : ℕ) (w : World)
    → Pending k w
    → k < turns
    → (v : World) × (drain_loop turns w ≡ some v)
      × (v.reads ≡ w.reads + 2 * k + 1)
      × (v.answer ≡ w.answer)
      × (outputs v.log ≡ outputs w.log)
unfolding drain_loop inb outputs
drain_loop_lem zero k w p h = absurd (omega arith)
drain_loop_lem (suc turns) zero w (drained e) h =
    ((inb kb_com_port w).1, rw (drain_loop, e) refl, omega arith, refl, refl)
drain_loop_lem (suc turns) (suc k) w (one_more e p) h =
    let (v, runs, reads, same, silent) = drain_loop_lem turns k _ p (omega arith) in
    (v, rw (drain_loop, e) runs, reads ∙ omega arith, same, silent)

-- `kb_init` ends if the controller has finitely many bytes, in a turn for each and one more. The
-- stream is then empty and readable, the handler stands at line 1 of the table and no other line
-- changed, the pending bytes are read, and one byte is written: the first controller's mask as it
-- was read, less the bit of line 1.
pub kb_init_lem :
    {K : Type 0}
    → (turns k : ℕ) (handler : Handler K) (s : Started K) → Pending k s.ports
    → k < turns
    → (t : Started K) × (kb_init turns handler s ≡ some t)
      × ((t.keyboard.stream.rb.head ≡ 0)
          × (t.keyboard.stream.rb.tail ≡ 0)
          × (t.keyboard.stream.flag ≡ st_read))
      × ((t.handlers.irq_handlers 1 ≡ some handler)
          × ((line : ℕ) → line ≢ 1 → t.handlers.irq_handlers line ≡ s.handlers.irq_handlers line))
      × (t.ports.reads ≡ s.ports.reads + 2 * k + 2)
      × (outputs t.ports.log
          ≡ out8 0x21 (u8 (without (u8 (s.ports.answer (s.ports.reads + 2 * k + 1))) 2))
            ∷ outputs s.ports.log)
unfolding kb_init start_stream stream_init irq_install pic_unmask inb outb outputs
kb_init_lem {K} turns k handler s p h =
    let (v, runs, reads, same, silent) = drain_loop_lem turns k s.ports p h in
    let mask : ℕ → PortOp = λ a. out8 0x21 (u8 (without (u8 a) 2)) in
    let read : v.answer v.reads ≡ s.ports.answer (s.ports.reads + 2 * k + 1) =
      ap (λ f. f v.reads) same ∙ ap s.ports.answer reads in
    let after : Started K = record {
      keyboard = start_stream s.keyboard;
      handlers = irq_install irq_kbd_line handler s.handlers;
      ports = pic_unmask 1 v;
    } in
    (
      after,
      rw runs refl,
      (refl, refl, refl),
      (refl, λ line other. ground arith),
      omega (arith, reads),
      ap (λ a. mask a ∷ outputs v.log) read
          ∙ ap (λ l. mask (s.ports.answer (s.ports.reads + 2 * k + 1)) ∷ l) silent,
    )
