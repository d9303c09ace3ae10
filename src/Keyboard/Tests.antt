-- ===== src/Keyboard/Tests.antt =====
-- Typing on the keyboard of kernel/driver/keyboard.c, and the theorems at a fresh keyboard.
use trs.Common.{
  ◌+◌, ◌*◌, ◌≢◌, ◌==◌, u8, some, if◌then◌else◌, ℕ, ◌≡◌, refl, arith, List, [], ◌∷◌, false,
  replicate, length-replicate,
}
use trs.Stream.{Stream, st_read}
use trs.Ports.{World, inb, out8, outputs}
use trs.Cpu.Pic.{without}
use trs.Cpu.Idt.{Handler, no_handlers}
use trs.Keyboard.Init.{Started, Pending, drained, one_more, kb_init, kb_init_lem}
use trs.Stream.Ring.{IsValid}
use trs.Keyboard.{Keyboard}
use trs.Keyboard.Decode.{types, types_all, modify, handle_all, Typed, handle_all-Typed}
use trs.Keyboard.Decode.Layout.{typed, has_sign}

abbrev quiet_stream : Stream
quiet_stream = record {
  rb = record { buf = replicate 4096 0; head = 9; tail = 9 };
  flag = 1;
  overflow = 0;
}

abbrev fresh : Keyboard
fresh = record { stream = quiet_stream; shift_down = false; caps_down = false }

fresh-IsValid : IsValid quiet_stream.rb
fresh-IsValid = record {
  storage = length-replicate {A = ℕ} 4096 0;
  head_in = omega arith;
  tail_in = omega arith;
}

-- Shift, h, shift released, i, return.
abbrev greeting : List ℕ
greeting = 0x2a ∷ 0x23 ∷ 0xaa ∷ 0x17 ∷ 0x1c ∷ []

greeting_typed : types_all greeting (record { shift = false; caps = false }) ≡ b'H' ∷ b'i' ∷ 10 ∷ []
unfolding types_all types modify typed has_sign
greeting_typed = refl

handle_all-Typed_example :
    Typed quiet_stream
      (types_all greeting (record { shift = false; caps = false }))
      (handle_all greeting fresh).stream
handle_all-Typed_example = handle_all-Typed greeting fresh (omega arith) fresh-IsValid (omega arith)

-- A controller with one byte, and a mask of all lines but the cascade.
abbrev one_byte : World
one_byte = record {
  answer = λ n. if n == 0 then 1 else if n == 1 then 0x1c else if n == 2 then 0 else 0xfb;
  reads = 0;
  log = [];
}

abbrev handler : Handler ℕ
handler f = f

abbrev booted : Started ℕ
booted = record { keyboard = fresh; handlers = no_handlers; ports = one_byte }

pending : Pending 1 one_byte
unfolding inb
pending = one_more refl (drained refl)

kb_init_lem_example :
    (t : Started ℕ) × (kb_init 2 handler booted ≡ some t)
    × ((t.keyboard.stream.rb.head ≡ 0)
        × (t.keyboard.stream.rb.tail ≡ 0)
        × (t.keyboard.stream.flag ≡ st_read))
    × ((t.handlers.irq_handlers 1 ≡ some handler)
        × ((line : ℕ)
            → line ≢ 1
            → t.handlers.irq_handlers line ≡ booted.handlers.irq_handlers line))
    × (t.ports.reads ≡ 0 + 2 * 1 + 2)
    × (outputs t.ports.log
        ≡ out8 0x21 (u8 (without (u8 (one_byte.answer (0 + 2 * 1 + 1))) 2)) ∷ outputs [])
kb_init_lem_example = kb_init_lem 2 1 handler booted pending (omega arith)
