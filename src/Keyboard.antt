-- ===== src/Keyboard.antt =====
-- kernel/driver/keyboard.c: scan codes of the PS/2 keyboard, turned into bytes of its stream.
pub mod Decode
pub mod Init
pub mod Tests
use trs.Common.{
  ℕ, suc, ◌+◌, ◌/◌, ◌^◌, Bool, true, false, not, ◌&&◌, ◌||◌, ◌==◌, ltb, leb, if◌then◌else◌, bit_and,
  u8, u32, has_bits, nonzero, List, [], ◌∷◌, Option, none, some, get_or,
}
use mathlib.Core.Bool.{xor}
use trs.Stream.{Stream, Ringbuf, st_read, stream_init, ringbuf_put}

abbrev pub Key : Type 0
Key = ℕ × ℕ

abbrev no_key : Key
no_key = (0, 0)

-- `scancode_map` from 0x00 on: the characters without and with shift.
unfoldable pub scancode_map : List Key
scancode_map =
    no_key
    ∷ no_key
    ∷ (b'1', b'!')
    ∷ (b'2', b'@')
    ∷ (b'3', b'#')
    ∷ (b'4', b'$')
    ∷ (b'5', b'%')
    ∷ (b'6', b'^')
    ∷ (b'7', b'&')
    ∷ (b'8', b'*')
    ∷ (b'9', b'(')
    ∷ (b'0', b')')
    ∷ (b'-', b'_')
    ∷ (b'=', b'+')
    ∷ (8, 8)
    ∷ (9, 9)
    ∷ (b'q', b'Q')
    ∷ (b'w', b'W')
    ∷ (b'e', b'E')
    ∷ (b'r', b'R')
    ∷ (b't', b'T')
    ∷ (b'y', b'Y')
    ∷ (b'u', b'U')
    ∷ (b'i', b'I')
    ∷ (b'o', b'O')
    ∷ (b'p', b'P')
    ∷ (b'[', b'{')
    ∷ (b']', b'}')
    ∷ (10, 10)
    ∷ no_key
    ∷ (b'a', b'A')
    ∷ (b's', b'S')
    ∷ (b'd', b'D')
    ∷ (b'f', b'F')
    ∷ (b'g', b'G')
    ∷ (b'h', b'H')
    ∷ (b'j', b'J')
    ∷ (b'k', b'K')
    ∷ (b'l', b'L')
    ∷ (b';', b':')
    ∷ (39, 34)
    ∷ (b'`', b'~')
    ∷ no_key
    ∷ (92, b'|')
    ∷ (b'z', b'Z')
    ∷ (b'x', b'X')
    ∷ (b'c', b'C')
    ∷ (b'v', b'V')
    ∷ (b'b', b'B')
    ∷ (b'n', b'N')
    ∷ (b'm', b'M')
    ∷ (b',', b'<')
    ∷ (b'.', b'>')
    ∷ (b'/', b'?')
    ∷ no_key
    ∷ no_key
    ∷ no_key
    ∷ (b' ', b' ')
    ∷ []

-- The file's static variables.
pub record Keyboard : Type 0 where
  pub stream : Stream
  pub shift_down : Bool
  pub caps_down : Bool

-- What `kb_init` does to the stream.
unfoldable pub start_stream : Keyboard → Keyboard
start_stream k = record k { stream = stream_init k.stream st_read }

abbrev pub pick : Bool → Key → ℕ
pick shifted key = if shifted then key.1 else key.0

-- The character of a key: what shift makes of it, if that is a digit, and otherwise what shift and
-- caps lock make of it together.
unfoldable pub char_of : Bool → Bool → Key → ℕ
char_of shift caps key =
    let c = pick shift key in if leb b'0' c && leb c b'9' then c else pick (xor shift caps) key

-- `ringbuf_put` of a character: a full ring keeps its bytes and counts the loss.
unfoldable pub put_char : Stream → ℕ → Stream
put_char s c = elim (ringbuf_put s.rb (u8 c)) [
  | none ↦ record s { overflow = u32 (s.overflow + 1) }
  | some rb ↦ record s { rb = rb }
]

-- The byte of the backspace key is put with no regard to the result.
unfoldable pub put_backspace : Stream → Stream
put_backspace s = elim (ringbuf_put s.rb 8) [ none ↦ s | some rb ↦ record s { rb = rb } ]

-- The handler, given the scan code that it reads from the data port.
unfoldable pub kb_irq_handler : ℕ → Keyboard → Keyboard
kb_irq_handler sc k =
    let release = has_bits sc 0x80 in
    let code = bit_and sc 0x7f in
    let key = get_or scancode_map code no_key in
    if sc == 0xe0
    then k
    else if code == 0x2a || code == 0x36
    then record k { shift_down = not release }
    else if code == 0x3a && not release
    then record k { caps_down = not k.caps_down }
    else if code == 0x0e && not release
    then record k { stream = put_backspace k.stream }
    else if not release && ltb code 58 && nonzero key.0
    then record k { stream = put_char k.stream (char_of k.shift_down k.caps_down key) }
    else k
