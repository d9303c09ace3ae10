-- ===== src/Keyboard/Decode.antt =====
-- What the keyboard handler of kernel/driver/keyboard.c puts into its stream.
pub mod Layout
use trs.Keyboard.Decode.Layout.{key_of, typed, has_sign, key_facts}
use trs.Common.{
  ℕ, ◌+◌, ◌%◌, ◌≤◌, ◌<◌, ◌≡◌, refl, sym, ◌∙◌, ap, inl, inr, arith, Bool, true, false, not, ◌&&◌,
  ◌||◌, ◌==◌, ltb, leb, Bool-cases, if◌then◌else◌, u8, bit_and, has_bits, nonzero, List, [], ◌∷◌,
  ◌++◌, length, length-append, get_or,
}
use trs.Common.Bits.{holds_below, holds_below_lem}
use mathlib.Core.List.{append_assoc, append-nil}
use trs.Stream.{Stream}
use trs.Stream.Ring.{
  IsValid, contents, put_cases, put-IsValid, queue_put-eq-some, queue_put-eq-none,
}
use trs.Keyboard.{
  Keyboard, Key, scancode_map, no_key, char_of, put_char, put_backspace, kb_irq_handler,
}

-- The specification: the modifiers, and the bytes that a scan code types.
pub record Modifiers : Type 0 where
  pub shift : Bool
  pub caps : Bool

abbrev pub is_release : ℕ → Bool
is_release sc = leb 128 sc

-- Codes from 0x80 on are releases, of the key 0x80 below; 0xe0 announces a second code and is
-- skipped. The modifiers type nothing.
unfoldable pub types : ℕ → Modifiers → List ℕ
types sc m =
    if is_release sc || sc == 0x2a || sc == 0x36 || sc == 0x3a || not (has_sign sc)
    then []
    else typed m.shift m.caps sc ∷ []

unfoldable pub modify : ℕ → Modifiers → Modifiers
modify sc m =
    if sc == 0x2a || sc == 0x36
    then record m { shift = true }
    else if sc == 0xaa || sc == 0xb6
    then record m { shift = false }
    else if sc == 0x3a
    then record m { caps = not m.caps }
    else m

abbrev pub modifiers : Keyboard → Modifiers
modifiers k = record { shift = k.shift_down; caps = k.caps_down }

-- What the handler's tests read off a scan code, for every byte.
abbrev code_ok : ℕ → Bool
code_ok sc =
    (bit_and sc 0x7f == sc % 128)
    && (if leb 128 sc then has_bits sc 0x80 else not (has_bits sc 0x80))

code_table : holds_below 256 code_ok ≡ true
unfolding holds_below
code_table = refl

code_facts : (sc : ℕ) → sc < 256 → (bit_and sc 0x7f ≡ sc % 128) × (has_bits sc 0x80 ≡ leb 128 sc)
code_facts sc h =
    let t = holds_below_lem 256 code_ok sc code_table h in (ground arith, ground arith)

char_of_small :
    (shift caps : Bool) (key : Key) → key.0 < 128 → key.1 < 128 → char_of shift caps key < 128
unfolding char_of
char_of_small true true key h k = ground arith
char_of_small true false key h k = ground arith
char_of_small false true key h k = ground arith
char_of_small false false key h k = ground arith

-- What a handler that types `bytes` leaves.
pub record Typed (s : Stream) (bytes : List ℕ) (t : Stream) : Type 0 where
  pub waiting : contents t.rb ≡ contents s.rb ++ bytes
  pub valid : IsValid t.rb
  pub overflow : t.overflow ≡ s.overflow

Typed-nothing : (s : Stream) → IsValid s.rb → Typed s [] s
Typed-nothing s v = record {
  waiting = sym (append-nil (contents s.rb));
  valid = v;
  overflow = refl;
}

put_char-Typed :
    (s : Stream) (c : ℕ)
    → IsValid s.rb
    → c < 128
    → length (contents s.rb) < 4095
    → Typed s (c ∷ []) (put_char s c)
unfolding put_char
put_char-Typed s c v small room =
    let byte : u8 c ≡ c = omega arith in
    elim (put_cases (u8 c) v) [
      | inl (e, f) ↦ absurd (omega (arith, queue_put-eq-none (contents s.rb) (u8 c) f))
      | inr (rb, e, f) ↦
          rw (e, put_char)
            (record {
              waiting =
                  (queue_put-eq-some (contents s.rb) (contents rb) (u8 c) f).1
                  ∙ ap (λ x. contents s.rb ++ x ∷ []) byte;
              valid = put-IsValid (u8 c) v e;
              overflow = refl;
            })
    ]

put_backspace-Typed :
    (s : Stream) → IsValid s.rb → length (contents s.rb) < 4095 → Typed s (8 ∷ []) (put_backspace s)
unfolding put_backspace
put_backspace-Typed s v room = elim (put_cases 8 v) [
  | inl (e, f) ↦ absurd (omega (arith, queue_put-eq-none (contents s.rb) 8 f))
  | inr (rb, e, f) ↦
      rw (e, put_backspace)
        (record {
          waiting = (queue_put-eq-some (contents s.rb) (contents rb) 8 f).1;
          valid = put-IsValid 8 v e;
          overflow = refl;
        })
]

-- The stream and the modifiers that a scan code leaves.
pub record Handles (sc : ℕ) (k t : Keyboard) : Type 0 where
  pub typed : Typed k.stream (types sc (modifiers k)) t.stream
  pub shift : t.shift_down ≡ (modify sc (modifiers k)).shift
  pub caps : t.caps_down ≡ (modify sc (modifiers k)).caps

backspace_types : (m : Modifiers) → types 0x0e m ≡ 8 ∷ []
unfolding types typed has_sign
backspace_types m = ap (λ c. c ∷ []) (same m.shift m.caps)
  where
    same : (a b : Bool) → typed a b 14 ≡ 8
    same true true = refl
    same true false = refl
    same false true = refl
    same false false = refl

typing_types :
    (code : ℕ) (m : Modifiers)
    → (is_release code || code == 0x2a || code == 0x36 || code == 0x3a || not (has_sign code))
      ≡ false
    → char_of m.shift m.caps (key_of code) ≡ typed m.shift m.caps code
    → types code m ≡ char_of m.shift m.caps (key_of code) ∷ []
unfolding types
typing_types code m h e = rw (h, e) refl

-- A code that types nothing and changes no modifier.
quiet :
    (sc : ℕ) (k : Keyboard)
    → IsValid k.stream.rb
    → types sc (modifiers k) ≡ []
    → modify sc (modifiers k) ≡ modifiers k
    → Handles sc k k
quiet sc k v e f = record {
  typed = rw e (Typed-nothing k.stream v);
  shift = sym (ap (λ m. m.shift) f);
  caps = sym (ap (λ m. m.caps) f);
}

-- A byte of the keyboard, while the ring has room: its character, if it types one, is put behind
-- the waiting bytes, the modifiers follow the code, and no overflow is counted.
pub handler-Handles :
    (sc : ℕ) (k : Keyboard)
    → sc < 256
    → IsValid k.stream.rb
    → length (contents k.stream.rb) < 4095
    → Handles sc k (kb_irq_handler sc k)
unfolding kb_irq_handler types modify key_of
handler-Handles sc k byte v room =
    let code = bit_and sc 0x7f in
    let release = has_bits sc 0x80 in
    let key = key_of code in
    let (ec, er) = code_facts sc byte in
    let (small, big, past, sign, same_sign) =
      key_facts k.shift_down k.caps_down code (omega arith) in
    elim (Bool-cases (sc == 0xe0)) [
      | inl a ↦ rw a (quiet sc k v (ground arith) (ground arith))
      | inr a ↦ elim (Bool-cases (code == 0x2a || code == 0x36)) [
        | inl b ↦
            rw (a, b)
              (record {
                typed =
                    let none_typed : types sc (modifiers k) ≡ [] = ground arith in
                    rw none_typed (Typed-nothing k.stream v);
                shift = ground arith;
                caps = ground arith;
              })
        | inr b ↦ elim (Bool-cases (code == 0x3a && not release)) [
          | inl c ↦
              rw (a, b, c)
                (record {
                  typed =
                      let none_typed : types sc (modifiers k) ≡ [] = ground arith in
                      rw none_typed (Typed-nothing k.stream v);
                  shift = ground arith;
                  caps = ground arith;
                })
          | inr c ↦ elim (Bool-cases (code == 0x0e && not release)) [
            | inl d ↦
                let is_erase : sc ≡ 0x0e = ground arith in
                let erases : types sc (modifiers k) ≡ 8 ∷ [] =
                  ap (λ x. types x (modifiers k)) is_erase ∙ backspace_types (modifiers k) in
                rw (a, b, c, d)
                  (record {
                    typed = rw erases (put_backspace-Typed k.stream v room);
                    shift = ground arith;
                    caps = ground arith;
                  })
            | inr d ↦ elim (Bool-cases (not release && ltb code 58 && nonzero key.0)) [
              | inl e ↦
                  let same : sc ≡ code = ground arith in
                  let c' = char_of k.shift_down k.caps_down key in
                  let one : types sc (modifiers k) ≡ c' ∷ [] =
                    ap (λ x. types x (modifiers k)) same
                    ∙ typing_types code (modifiers k) (ground arith) same_sign in
                  rw (a, b, c, d, e)
                    (record {
                      typed = rw one (
                          put_char-Typed k.stream c' v
                            (char_of_small k.shift_down k.caps_down key small big) room);
                      shift = ground arith;
                      caps = ground arith;
                    })
              | inr e ↦ rw (a, b, c, d, e) (quiet sc k v (ground arith) (ground arith))
            ]
          ]
        ]
      ]
    ]

-- The keyboard over a sequence of codes, and what they type one after another.
unfoldable pub handle_all : List ℕ → Keyboard → Keyboard
handle_all [] k = k
handle_all (sc ∷ scs) k = handle_all scs (kb_irq_handler sc k)

unfoldable pub types_all : List ℕ → Modifiers → List ℕ
types_all [] m = []
types_all (sc ∷ scs) m = types sc m ++ types_all scs (modify sc m)

abbrev pub AllBytes : List ℕ → Type 0
AllBytes [] = Unit {0}
AllBytes (sc ∷ scs) = (sc < 256) × AllBytes scs

length-types : (sc : ℕ) (m : Modifiers) → length (types sc m) ≤ 1
unfolding types
length-types sc m = ground arith

-- Any sequence of codes that are bytes, while a valid ring has room for them: exactly the
-- characters that the codes type, each under the shift and caps lock of that moment, wait behind
-- the bytes that waited, in the order of the codes, and no overflow is counted. A pressed key types
-- the sign that the US layout has on it, or the one above: a digit's key with shift and without
-- caps lock, any other key with one of the two and not with both.
pub handle_all-Typed :
    (scs : List ℕ) (k : Keyboard)
    → AllBytes scs
    → IsValid k.stream.rb
    → length (contents k.stream.rb) + length scs ≤ 4095
    → Typed k.stream (types_all scs (modifiers k)) (handle_all scs k).stream
unfolding handle_all types_all
handle_all-Typed [] k bytes v room = Typed-nothing k.stream v
handle_all-Typed (sc ∷ scs) k (byte, bytes) v room =
    let m = modifiers k in
    let t = kb_irq_handler sc k in
    let h = handler-Handles sc k byte v (omega arith) in
    let one = length-types sc m in
    let grown =
      ap (length {0}) h.typed.waiting ∙ length-append (contents k.stream.rb) (types sc m) in
    let rest = handle_all-Typed scs t bytes h.typed.valid (omega (arith, grown, one)) in
    let same : modifiers t ≡ modify sc m = λ i. record { shift = h.shift i; caps = h.caps i } in
    record {
      waiting =
          rest.waiting
          ∙ ap (λ x. contents t.stream.rb ++ types_all scs x) same
          ∙ ap (λ x. x ++ types_all scs (modify sc m)) h.typed.waiting
          ∙ append_assoc (contents k.stream.rb) (types sc m) (types_all scs (modify sc m));
      valid = rest.valid;
      overflow = rest.overflow ∙ h.typed.overflow;
    }
