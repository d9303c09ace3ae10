-- ===== src/Sys/Line.antt =====
-- The line editor of SYS_READ: what a user types, and what the program finds in its buffer.
use trs.Common.{
  ℕ, ◌+◌, ◌-◌, ◌≤◌, ◌<◌, ◌≡◌, ◌≢◌, refl, ◌∙◌, arith, ◌⊎◌, inl, inr, true, false, ◌||◌, ◌==◌, ltb,
  Bool-cases, if◌then◌else◌, List, [], ◌∷◌, length, Option, none, some,
}
use trs.Common.Memory.{Mem, store}
use trs.Sys.{Input, DspCall, dsp_echo, backspace, newline, read_line, sys_read}

-- The specification: the line, its latest byte first, that keys make of a line; it has at most
-- `room` bytes. `none` stands for a line that is not finished.
abbrev pub rubbed : List ℕ → List ℕ
rubbed [] = []
rubbed (c ∷ cs) = cs

unfoldable pub edit : ℕ → List ℕ → List ℕ → Option (List ℕ)
edit room [] line = if ltb (length line) room then none else some line
edit room (ch ∷ keys) line =
    let rest = edit room keys (if ch == backspace then rubbed line else ch ∷ line) in
    if ltb (length line) room then (if ch == newline then some line else rest) else some line

-- The line stands at `buf`.
abbrev pub Holds : Mem → ℕ → List ℕ → Type 0
Holds m buf [] = Unit {0}
Holds m buf (c ∷ cs) = (m (buf + length cs) ≡ c) × Holds m buf cs

Holds-store :
    (m : Mem) (buf a v : ℕ) (cs : List ℕ)
    → buf + length cs ≤ a
    → Holds m buf cs
    → Holds (store m a v) buf cs
Holds-store m buf a v [] h t = tt
Holds-store m buf a v (c ∷ cs) h (e, t) =
    (ground (arith, e), Holds-store m buf a v cs (omega arith) t)

-- What the loop returns holds the edited line, and has changed memory inside the buffer only.
abbrev pub Agrees : Mem → ℕ → ℕ → Option (List ℕ) → Option Input → Type 0
Agrees m buf len none none = Unit {0}
Agrees m buf len none (some l) = ⊥
Agrees m buf len (some line) none = ⊥
Agrees m buf len (some line) (some l) =
    (l.i ≡ length line)
    × (length line < len)
    × Holds l.mem buf line
    × ((a : ℕ) → (a < buf) ⊎ (buf + len ≤ a + 1) → l.mem a ≡ m a)

Outside : ℕ → ℕ → Mem → Mem → Type 0
Outside buf len m m' = (a : ℕ) → (a < buf) ⊎ (buf + len ≤ a + 1) → m' a ≡ m a

Agrees-frame :
    (m m' : Mem) (buf len : ℕ) (e : Option (List ℕ)) (r : Option Input)
    → Outside buf len m m'
    → Agrees m' buf len e r
    → Agrees m buf len e r
unfolding Outside
Agrees-frame m m' buf len none none h t = tt
Agrees-frame m m' buf len none (some l) h t = t
Agrees-frame m m' buf len (some line) none h t = t
Agrees-frame m m' buf len (some line) (some l) h (a, b, c, d) = (a, b, c, λ x p. d x p ∙ h x p)

Holds-rubbed : (m : Mem) (buf : ℕ) (cs : List ℕ) → Holds m buf cs → Holds m buf (rubbed cs)
Holds-rubbed m buf [] h = h
Holds-rubbed m buf (c ∷ cs) (e, h) = h

length-rubbed : (cs : List ℕ) → length (rubbed cs) ≡ length cs - 1
length-rubbed [] = refl
length-rubbed (c ∷ cs) = omega arith

-- A full line, and one that a newline ends, are returned as they stand.
stays :
    (buf len : ℕ) (l : Input) (line : List ℕ)
    → l.i ≡ length line
    → length line < len
    → Holds l.mem buf line
    → Agrees l.mem buf len (some line) (some l)
stays buf len l line e lt h = (e, lt, h, λ a p. refl)

read_line-Agrees :
    (keys : List ℕ) (buf len : ℕ) (l : Input) (line : List ℕ)
    → l.i ≡ length line
    → length line < len
    → Holds l.mem buf line
    → Agrees l.mem buf len (edit (len - 1) keys line) (read_line keys buf len l)
unfolding read_line edit Outside
read_line-Agrees [] buf len l line e lt h = elim (Bool-cases (ltb (length line) (len - 1))) [
  | inl a ↦ let a' : ltb (l.i + 1) len ≡ true = ground arith in rw (a, a') tt
  | inr a ↦
      let a' : ltb (l.i + 1) len ≡ false = ground arith in rw (a, a') (stays buf len l line e lt h)
]
read_line-Agrees (ch ∷ keys) buf len l line e lt h =
    elim (Bool-cases (ltb (length line) (len - 1))) [
      | inl a ↦
          let a' : ltb (l.i + 1) len ≡ true = ground arith in
          elim (Bool-cases (ch == newline)) [
            | inl b ↦ rw (a, a', b) (stays buf len l line e lt h)
            | inr b ↦ elim (Bool-cases (ch == backspace)) [
              | inl c ↦ elim (Bool-cases (ltb 0 l.i)) [
                | inl d ↦
                    rw (a, a', b, c, d)
                      (read_line-Agrees keys buf len
                        (record {
                          mem = l.mem;
                          i = l.i - 1;
                          display = dsp_echo backspace ∷ l.display;
                        })
                        (rubbed line) (omega (arith, length-rubbed line))
                        (omega (arith, length-rubbed line)) (Holds-rubbed l.mem buf line h))
                | inr d ↦
                    rw (a, a', b, c, d)
                      (read_line-Agrees keys buf len l (rubbed line)
                        (ground (arith, length-rubbed line)) (omega (arith, length-rubbed line))
                        (Holds-rubbed l.mem buf line h))
              ]
              | inr c ↦
                  let m' = store l.mem (buf + l.i) ch in
                  rw (a, a', b, c)
                    (Agrees-frame l.mem m' buf len (edit (len - 1) keys (ch ∷ line))
                      (read_line keys buf len
                        (record { mem = m'; i = l.i + 1; display = dsp_echo ch ∷ l.display }))
                      (λ x p. ground arith)
                      (read_line-Agrees keys buf len
                        (record { mem = m'; i = l.i + 1; display = dsp_echo ch ∷ l.display })
                        (ch ∷ line) (omega arith) (ground arith)
                        (ground arith, Holds-store l.mem buf (buf + l.i) ch line (omega arith) h)))
            ]
          ]
      | inr a ↦
          let a' : ltb (l.i + 1) len ≡ false = ground arith in
          rw (a, a') (stays buf len l line e lt h)
    ]

-- What SYS_READ leaves: the edited line and a zero byte in the buffer, its length as the count,
-- and every byte outside the buffer as it was; or it waits, where the line is not finished.
abbrev pub ReadsLine : Mem → ℕ → ℕ → Option (List ℕ) → Option Input → Type 0
ReadsLine m buf len none none = Unit {0}
ReadsLine m buf len none (some l) = ⊥
ReadsLine m buf len (some line) none = ⊥
ReadsLine m buf len (some line) (some l) =
    (l.i ≡ length line)
    × (length line < len)
    × Holds l.mem buf line
    × (l.mem (buf + length line) ≡ 0)
    × ((a : ℕ) → (a < buf) ⊎ (buf + len ≤ a) → l.mem a ≡ m a)

ends_line :
    (m : Mem) (buf len : ℕ) (e : Option (List ℕ)) (r : Option Input)
    → Agrees m buf len e r
    → ReadsLine m buf len e
        (elim r [ none ↦ none | some l ↦ some (record l { mem = store l.mem (buf + l.i) 0 }) ])
ends_line m buf len none none t = tt
ends_line m buf len none (some l) t = t
ends_line m buf len (some line) none t = t
ends_line m buf len (some line) (some l) (i, lt, h, f) = (
  i,
  lt,
  Holds-store l.mem buf (buf + l.i) 0 line (omega arith) h,
  ground arith,
  λ a p. ground (arith, f a),
)

-- SYS_READ into a buffer of `len` bytes, not null, under any keys: the program finds the line that
-- the keys edit to, where a backspace rubs out the latest byte, a newline ends the line, and a line
-- of `len - 1` bytes ends by itself. No byte outside the buffer changes.
pub sys_read-ReadsLine :
    (keys : List ℕ) (buf len : ℕ) (m : Mem) (display : List DspCall)
    → buf ≢ 0
    → 0 < len
    → ReadsLine m buf len (edit (len - 1) keys []) (sys_read keys buf len m display)
unfolding sys_read
sys_read-ReadsLine keys buf len m display nb nl =
    let here : (buf == 0 || len == 0) ≡ false = ground arith in
    let start : Input = record { mem = m; i = 0; display = display } in
    rw here (
      ends_line m buf len (edit (len - 1) keys []) (read_line keys buf len start)
        (read_line-Agrees keys buf len start [] refl nl tt))
