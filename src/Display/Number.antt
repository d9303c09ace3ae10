-- ===== src/Display/Number.antt =====
-- The numbers that image.c prints, as texts, and what they read back as.
use trs.Common.{
  ◌==◌, ℕ, zero, suc, ◌+◌, ◌-◌, ◌*◌, ◌/◌, ◌%◌, ◌^◌, ◌≤◌, ◌<◌, ◌≡◌, refl, sym, ◌∙◌, ap, arith, true,
  Bool, ◌&&◌, ◌||◌, leb, ltb, Bool-cases, inl, inr, if◌then◌else◌, u32, bit_and, List, [], ◌∷◌,
  length, get_or, ℤ, pos, negsuc,
}
use trs.Common.Bits.{bit_and_low, holds_below, holds_below_lem}
use native.Mathlib.Nat.{pow-suc, div-div-eq-div-mul}
use trs.Display.{Display, dsp_print, dsp_putchar}

-- The loop that stores the digits of `k`, the lowest first: `buffer` is what it has stored, the
-- latest first, so in the order in which it is printed.
unfoldable pub digit_loop : ℕ → ℕ → List ℕ → List ℕ
digit_loop zero k buffer = buffer
digit_loop (suc fuel) k buffer =
    let stored = (b'0' + k % 10) ∷ buffer in
    let rest = digit_loop fuel (k / 10) stored in if ltb 0 (k / 10) then rest else stored

-- A 32-bit number has at most ten digits.
abbrev pub decimal : ℕ → List ℕ
decimal k = digit_loop 10 (u32 k) []

unfoldable pub dsp_print_dec : ℤ → Display → Display
dsp_print_dec (pos n) d = dsp_print (decimal n) d
dsp_print_dec (negsuc n) d = dsp_print (decimal (n + 1)) (dsp_putchar b'-' d)

abbrev pub hex_digits : List ℕ
hex_digits =
    b'0' ∷ b'1' ∷ b'2' ∷ b'3' ∷ b'4' ∷ b'5' ∷ b'6' ∷ b'7' ∷ b'8' ∷ b'9' ∷ b'a' ∷ b'b' ∷ b'c' ∷ b'd'
    ∷ b'e' ∷ b'f' ∷ []

-- The loop over `buf[2 + i]`, for `left` turns.
unfoldable pub hex_loop : ℕ → ℕ → ℕ → List ℕ
hex_loop zero i v = []
hex_loop (suc left) i v =
    get_or hex_digits (bit_and (v / 2 ^ (60 - i * 4)) 0x0f) 0 ∷ hex_loop left (i + 1) v

abbrev pub hexadecimal : ℕ → List ℕ
hexadecimal v = b'0' ∷ b'x' ∷ hex_loop 16 0 v

unfoldable pub dsp_print_hex : ℕ → Display → Display
dsp_print_hex v d = dsp_print (hexadecimal v) d

-- The specification: what digits mean, behind a number `a` that was read already.
abbrev pub read_decimal : ℕ → List ℕ → ℕ
read_decimal a [] = a
read_decimal a (c ∷ cs) = read_decimal (a * 10 + (c - b'0')) cs

-- The bytes that are digits.
abbrev pub AreDigits : List ℕ → Type 0
AreDigits [] = Unit {0}
AreDigits (c ∷ cs) = ((b'0' ≤ c) × (c ≤ b'9')) × AreDigits cs

abbrev pub is_hex_digit : ℕ → Bool
is_hex_digit c = (leb b'0' c && leb c b'9') || (leb b'a' c && leb c b'f')

abbrev pub AreHexDigits : List ℕ → Type 0
AreHexDigits [] = Unit {0}
AreHexDigits (c ∷ cs) = (is_hex_digit c ≡ true) × AreHexDigits cs

abbrev pub hex_value : ℕ → ℕ
hex_value c = if ltb c b'a' then c - b'0' else c - b'a' + 10

abbrev pub read_hex : ℕ → List ℕ → ℕ
read_hex a [] = a
read_hex a (c ∷ cs) = read_hex (a * 16 + hex_value c) cs

pub read_decimal-digit_loop :
    (fuel k : ℕ) (buffer : List ℕ)
    → k < 10 ^ fuel
    → (read_decimal 0 (digit_loop fuel k buffer) ≡ read_decimal k buffer)
      × (length (digit_loop fuel k buffer) ≤ fuel + length buffer)
unfolding digit_loop
read_decimal-digit_loop zero k buffer small =
    (ap (λ n. read_decimal n buffer) {x = 0} {y = k} (omega arith), omega arith)
read_decimal-digit_loop (suc fuel) k buffer small =
    let ten = pow-suc 10 fuel in
    let stored = (b'0' + k % 10) ∷ buffer in
    let (same, short) = read_decimal-digit_loop fuel (k / 10) stored (omega (arith, ten)) in
    let digit : k / 10 * 10 + (b'0' + k % 10 - b'0') ≡ k = omega arith in
    elim (Bool-cases (ltb 0 (k / 10))) [
      | inl e ↦ rw e (same ∙ ap (λ n. read_decimal n buffer) digit, omega (arith, short))
      | inr e ↦
          let last : 0 * 10 + (b'0' + k % 10 - b'0') ≡ k = ground arith in
          rw e (ap (λ n. read_decimal n buffer) last, omega arith)
    ]

AreDigits-digit_loop :
    (fuel k : ℕ) (buffer : List ℕ) → AreDigits buffer → AreDigits (digit_loop fuel k buffer)
unfolding digit_loop
AreDigits-digit_loop zero k buffer h = h
AreDigits-digit_loop (suc fuel) k buffer h =
    let stored : AreDigits ((b'0' + k % 10) ∷ buffer) = ((omega arith, omega arith), h) in
    elim (Bool-cases (ltb 0 (k / 10))) [
      | inl e ↦ rw e (AreDigits-digit_loop fuel (k / 10) ((b'0' + k % 10) ∷ buffer) stored)
      | inr e ↦ rw e stored
    ]

digit_loop_grows :
    (fuel k : ℕ) (buffer : List ℕ) → length buffer ≤ length (digit_loop fuel k buffer)
unfolding digit_loop
digit_loop_grows zero k buffer = omega arith
digit_loop_grows (suc fuel) k buffer =
    let grows = digit_loop_grows fuel (k / 10) ((b'0' + k % 10) ∷ buffer) in
    elim (Bool-cases (ltb 0 (k / 10))) [
      | inl e ↦ rw e (omega (arith, grows))
      | inr e ↦ rw e (omega arith)
    ]

-- The bytes that stand for a number: decimal digits, one at least and ten at most, with its value.
pub record IsDecimal (n : ℕ) (text : List ℕ) : Type 0 where
  pub digits : AreDigits text
  pub value : read_decimal 0 text ≡ n
  pub size : (0 < length text) × (length text ≤ 10)

decimal-IsDecimal : (k : ℕ) → k < 2 ^ 32 → IsDecimal k (decimal k)
unfolding digit_loop
decimal-IsDecimal k small =
    let same : u32 k ≡ k = omega arith in
    let (value, short) = read_decimal-digit_loop 10 k [] (omega arith) in
    let first : List ℕ = (b'0' + k % 10) ∷ [] in
    let grows = digit_loop_grows 9 (k / 10) first in
    let some_digit : 0 < length (digit_loop 10 k []) = elim (Bool-cases (ltb 0 (k / 10))) [
      | inl e ↦ rw (digit_loop, e) (omega (arith, grows))
      | inr e ↦ rw (digit_loop, e) (omega arith)
    ] in
    rw same (record {
      digits = AreDigits-digit_loop 10 k [] tt;
      value = value;
      size = (some_digit, omega (arith, short));
    })

-- A number from -2^31 to 2^31 - 1 is printed as one to ten decimal digits that read back as the
-- number, behind a minus sign if it is negative.
pub dsp_print_dec_lem :
    (n : ℕ) (d : Display)
    → n < 2 ^ 31
    → ((text : List ℕ) × (dsp_print_dec (pos n) d ≡ dsp_print text d) × IsDecimal n text)
      × ((text : List ℕ) × (dsp_print_dec (negsuc n) d ≡ dsp_print (b'-' ∷ text) d)
          × IsDecimal (n + 1) text)
unfolding dsp_print_dec dsp_print
dsp_print_dec_lem n d small = (
  (decimal n, refl, decimal-IsDecimal n (omega arith)),
  (decimal (n + 1), refl, decimal-IsDecimal (n + 1) (omega arith)),
)

four_digits : (e : ℕ) → 2 ^ suc (suc (suc (suc e))) ≡ 2 ^ e * 16
four_digits e =
    omega (
      arith,
      pow-suc 2 e,
      pow-suc 2 (suc e),
      pow-suc 2 (suc (suc e)),
      pow-suc 2 (suc (suc (suc e))),
    )

hex_table : holds_below 16 (λ n. hex_value (get_or hex_digits n 0) == n) ≡ true
unfolding holds_below
hex_table = refl

hex_digit : (q : ℕ) → hex_value (get_or hex_digits (bit_and q 0x0f) 0) ≡ q % 16
hex_digit q =
    let low = bit_and_low 4 q in
    let entry =
      holds_below_lem 16 (λ n. hex_value (get_or hex_digits n 0) == n) (q % 16) hex_table
        (omega arith) in
    rw low (ground arith)

hex_digit_table : holds_below 16 (λ n. is_hex_digit (get_or hex_digits n 0)) ≡ true
unfolding holds_below
hex_digit_table = refl

AreHexDigits-hex_loop : (left i v : ℕ) → AreHexDigits (hex_loop left i v)
unfolding hex_loop
AreHexDigits-hex_loop zero i v = tt
AreHexDigits-hex_loop (suc left) i v =
    let q = v / 2 ^ (60 - i * 4) in
    let low = bit_and_low 4 q in
    let entry =
      holds_below_lem 16 (λ n. is_hex_digit (get_or hex_digits n 0)) (q % 16) hex_digit_table
        (omega arith) in
    (rw low entry, AreHexDigits-hex_loop left (i + 1) v)

read_hex-hex_loop :
    (left i v : ℕ) → i + left ≡ 16 → read_hex (v / 2 ^ (4 * left)) (hex_loop left i v) ≡ v
unfolding hex_loop
read_hex-hex_loop zero i v h = omega arith
read_hex-hex_loop (suc left) i v h =
    let e = 4 * left in
    let at : 60 - i * 4 ≡ e = omega arith in
    let wide : 4 * suc left ≡ suc (suc (suc (suc e))) = omega arith in
    let above : v / 2 ^ (4 * suc left) ≡ v / 2 ^ e / 16 =
      ap (λ n. v / 2 ^ n) wide
      ∙ ap (λ n. v / n) (four_digits e)
      ∙ sym (div-div-eq-div-mul v (2 ^ e) 16) in
    let digit = hex_digit (v / 2 ^ e) in
    let next : v / 2 ^ (4 * suc left) * 16
          + hex_value (get_or hex_digits (bit_and (v / 2 ^ e) 0x0f) 0)
        ≡ v / 2 ^ e =
      omega (arith, above, digit) in
    rw at (
      ap (λ n. read_hex n (hex_loop left (i + 1) v)) next
      ∙ read_hex-hex_loop left (i + 1) v (omega arith))

-- A 64-bit number is printed as 0x and 16 bytes that are all hexadecimal digits, with a to f as
-- lower-case letters, and that read back as the number.
pub dsp_print_hex_lem :
    (v : ℕ) (d : Display)
    → v < 2 ^ 64
    → (text : List ℕ) × (dsp_print_hex v d ≡ dsp_print (b'0' ∷ b'x' ∷ text) d)
      × AreHexDigits text
      × (read_hex 0 text ≡ v)
      × (length text ≡ 16)
unfolding dsp_print_hex hex_loop
dsp_print_hex_lem v d small =
    let none_above : v / 2 ^ (4 * 16) ≡ 0 = omega arith in
    (
      hex_loop 16 0 v,
      refl,
      AreHexDigits-hex_loop 16 0 v,
      ap (λ n. read_hex n (hex_loop 16 0 v)) (sym none_above) ∙ read_hex-hex_loop 16 0 v refl,
      refl,
    )
