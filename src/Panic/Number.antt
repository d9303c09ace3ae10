-- ===== src/Panic/Number.antt =====
-- The line number that panic.c prints, as digits in a buffer of 21 bytes.
use trs.Common.{
  ℕ, zero, suc, ◌+◌, ◌-◌, ◌*◌, ◌/◌, ◌%◌, ◌^◌, ◌≤◌, ◌<◌, ◌≡◌, refl, ◌∙◌, ap, arith, true, ltb, ◌==◌,
  Bool-cases, inl, inr, List, [], ◌∷◌, length,
}
use native.Mathlib.Nat.{pow-suc}
use trs.Display.{dsp_print, Display}
use trs.Display.Number.{read_decimal, AreDigits}
use trs.Panic.{out_loop, out_dec}

read_decimal-out_loop :
    (left v : ℕ) (buf : List ℕ)
    → v < 10 ^ left
    → (read_decimal 0 (out_loop left v buf) ≡ read_decimal v buf)
      × (length (out_loop left v buf) ≤ left + length buf)
unfolding out_loop
read_decimal-out_loop zero v buf small =
    (ap (λ n. read_decimal n buf) {x = 0} {y = v} (omega arith), omega arith)
read_decimal-out_loop (suc left) v buf small =
    let ten = pow-suc 10 left in
    let stored = (b'0' + v % 10) ∷ buf in
    let (same, short) = read_decimal-out_loop left (v / 10) stored (omega (arith, ten)) in
    let digit : v / 10 * 10 + (b'0' + v % 10 - b'0') ≡ v = omega arith in
    elim (Bool-cases (ltb 0 v)) [
      | inl e ↦ rw e (same ∙ ap (λ n. read_decimal n buf) digit, omega (arith, short))
      | inr e ↦
          let none_left : 0 ≡ v = ground arith in
          rw e (ap (λ n. read_decimal n buf) none_left, omega arith)
    ]

out_loop_grows : (left v : ℕ) (buf : List ℕ) → length buf ≤ length (out_loop left v buf)
unfolding out_loop
out_loop_grows zero v buf = omega arith
out_loop_grows (suc left) v buf =
    let grows = out_loop_grows left (v / 10) ((b'0' + v % 10) ∷ buf) in
    elim (Bool-cases (ltb 0 v)) [ inl e ↦ rw e (omega (arith, grows)) | inr e ↦ rw e (omega arith) ]

AreDigits-out_loop : (left v : ℕ) (buf : List ℕ) → AreDigits buf → AreDigits (out_loop left v buf)
unfolding out_loop
AreDigits-out_loop zero v buf h = h
AreDigits-out_loop (suc left) v buf h =
    let stored : AreDigits ((b'0' + v % 10) ∷ buf) = ((omega arith, omega arith), h) in
    elim (Bool-cases (ltb 0 v)) [
      | inl e ↦ rw e (AreDigits-out_loop left (v / 10) ((b'0' + v % 10) ∷ buf) stored)
      | inr e ↦ rw e h
    ]

-- `out_dec` prints a 64-bit number as at least one and at most 20 bytes, which its buffer of 21
-- bytes holds with the zero byte; all are decimal digits, and they read back as the number.
pub out_dec_lem :
    (v : ℕ) (d : Display)
    → v < 2 ^ 64
    → (text : List ℕ) × (out_dec v d ≡ dsp_print text d)
      × AreDigits text
      × (read_decimal 0 text ≡ v)
      × (0 < length text)
      × (length text ≤ 20)
unfolding out_dec out_loop
out_dec_lem v d small =
    let (same, short) = read_decimal-out_loop 20 v [] (omega arith) in
    let grows = out_loop_grows 19 (v / 10) ((b'0' + v % 10) ∷ []) in
    elim (Bool-cases (v == 0)) [
      | inl e ↦
          let zero_value : v ≡ 0 = ground arith in
          let digit : AreDigits (b'0' ∷ []) = ((omega arith, omega arith), tt) in
          rw zero_value (b'0' ∷ [], refl, digit, refl, omega arith, omega arith)
      | inr e ↦
          let more : ltb 0 v ≡ true = ground arith in
          let longer : 0 < length (out_loop 20 v []) = rw (out_loop, more) (omega (arith, grows)) in
          let digits = AreDigits-out_loop 20 v [] tt in
          rw e (out_loop 20 v [], refl, digits, same, longer, omega (arith, short))
    ]
