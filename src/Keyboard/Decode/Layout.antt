-- ===== src/Keyboard/Decode/Layout.antt =====
-- The keys of the US layout, as the map of kernel/driver/keyboard.c is meant to have them: a
-- description of its own, in rows of neighbouring scan codes.
use trs.Common.{
  ℕ, ◌+◌, ◌-◌, ◌≤◌, ◌<◌, ◌≡◌, refl, arith, Bool, true, false, not, ◌&&◌, ◌==◌, ltb, leb,
  if◌then◌else◌, List, [], ◌∷◌, ◌++◌, length, get_or,
}
use trs.Common.Bits.{holds_below, holds_below_lem}
use trs.Common.Texts.{codes}
use mathlib.Core.Bool.{xor}
use trs.Keyboard.{Key, scancode_map, no_key, char_of}

-- The code of a row's first key, the signs of its keys, and those that are above them.
abbrev pub Row : Type 0
Row = ℕ × List ℕ × List ℕ

abbrev pub layout : List Row
layout =
    (2, codes "1234567890-=", codes "!@#$%^&*()_+")
    ∷ (14, 8 ∷ 9 ∷ [], 8 ∷ 9 ∷ [])
    ∷ (16, codes "qwertyuiop[]" ++ 10 ∷ [], codes "QWERTYUIOP{}" ++ 10 ∷ [])
    ∷ (30, codes "asdfghjkl;'`", codes "ASDFGHJKL:" ++ 34 ∷ codes "~")
    ∷ (43, 92 ∷ codes "zxcvbnm,./", codes "|ZXCVBNM<>?")
    ∷ (57, codes " ", codes " ")
    ∷ []

-- The sign of a key, or the one above it; 0 where there is no key that types.
unfoldable pub sign_in : Bool → List Row → ℕ → ℕ
sign_in above [] code = 0
sign_in above ((first, signs, upper) ∷ rows) code =
    if leb first code && ltb code (first + length signs)
    then get_or (if above then upper else signs) (code - first) 0
    else sign_in above rows code

-- Whether a key types the sign above: a key of the digits, codes 2 to 11, with shift and without
-- caps lock; any other with one of the two and not with both.
abbrev pub is_raised : Bool → Bool → ℕ → Bool
is_raised shift caps code =
    if leb 2 code && leb code 11 then shift && not caps else if shift then not caps else caps

unfoldable pub typed : Bool → Bool → ℕ → ℕ
unfolding sign_in
typed shift caps code = sign_in (is_raised shift caps code) layout code

unfoldable pub has_sign : ℕ → Bool
unfolding sign_in
has_sign code = not (sign_in false layout code == 0)

unfoldable pub key_of : ℕ → Key
key_of code = get_or scancode_map code no_key

-- The map has the layout's keys, and the driver's choice among a key's two signs is the layout's.
abbrev key_ok : Bool → Bool → ℕ → Bool
key_ok shift caps code =
    let key = get_or scancode_map code no_key in
    ltb key.0 128
    && ltb key.1 128
    && (if has_sign code then not (key.0 == 0) else key.0 == 0)
    && (if leb 58 code then key.0 == 0 else true)
    && char_of shift caps key == typed shift caps code

key_table : (shift caps : Bool) → holds_below 128 (key_ok shift caps) ≡ true
unfolding holds_below scancode_map char_of xor typed has_sign
key_table true true = refl
key_table true false = refl
key_table false true = refl
key_table false false = refl

pub key_facts :
    (shift caps : Bool) (code : ℕ)
    → code < 128
    → ((key_of code).0 < 128)
      × ((key_of code).1 < 128)
      × (58 ≤ code → (key_of code).0 ≡ 0)
      × (has_sign code ≡ not ((key_of code).0 == 0))
      × (char_of shift caps (key_of code) ≡ typed shift caps code)
unfolding key_of
key_facts shift caps code h =
    let t = holds_below_lem 128 (key_ok shift caps) code (key_table shift caps) h in
    (ground arith, ground arith, λ p. ground arith, ground arith, ground arith)
