-- ===== src/Display/Screen.antt =====
-- Where the display writes: inside the framebuffer, whatever is printed and wherever the cursor is.
use trs.Common.{
  ℕ, zero, suc, ◌+◌, ◌-◌, ◌*◌, ◌/◌, ◌^◌, ◌≤◌, ◌<◌, ◌≡◌, refl, sym, ◌∙◌, ap, arith, ◌⊎◌, inl, inr,
  ◌&&◌, ◌==◌, ltb, leb, Bool-cases, if◌then◌else◌, u32, u64, has_bits, List, [], ◌∷◌,
}
use mathlib.Core.Path.{subst}
use native.Mathlib.Nat.{mul-le-mul_left, mul-le-mul_right}
use trs.Common.Memory.{Mem, store_le-outside}
use trs.Libc.Memory.{memmove}
use trs.Libc.Memory.Moved.{moved}
use trs.Libc.Memory.Copy.{memmove_lem}
use trs.BootInfo.{Framebuffer}
use trs.Display.{
  Font, Display, above, set_word, blank_loop, scroll, wrap_line, check_scroll_or_new_line,
  clear_loop, dsp_clear, draw_pixel, draw_row, draw_rows, draw_glyph, dsp_putchar, dsp_print,
  glyph_line,
}

-- A framebuffer whose lines hold its pixels and whose size is a 32-bit number, and a font no taller.
pub record IsFitting (font : Font) (fb : Framebuffer) : Type 0 where
  pub lines : fb.width ≤ fb.pitch / 4
  pub size : fb.height * fb.pitch < 2 ^ 32
  pub tall : font.height ≤ fb.height

-- Bytes outside the framebuffer.
abbrev pub IsOutside : Framebuffer → ℕ → Type 0
IsOutside fb a = (a < fb.base) ⊎ (fb.base + fb.height * fb.pitch ≤ a)

-- What drawing leaves as it is.
pub record Draws (d e : Display) : Type 0 where
  pub font : e.font ≡ d.font
  pub fb : e.fb ≡ d.fb
  pub outside : (a : ℕ) → IsOutside d.fb a → e.mem a ≡ d.mem a

pub Draws-refl : (d : Display) → Draws d d
Draws-refl d = record { font = refl; fb = refl; outside = λ a p. refl }

pub Draws-trans : {d e f : Display} → Draws d e → Draws e f → Draws d f
Draws-trans {d} {e} {f} p q = record {
  font = q.font ∙ p.font;
  fb = q.fb ∙ p.fb;
  outside = λ a o. q.outside a (subst (λ b. IsOutside b a) (sym p.fb) o) ∙ p.outside a o;
}

pub IsFitting-Draws : {d e : Display} → Draws d e → IsFitting d.font d.fb → IsFitting e.font e.fb
IsFitting-Draws {d} {e} p fits =
    subst (λ b. IsFitting e.font b) (sym p.fb) (subst (λ t. IsFitting t d.fb) (sym p.font) fits)

abbrev pub words : Framebuffer → ℕ
words fb = fb.height * fb.pitch / 4

-- A word of the framebuffer.
set_word-Draws : (d : Display) (i color : ℕ) → i < words d.fb → Draws d (set_word d i color)
set_word-Draws d i color inside = record {
  font = refl;
  fb = refl;
  outside = λ a o. store_le-outside 4 d.mem (d.fb.base + 4 * i) color a (omega arith);
}

blank_loop-Draws :
    (left i total : ℕ) (d : Display)
    → total < 2 ^ 32
    → 0 < i
    → i + left ≤ total + 1
    → total ≤ words d.fb
    → Draws d (blank_loop left i total d)
unfolding blank_loop
blank_loop-Draws zero i total d small pos room within = Draws-refl d
blank_loop-Draws (suc left) i total d small pos room within =
    Draws-trans (set_word-Draws d (u64 (total + 2 ^ 64 - i)) d.bg (omega arith)) (
      blank_loop-Draws left (i + 1) total (set_word d (u64 (total + 2 ^ 64 - i)) d.bg) small
        (omega arith) (omega arith) within)

clear_loop-Draws :
    (left i : ℕ) (d : Display) → i + left ≤ words d.fb → Draws d (clear_loop left i d)
unfolding clear_loop
clear_loop-Draws zero i d room = Draws-refl d
clear_loop-Draws (suc left) i d room =
    Draws-trans (set_word-Draws d i d.bg (omega arith))
      (clear_loop-Draws left (i + 1) (set_word d i d.bg) (omega arith))

-- The words that `scroll` moves and blanks.
pub scroll_sizes :
    (font : Font) (fb : Framebuffer)
    → IsFitting font fb
    → (u32 (fb.height * fb.pitch) / 4 ≡ words fb) × (u32 (font.height * fb.pitch) / 4 ≤ words fb)
scroll_sizes font fb fits =
    let grows = mul-le-mul_right fb.pitch fits.tall in
    (omega (arith, fits.size), omega (arith, fits.size, grows))

moved-outside : (m : Mem) (d s n a : ℕ) → (a < d) ⊎ (d + n ≤ a) → moved m d s n a ≡ m a
moved-outside m d s n a h = ground arith

scroll-Draws : (d : Display) → IsFitting d.font d.fb → Draws d (scroll d)
unfolding scroll
scroll-Draws d fits =
    let total = u32 (d.fb.height * d.fb.pitch) / 4 in
    let line = u32 (d.font.height * d.fb.pitch) / 4 in
    let rest = u64 (u64 (total + 2 ^ 64 - line) * 4) in
    let (e, short) = scroll_sizes d.font d.fb fits in
    let source = d.fb.base + 4 * line in
    let up : Display = record d { mem = memmove d.mem d.fb.base source rest } in
    let moves : Draws d up = record {
      font = refl;
      fb = refl;
      outside = λ a o.
          ap (λ m. m a) (memmove_lem d.mem d.fb.base source rest)
          ∙ moved-outside d.mem d.fb.base source rest a (omega (arith, o, e, short));
    } in
    let both = Draws-trans moves (
      blank_loop-Draws line 1 total up (omega arith) (omega arith) (omega (arith, e, short))
        (omega (arith, e))) in
    record { font = both.font; fb = both.fb; outside = both.outside }

wrap_line-Draws : (d : Display) → Draws d (wrap_line d)
unfolding wrap_line
wrap_line-Draws d = elim (Bool-cases (above (u64 (d.x + d.font.width)) d.fb.width)) [
  | inl e ↦ rw (wrap_line, e) (record { font = refl; fb = refl; outside = λ a p. refl })
  | inr e ↦ rw (wrap_line, e) (Draws-refl d)
]

check-Draws : (d : Display) → IsFitting d.font d.fb → Draws d (check_scroll_or_new_line d)
unfolding check_scroll_or_new_line
check-Draws d fits =
    let w = wrap_line d in
    let p = wrap_line-Draws d in
    elim (Bool-cases (above (u64 (w.y + w.font.height)) w.fb.height)) [
      | inl e ↦
          rw (check_scroll_or_new_line, e) (Draws-trans p (scroll-Draws w (IsFitting-Draws p fits)))
      | inr e ↦ rw (check_scroll_or_new_line, e) p
    ]

-- The word of a pixel on the screen.
pub pixel_word :
    (x y width height line : ℕ)
    → x < width
    → width ≤ line
    → y < height
    → y * line + x < height * line
pixel_word x y width height line h l v =
    let rows : (y + 1) * line ≤ height * line = mul-le-mul_right line (omega arith) in
    omega (arith, rows, l)

pub lines_fit : (fb : Framebuffer) → fb.height * (fb.pitch / 4) ≤ words fb
lines_fit fb =
    let whole : fb.height * (fb.pitch / 4 * 4) ≤ fb.height * fb.pitch =
      mul-le-mul_left fb.height (omega arith) in
    omega (arith, whole)

draw_pixel-Draws :
    (line i j : ℕ) (d : Display) → IsFitting d.font d.fb → Draws d (draw_pixel line i j d)
unfolding draw_pixel
draw_pixel-Draws line i j d fits =
    let x = u32 (d.x + j) in
    let y = u32 (d.y + i) in
    elim (Bool-cases (ltb x d.fb.width && ltb y d.fb.height)) [
      | inl e ↦
          let at =
            pixel_word x y d.fb.width d.fb.height (d.fb.pitch / 4) (ground arith) fits.lines
              (ground arith) in
          let fit = lines_fit d.fb in
          let color = if has_bits line (0x8000 / 2 ^ j) then d.fg else d.bg in
          rw (draw_pixel, e)
            (set_word-Draws d (u32 (y * (d.fb.pitch / 4) + x)) color
              (omega (arith, at, fit, fits.size)))
      | inr e ↦ rw (draw_pixel, e) (Draws-refl d)
    ]

draw_row-Draws :
    (left line i j : ℕ) (d : Display) → IsFitting d.font d.fb → Draws d (draw_row left line i j d)
unfolding draw_row
draw_row-Draws zero line i j d fits = Draws-refl d
draw_row-Draws (suc left) line i j d fits =
    let p = draw_pixel-Draws line i j d fits in
    Draws-trans p
      (draw_row-Draws left line i (j + 1) (draw_pixel line i j d) (IsFitting-Draws p fits))

draw_rows-Draws :
    (left glyph_data i : ℕ) (d : Display)
    → IsFitting d.font d.fb
    → Draws d (draw_rows left glyph_data i d)
unfolding draw_rows
draw_rows-Draws zero glyph_data i d fits = Draws-refl d
draw_rows-Draws (suc left) glyph_data i d fits =
    let line = glyph_line d.font glyph_data i in
    let p = draw_row-Draws d.font.width line i 0 d fits in
    Draws-trans p (
      draw_rows-Draws left glyph_data (i + 1) (draw_row d.font.width line i 0 d)
        (IsFitting-Draws p fits))

draw_glyph-Draws : (c : ℕ) (d : Display) → IsFitting d.font d.fb → Draws d (draw_glyph c d)
unfolding draw_glyph
draw_glyph-Draws c d fits = draw_rows-Draws _ _ 0 d fits

-- A step that moves the cursor only.
moves_cursor : {d e : Display} (x y : ℕ) → Draws d e → Draws d (record e { x = x; y = y })
moves_cursor x y p = record { font = p.font; fb = p.fb; outside = p.outside }

pub dsp_putchar-Draws : (c : ℕ) (d : Display) → IsFitting d.font d.fb → Draws d (dsp_putchar c d)
unfolding dsp_putchar
dsp_putchar-Draws c d0 fits0 =
    let d = check_scroll_or_new_line d0 in
    let p = check-Draws d0 fits0 in
    let fits = IsFitting-Draws p fits0 in
    elim (Bool-cases (c == 10)) [
      | inl a ↦ rw (dsp_putchar, a) (moves_cursor _ _ p)
      | inr a ↦ elim (Bool-cases (c == 9)) [
        | inl b ↦ rw (dsp_putchar, a, b) (moves_cursor _ _ p)
        | inr b ↦ elim (Bool-cases (c == 8)) [
          | inl e ↦ elim (Bool-cases (ltb d.x (2 ^ 63) && leb d.font.width d.x)) [
            | inl f ↦
                let back : Display = record d { x = d.x - d.font.width } in
                rw (dsp_putchar, a, b, e, f)
                  (Draws-trans (moves_cursor (d.x - d.font.width) d.y p)
                    (draw_glyph-Draws b' ' back fits))
            | inr f ↦ rw (dsp_putchar, a, b, e, f) (Draws-trans p (draw_glyph-Draws b' ' d fits))
          ]
          | inr e ↦ elim (Bool-cases (c == 13)) [
            | inl f ↦ rw (dsp_putchar, a, b, e, f) (moves_cursor _ _ p)
            | inr f ↦
                rw (dsp_putchar, a, b, e, f)
                  (moves_cursor _ _ (Draws-trans p (draw_glyph-Draws c d fits)))
          ]
        ]
      ]
    ]

-- Printing any text, wherever the cursor is and whatever the font's bytes are, changes no byte
-- outside the framebuffer, if its lines hold its pixels, its size is a 32-bit number and the font
-- is not taller than it.
pub dsp_print-Draws :
    (text : List ℕ) (d : Display) → IsFitting d.font d.fb → Draws d (dsp_print text d)
unfolding dsp_print
dsp_print-Draws [] d fits = Draws-refl d
dsp_print-Draws (c ∷ text) d fits =
    let p = dsp_putchar-Draws c d fits in
    Draws-trans p (dsp_print-Draws text (dsp_putchar c d) (IsFitting-Draws p fits))

pub dsp_clear-Draws : (d : Display) → IsFitting d.font d.fb → Draws d (dsp_clear d)
unfolding dsp_clear
dsp_clear-Draws d fits =
    let fit = lines_fit d.fb in
    let same : d.fb.pitch / 4 * d.fb.height ≡ d.fb.height * (d.fb.pitch / 4) = omega arith in
    moves_cursor 0 0 (
      clear_loop-Draws (u32 (d.fb.pitch / 4 * d.fb.height)) 0 d
        (omega (arith, fit, same, fits.size)))
