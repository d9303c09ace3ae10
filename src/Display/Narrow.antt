-- ===== src/Display/Narrow.antt =====
-- Fonts that are 8 pixels wide, on kernel/driver/image.c: the mask of a pixel starts at bit 15.
use trs.Common.{
  ℕ, ◌+◌, ◌*◌, ◌/◌, ◌^◌, ◌≤◌, ◌<◌, ◌≡◌, refl, sym, ◌∙◌, ap, arith, inl, inr, not, true, ◌&&◌, ◌==◌,
  ltb, leb, Bool-cases, has_bits, List, [], ◌∷◌,
}
use trs.Common.Bits.{holds_below, holds_below_lem}
use trs.Display.{Font, Display, glyph_line, dsp_print, dsp_clear}
use trs.Display.Screen.{Draws-trans, IsFitting-Draws, dsp_print-Draws, dsp_clear-Draws}
use trs.Display.Pixels.{pixel, IsInked}
use trs.Display.Console.{
  Tile, Style, Console, wrap, settle, place, put_at, put, put_all, blank_console, glyph_tile,
  style_of,
}
use trs.Display.Glyphs.{glyph_start}
use trs.Display.Grid.{IsGrid}
use trs.Display.Refinement.{dsp_print-Shows}

-- A font whose lines are one byte.
pub record IsNarrow (font : Font) : Type 0 where
  pub lines : font.charsize / font.height ≡ 1
  pub width : font.width ≤ 8
  pub bytes : (a : ℕ) → font.bytes a < 256

-- No bit that is asked for is one of a byte.
no_bits : holds_below 256 (λ b. holds_below 8 (λ j. not (has_bits b (0x8000 / 2 ^ j)))) ≡ true
unfolding holds_below
no_bits = refl

blank_tile :
    (font : Font) (fg bg c dx dy : ℕ)
    → IsNarrow font
    → dx < font.width
    → glyph_tile font fg bg c dx dy ≡ bg
unfolding glyph_line
blank_tile font fg bg c dx dy n h =
    let at = glyph_start font c + dy in
    let one : (font.charsize / font.height == 1) ≡ true = ground (arith, n.lines) in
    let clear =
      holds_below_lem 8 (λ j. not (has_bits (font.bytes at) (0x8000 / 2 ^ j))) dx
        (holds_below_lem 256 (λ b. holds_below 8 (λ j. not (has_bits b (0x8000 / 2 ^ j))))
          (font.bytes at) no_bits (n.bytes at))
        (omega (arith, n.width)) in
    elim (Bool-cases (has_bits (font.bytes at) (0x8000 / 2 ^ dx))) [
      | inl e ↦ absurd (ground (arith, rw e at clear))
      | inr e ↦ rw (one, e) refl
    ]

-- All tiles of a console are filled with a color, as far as the font is wide.
record IsFilled (width color : ℕ) (k : Console) : Type 0 where
  tiles : (c r dx dy : ℕ) → dx < width → k.tiles c r dx dy ≡ color

-- All tiles of a style.
record IsPlain (width color : ℕ) (st : Style) : Type 0 where
  glyph : (c dx dy : ℕ) → dx < width → st.glyph c dx dy ≡ color
  blank : (dx dy : ℕ) → st.blank dx dy ≡ color

wrap-IsFilled :
    {width color : ℕ} (st : Style) {k : Console}
    → IsFilled width color k
    → IsFilled width color (wrap st k)
unfolding wrap
wrap-IsFilled st {k} f = elim (Bool-cases (leb st.cols k.col)) [
  | inl e ↦ rw (wrap, e) (record { tiles = f.tiles })
  | inr e ↦ rw (wrap, e) f
]

settle-IsFilled :
    {width color : ℕ} {st : Style} {k : Console}
    → IsPlain width color st
    → IsFilled width color k
    → IsFilled width color (settle st k)
unfolding settle
settle-IsFilled {width} {color} {st} {k} p f =
    let w = wrap-IsFilled st f in
    elim (Bool-cases (leb st.rows (wrap st k).row)) [
      | inl e ↦
          rw (settle, e)
            (record {
              tiles = λ c r dx dy h. elim (Bool-cases (ltb (r + 1) st.rows)) [
                | inl g ↦ rw g (w.tiles c (r + 1) dx dy h)
                | inr g ↦ rw g (p.blank dx dy)
              ];
            })
      | inr e ↦ rw (settle, e) w
    ]

place-IsFilled :
    {width color : ℕ} {k : Console} (t : Tile)
    → ((dx dy : ℕ) → dx < width → t dx dy ≡ color)
    → IsFilled width color k
    → IsFilled width color (place t k)
unfolding place
place-IsFilled {width} {color} {k} t h f = record {
  tiles = λ c r dx dy w. elim (Bool-cases (c == k.col && r == k.row)) [
    | inl e ↦ rw e (h dx dy w)
    | inr e ↦ rw e (f.tiles c r dx dy w)
  ];
}

put-IsFilled :
    {width color : ℕ} {st : Style} {k : Console} (c : ℕ)
    → IsPlain width color st
    → IsFilled width color k
    → IsFilled width color (put st c k)
unfolding put put_at
put-IsFilled {width} {color} {st} {k} c p f =
    let s = settle-IsFilled p f in
    elim (Bool-cases (c == 10)) [
      | inl a ↦ rw (put, put_at, a) (record { tiles = s.tiles })
      | inr a ↦ elim (Bool-cases (c == 9)) [
        | inl b ↦ rw (put, put_at, a, b) (record { tiles = s.tiles })
        | inr b ↦ elim (Bool-cases (c == 8)) [
          | inl e ↦
              rw (put, put_at, a, b, e)
                (place-IsFilled (st.glyph b' ') (p.glyph b' ') (record { tiles = s.tiles }))
          | inr e ↦
              let drawn = place-IsFilled (st.glyph c) (p.glyph c) s in
              elim (Bool-cases (c == 13)) [
                | inl g ↦ rw (put, put_at, a, b, e, g) (record { tiles = s.tiles })
                | inr g ↦ rw (put, put_at, a, b, e, g) (record { tiles = drawn.tiles })
              ]
        ]
      ]
    ]

put_all-IsFilled :
    {width color : ℕ} {st : Style} (text : List ℕ) {k : Console}
    → IsPlain width color st
    → IsFilled width color k
    → IsFilled width color (put_all st text k)
unfolding put_all
put_all-IsFilled [] p f = f
put_all-IsFilled (c ∷ text) p f = put_all-IsFilled text p (put-IsFilled c p f)

-- On a screen of `cols` tiles in a line, as many whole ones as its width has, and of `rows` tiles
-- that fill its height, one of each at least, with 32-bit colors, where a line of the framebuffer
-- is a multiple of four bytes that holds the width, the framebuffer's size is a 32-bit number, and
-- width and height are below 2^30, with a font that is at most 8 pixels wide and whose lines are
-- one byte: any text that is printed on the cleared display leaves every pixel of every cell in the
-- background color.
pub dsp_print-IsBlank :
    (cols rows : ℕ) (text : List ℕ) (d : Display) (c r dx dy : ℕ)
    → IsGrid cols rows d.font d.fb
    → IsInked d
    → IsNarrow d.font
    → dx < d.font.width
    → dy < d.font.height
    → c * d.font.width + dx < d.fb.width
    → r < rows
    → pixel (dsp_print text (dsp_clear d)) (c * d.font.width + dx) (r * d.font.height + dy) ≡ d.bg
unfolding blank_console
dsp_print-IsBlank cols rows text d c r dx dy grid ink n w h inside low =
    let shown = dsp_print-Shows cols rows text d grid ink in
    let cleared = dsp_clear-Draws d grid.fits in
    let kept =
      Draws-trans cleared
        (dsp_print-Draws text (dsp_clear d) (IsFitting-Draws cleared grid.fits)) in
    let wide = ap (λ t. t.width) kept.font in
    let all = ap (λ (m : ℕ). c * m) wide in
    let plain : IsPlain d.font.width d.bg (style_of cols rows d) = record {
      glyph = λ g x y small. blank_tile d.font d.fg d.bg g x y n small;
      blank = λ x y. refl;
    } in
    let filled = put_all-IsFilled text plain (record { tiles = λ i j x y small. refl }) in
    ap (λ t. pixel (dsp_print text (dsp_clear d)) (c * t.width + dx) (r * t.height + dy))
      (sym kept.font)
    ∙ shown.picture.tiles c r dx dy (omega (arith, wide))
        (omega (arith, ap (λ t. t.height) kept.font))
        (omega (arith, wide, all, ap (λ b. b.width) kept.fb)) low
    ∙ filled.tiles c r dx dy w
