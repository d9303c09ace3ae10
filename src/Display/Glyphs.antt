-- ===== src/Display/Glyphs.antt =====
-- The glyphs of kernel/driver/image.c, pixel by pixel.
use trs.Common.{
  ℕ, zero, suc, ◌+◌, ◌*◌, ◌^◌, ◌≤◌, ◌≡◌, refl, ap, arith, Bool, ◌&&◌, ltb, leb, if◌then◌else◌, u32,
}
use trs.Display.{Font, Display, glyph_line, draw_row, draw_rows, draw_glyph}
use trs.Display.Screen.{IsFitting}
use trs.Display.Pixels.{
  Paints, Paints-none, Paints-trans, Paints-Follows, same_color, glyph_color, IsInked,
  draw_row-Paints,
}

draw_rows-Paints :
    (left glyph_data i : ℕ) (d : Display)
    → IsFitting d.font d.fb
    → IsInked d
    → d.x + d.font.width ≤ 2 ^ 32
    → d.y + i + left ≤ 2 ^ 32
    → Paints
        (λ x y.
          leb d.x x && ltb x (d.x + d.font.width) && (leb (d.y + i) y && ltb y (d.y + i + left)))
        (glyph_color d glyph_data)
        d
        (draw_rows left glyph_data i d)
unfolding draw_rows
draw_rows-Paints zero glyph_data i d fits ink h v = Paints-none _ _ d (λ x y a b. ground arith)
draw_rows-Paints (suc left) glyph_data i d fits ink h v =
    let line = glyph_line d.font glyph_data i in
    let next = draw_row d.font.width line i 0 d in
    let p =
      draw_row-Paints d.font.width line glyph_data i 0 d refl fits ink (omega arith)
        (omega arith) in
    let f = Paints-Follows p fits ink in
    let wide = ap (λ t. t.width) p.device.0 in
    let q =
      draw_rows-Paints left glyph_data (i + 1) next f.fits f.ink (omega (arith, p.cursor.0, wide))
        (omega (arith, p.cursor.1)) in
    Paints-trans p q (λ x y. same_color glyph_data x y p)
      (λ x y a b. ground (arith, p.cursor, wide))

-- Where the bytes of a character's glyph begin; a character that the font lacks is shown as `?`.
abbrev pub glyph_start : Font → ℕ → ℕ
glyph_start font c = font.headersize + u32 ((if leb font.length c then b'?' else c) * font.charsize)

-- The cell of a character that is put at the cursor.
abbrev pub is_in_cell : Display → ℕ → ℕ → Bool
is_in_cell d x y =
    leb d.x x && ltb x (d.x + d.font.width) && (leb d.y y && ltb y (d.y + d.font.height))

pub draw_glyph-Paints :
    (c : ℕ) (d : Display)
    → IsFitting d.font d.fb
    → IsInked d
    → d.x + d.font.width ≤ 2 ^ 32
    → d.y + d.font.height ≤ 2 ^ 32
    → Paints (is_in_cell d) (glyph_color d (glyph_start d.font c)) d (draw_glyph c d)
unfolding draw_glyph
draw_glyph-Paints c d fits ink h v =
    let zero_down : d.y + 0 ≡ d.y = omega arith in
    rw zero_down at
      (draw_rows-Paints d.font.height (glyph_start d.font c) 0 d fits ink h (omega arith))
