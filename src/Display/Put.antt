-- ===== src/Display/Put.antt =====
-- A character of kernel/driver/image.c on the screen and on the console.
use trs.Common.{
  ℕ, ◌+◌, ◌-◌, ◌*◌, ◌^◌, ◌≤◌, ◌<◌, ◌≡◌, refl, ◌∙◌, ap, arith, inl, inr, ◌&&◌, ◌==◌, ltb, leb,
  Bool-cases, u32, u64,
}
use native.Mathlib.Nat.{mul-le-mul_right}
use trs.Display.{Display, check_scroll_or_new_line, draw_glyph, dsp_putchar}
use trs.Display.Pixels.{pixel, Paints, glyph_color}
use trs.Display.Glyphs.{glyph_start, is_in_cell, draw_glyph-Paints}
use trs.Display.Scroll.{lines_order}
use trs.Display.Console.{Console, place, put_at, glyph_tile, style_of}
use trs.Display.Grid.{Pictures, Shows, in_tile, cursor_bounds, same_style, redrawn}

-- Drawing a glyph puts its tile at the cursor.
pub glyph-Pictures :
    {cols rows : ℕ} {d : Display} {k : Console} (c : ℕ)
    → Pictures cols rows d k
    → d.x + d.font.width ≤ 2 ^ 32
    → d.y + d.font.height ≤ 2 ^ 32
    → Pictures cols rows (draw_glyph c d) (place (glyph_tile d.font d.fg d.bg c) k)
      × (style_of cols rows (draw_glyph c d) ≡ style_of cols rows d)
      × ((draw_glyph c d).font ≡ d.font)
unfolding place
glyph-Pictures {cols} {rows} {d} {k} c p x y =
    let g = draw_glyph-Paints c d p.grid.fits p.ink x y in
    (
      redrawn cols rows d (draw_glyph c d) _ p.grid p.ink g.device g.ink
          (g.cursor.0 ∙ p.cursor.0, g.cursor.1 ∙ p.cursor.1)
          (λ i r dx dy w h inside low. tile g i r dx dy w h inside low),
      same_style cols rows d (draw_glyph c d) g.device.0 g.ink.0 g.ink.1,
      g.device.0,
    )
  where
    size : ℕ
    size = d.font.height

    wide : ℕ
    wide = d.font.width

    tile :
        Paints (is_in_cell d) (glyph_color d (glyph_start d.font c)) d (draw_glyph c d)
        → (i r dx dy : ℕ) → dx < wide
        → dy < size
        → i * wide + dx < d.fb.width
        → r < rows
        → pixel (draw_glyph c d) (i * wide + dx) (r * size + dy)
          ≡ (place (glyph_tile d.font d.fg d.bg c) k).tiles i r dx dy
    tile g i r dx dy w h inside low =
        let here : r * size + dy < d.fb.height =
          ground (arith, lines_order r rows size dy h, p.grid.tall) in
        let cell : is_in_cell d (i * wide + dx) (r * size + dy) ≡ (i == k.col && r == k.row) =
          ground (arith, in_tile i k.col wide dx w, in_tile r k.row size dy h, p.cursor) in
        let painted = rw cell at (g.points (i * wide + dx) (r * size + dy) inside here) in
        elim (Bool-cases (i == k.col && r == k.row)) [
          | inl e ↦
              let left : i * wide ≡ k.col * wide =
                ap (λ n. n * wide) {x = i} {y = k.col} (ground arith) in
              let top : r * size ≡ k.row * size =
                ap (λ n. n * size) {x = r} {y = k.row} (ground arith) in
              let across : i * wide + dx - d.x ≡ dx = omega (arith, left, p.cursor) in
              let down : r * size + dy - d.y ≡ dy = omega (arith, top, p.cursor) in
              rw e (rw (e, across, down) at painted)
          | inr e ↦ rw e (rw e at painted ∙ p.tiles i r dx dy w h inside low)
        ]

-- The display behind a character, and its look.
abbrev pub PutShows : (cols rows : ℕ) → Display → Display → Console → Type 0
PutShows cols rows d e k = Shows cols rows e k × (style_of cols rows e ≡ style_of cols rows d)

-- The cursor alone moves.
pub moved-Pictures :
    {cols rows : ℕ} {d : Display} {k : Console} (x y col row : ℕ)
    → Pictures cols rows d k
    → x ≡ col * d.font.width
    → y ≡ row * d.font.height
    → Pictures cols rows (record d { x = x; y = y }) (record k { col = col; row = row })
moved-Pictures x y col row p e f = record {
  grid = p.grid;
  ink = p.ink;
  cursor = (e, f);
  tiles = p.tiles;
}

pub putchar-PutShows :
    {cols rows : ℕ} (c : ℕ) (d0 : Display) {k : Console}
    → let d = check_scroll_or_new_line d0 in
      Pictures cols rows d k
      → k.col < cols
      → k.row < rows
      → PutShows cols rows d (dsp_putchar c d0) (put_at (style_of cols rows d) c k)
unfolding dsp_putchar put_at
putchar-PutShows {cols} {rows} c d0 {k} p col row =
    let d = check_scroll_or_new_line d0 in
    let (x, y, wide, tall) = bounds in
    elim (Bool-cases (c == 10)) [
      | inl a ↦
          rw (dsp_putchar, put_at, a)
            (
              record {
                picture =
                    moved-Pictures 0 (u64 (d.y + d.font.height)) 0 (k.row + 1) p (omega arith)
                      (omega (arith, p.cursor, y));
                col = omega arith;
                row = ground arith;
              },
              refl,
            )
      | inr a ↦ elim (Bool-cases (c == 9)) [
        | inl b ↦
            rw (dsp_putchar, put_at, a, b)
              (
                record {
                  picture =
                      moved-Pictures (u64 (d.x + u32 (d.font.width * 4))) d.y (k.col + 4) k.row p
                        (omega (arith, p.cursor, x, wide)) p.cursor.1;
                  col = omega arith;
                  row = inl row;
                },
                refl,
              )
        | inr b ↦ elim (Bool-cases (c == 8)) [
          | inl e ↦ elim (Bool-cases (ltb d.x (2 ^ 63) && leb d.font.width d.x)) [
            | inl f ↦
                rw (dsp_putchar, put_at, a, b, e, f)
                  (erased (d.x - d.font.width) (back_column (ground arith)))
            | inr f ↦ rw (dsp_putchar, put_at, a, b, e, f) (erased d.x (stay_column (ground arith)))
          ]
          | inr e ↦ elim (Bool-cases (c == 13)) [
            | inl f ↦
                rw (dsp_putchar, put_at, a, b, e, f)
                  (
                    record {
                      picture = moved-Pictures 0 d.y 0 k.row p (omega arith) p.cursor.1;
                      col = omega arith;
                      row = inl row;
                    },
                    refl,
                  )
            | inr f ↦ rw (dsp_putchar, put_at, a, b, e, f) written
          ]
        ]
      ]
    ]
  where
    d : Display
    d = check_scroll_or_new_line d0

    bounds :
        (d.x + d.font.width < 2 ^ 34)
        × (d.y + d.font.height < 2 ^ 31)
        × (d.font.width < 2 ^ 30)
        × (d.font.height < 2 ^ 30)
    bounds = cursor_bounds p (omega arith) (omega arith)

    right : d.x + d.font.width ≤ d.fb.width
    right =
        let within : (k.col + 1) * d.font.width ≤ cols * d.font.width =
          mul-le-mul_right d.font.width (omega arith) in
        omega (arith, within, p.cursor, p.grid.wide)

    back_column : d.font.width ≤ d.x → d.x - d.font.width ≡ (k.col - 1) * d.font.width
    back_column h = elim (Bool-cases (k.col == 0)) [
      | inl e ↦
          let left : k.col * d.font.width ≡ 0 * d.font.width =
            ap (λ n. n * d.font.width) {x = k.col} {y = 0} (ground arith) in
          absurd (omega (arith, left, p.cursor, p.grid.wide))
      | inr e ↦
          let left : k.col * d.font.width ≡ (k.col - 1 + 1) * d.font.width =
            ap (λ n. n * d.font.width) {x = k.col} {y = k.col - 1 + 1} (ground arith) in
          omega (arith, left, p.cursor)
    ]

    stay_column : d.x < d.font.width → d.x ≡ (k.col - 1) * d.font.width
    stay_column h = elim (Bool-cases (k.col == 0)) [
      | inl e ↦
          let first : k.col ≡ 0 = ground arith in
          let left : k.col * d.font.width ≡ 0 * d.font.width = ap (λ n. n * d.font.width) first in
          let none : (k.col - 1) * d.font.width ≡ 0 * d.font.width =
            ap (λ n. n * d.font.width) {x = k.col - 1} {y = 0} (omega arith) in
          omega (arith, left, none, p.cursor)
      | inr e ↦
          let right : 1 * d.font.width ≤ k.col * d.font.width =
            mul-le-mul_right d.font.width (ground arith) in
          absurd (omega (arith, right, p.cursor))
    ]

    erased :
        (x : ℕ)
        → x ≡ (k.col - 1) * d.font.width
        → PutShows cols rows d
            (draw_glyph b' ' (record d { x = x }))
            (place (glyph_tile d.font d.fg d.bg b' ') (record k { col = k.col - 1 }))
    erased x e =
        let less : (k.col - 1) * d.font.width ≤ k.col * d.font.width =
          mul-le-mul_right d.font.width (omega arith) in
        let q = moved-Pictures x d.y (k.col - 1) k.row p e p.cursor.1 in
        let (g, style, font) =
          glyph-Pictures b' ' q (omega (arith, e, less, right, p.cursor, p.grid.size))
            (omega (arith, bounds)) in
        (
          record { picture = g; col = unfold place in omega arith; row = unfold place in inl row },
          style,
        )

    written :
        PutShows cols rows d
          (record (draw_glyph c d) { x = u64 (d.x + d.font.width) })
          (record (place (glyph_tile d.font d.fg d.bg c) k) { col = k.col + 1 })
    written =
        let (g, style, font) =
          glyph-Pictures c p (omega (arith, right, p.grid.size)) (omega (arith, bounds)) in
        let same : (draw_glyph c d).font.width ≡ d.font.width = ap (λ t. t.width) font in
        let next : (k.col + 1) * (draw_glyph c d).font.width ≡ (k.col + 1) * d.font.width =
          ap (λ n. (k.col + 1) * n) same in
        (
          record {
            picture =
                unfold place in
                moved-Pictures (u64 (d.x + d.font.width)) (draw_glyph c d).y (k.col + 1) k.row g
                  (omega (arith, right, p.grid.size, next, p.cursor)) g.cursor.1;
            col = omega arith;
            row = unfold place in inl row;
          },
          style,
        )
