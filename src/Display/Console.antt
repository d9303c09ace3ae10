-- ===== src/Display/Console.antt =====
-- The display as its callers think of it: a grid of tiles with a cursor. The tile of a glyph, or of
-- a blank cell, gives the color of each of its pixels by column and line.
use trs.Common.{ℕ, ◌+◌, ◌-◌, ◌/◌, ◌^◌, ◌&&◌, ◌==◌, ltb, leb, if◌then◌else◌, has_bits, List, [], ◌∷◌}
use trs.Display.{Font, Display, glyph_line}
use trs.Display.Glyphs.{glyph_start}

abbrev pub Tile : Type 0
Tile = ℕ → ℕ → ℕ

-- How many tiles there are, those of the characters, and the blank one.
pub record Style : Type 0 where
  pub cols : ℕ
  pub rows : ℕ
  pub glyph : ℕ → Tile
  pub blank : Tile

pub record Console : Type 0 where
  pub col : ℕ
  pub row : ℕ
  pub tiles : ℕ → ℕ → Tile

-- A new line at the right edge, then one line up at the lower edge.
unfoldable pub wrap : Style → Console → Console
wrap st k = if leb st.cols k.col then record k { row = k.row + 1; col = 0 } else k

unfoldable pub settle : Style → Console → Console
settle st k =
    let w = wrap st k in
    if leb st.rows w.row
    then record {
      col = 0;
      row = w.row - 1;
      tiles = λ c r. if ltb (r + 1) st.rows then w.tiles c (r + 1) else st.blank;
    }
    else w

unfoldable pub place : Tile → Console → Console
place t k = record k { tiles = λ c r. if c == k.col && r == k.row then t else k.tiles c r }

-- A character at a cursor that is on the screen.
unfoldable pub put_at : Style → ℕ → Console → Console
put_at st c k =
    if c == 10
    then record k { row = k.row + 1; col = 0 }
    else if c == 9
    then record k { col = k.col + 4 }
    else if c == 8
    then place (st.glyph b' ') (record k { col = k.col - 1 })
    else if c == 13
    then record k { col = 0 }
    else record (place (st.glyph c) k) { col = k.col + 1 }

unfoldable pub put : Style → ℕ → Console → Console
put st c k = put_at st c (settle st k)

unfoldable pub put_all : Style → List ℕ → Console → Console
put_all st [] k = k
put_all st (c ∷ text) k = put_all st text (put st c k)

unfoldable pub blank_console : Style → Console
blank_console st = record { col = 0; row = 0; tiles = λ c r. st.blank }

-- The tiles of a font in two colors.
abbrev pub glyph_tile : Font → ℕ → ℕ → ℕ → Tile
glyph_tile font fg bg c dx dy =
    if has_bits (glyph_line font (glyph_start font c) dy) (0x8000 / 2 ^ dx) then fg else bg

abbrev pub style_of : ℕ → ℕ → Display → Style
style_of cols rows d = record {
  cols = cols;
  rows = rows;
  glyph = λ c. glyph_tile d.font d.fg d.bg c;
  blank = λ dx dy. d.bg;
}
