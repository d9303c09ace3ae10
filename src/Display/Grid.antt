-- ===== src/Display/Grid.antt =====
-- When the framebuffer of kernel/driver/image.c shows a console.
use trs.Common.{
  ℕ, ◌+◌, ◌*◌, ◌%◌, ◌^◌, ◌≤◌, ◌<◌, ◌≡◌, sym, ◌∙◌, ap, arith, ◌⊎◌, inl, inr, ◌&&◌, ◌==◌, ltb, leb,
  Bool-cases,
}
use mathlib.Core.Path.{subst}
use native.Mathlib.Nat.{mul-le-mul_right}
use trs.BootInfo.{Framebuffer}
use trs.Display.{Font, Display}
use trs.Display.Screen.{IsFitting}
use trs.Display.Pixels.{pixel, word_at, index_of, IsInked}
use trs.Display.Scroll.{lines_order}
use trs.Display.Console.{Console, glyph_tile, style_of}

-- The screen is a whole number of glyphs high and has room for `cols` of them in a line; its lines
-- are whole words.
pub record IsGrid (cols rows : ℕ) (font : Font) (fb : Framebuffer) : Type 0 where
  pub fits : IsFitting font fb
  pub whole : fb.pitch % 4 ≡ 0
  pub wide : (cols * font.width ≤ fb.width) × (fb.width < cols * font.width + font.width)
  pub tall : rows * font.height ≡ fb.height
  pub some_tiles : (0 < cols) × (0 < rows) × (0 < font.height)
  pub size : (fb.width < 2 ^ 30) × (fb.height < 2 ^ 30)

-- The framebuffer shows the console's tiles, and the cursor stands where the console's does.
pub record Pictures (cols rows : ℕ) (d : Display) (k : Console) : Type 0 where
  pub grid : IsGrid cols rows d.font d.fb
  pub ink : IsInked d
  pub cursor : (d.x ≡ k.col * d.font.width) × (d.y ≡ k.row * d.font.height)
  pub tiles :
      (c r dx dy : ℕ)
      → dx < d.font.width
      → dy < d.font.height
      → c * d.font.width + dx < d.fb.width
      → r < rows
      → pixel d (c * d.font.width + dx) (r * d.font.height + dy) ≡ k.tiles c r dx dy

-- Between two characters the cursor may be past the end of the line, or below the last line at the
-- left edge.
pub record Shows (cols rows : ℕ) (d : Display) (k : Console) : Type 0 where
  pub picture : Pictures cols rows d k
  pub col : k.col < cols + 4
  pub row : (k.row < rows) ⊎ ((k.row ≡ rows) × (k.col ≡ 0))

-- A place lies in a cell by columns, and by lines, if it is in the cell's tile.
pub in_tile :
    (c col size dx : ℕ)
    → dx < size
    → (leb (col * size) (c * size + dx) && ltb (c * size + dx) (col * size + size)) ≡ (c == col)
in_tile c col size dx h =
    let next : (col + 1) * size ≡ col * size + size = omega arith in
    ground (arith, lines_order c col size dx h, lines_order c (col + 1) size dx h, next)

-- A cursor past the last tile of a line is past the line's end.
pub past_edge :
    (cols col size width : ℕ)
    → cols * size ≤ width
    → width < cols * size + size
    → ltb width (col * size + size) ≡ leb cols col
past_edge cols col size width lo hi = elim (Bool-cases (leb cols col)) [
  | inl e ↦
      let more : cols * size ≤ col * size = mul-le-mul_right size (ground arith) in
      let past : width < col * size + size = omega (arith, more, hi) in ground arith
  | inr e ↦
      let less : (col + 1) * size ≤ cols * size = mul-le-mul_right size (ground arith) in
      let within : col * size + size ≤ width = omega (arith, less, lo) in ground arith
]

-- The bounds that keep the arithmetic on the cursor from wrapping.
pub cursor_bounds :
    {cols rows : ℕ} {d : Display} {k : Console}
    → Pictures cols rows d k
    → k.col < cols + 4
    → k.row ≤ rows
    → (d.x + d.font.width < 2 ^ 34)
      × (d.y + d.font.height < 2 ^ 31)
      × (d.font.width < 2 ^ 30)
      × (d.font.height < 2 ^ 30)
cursor_bounds {cols} {rows} {d} {k} p col row =
    let x : k.col * d.font.width ≤ (cols + 4) * d.font.width =
      mul-le-mul_right d.font.width (omega arith) in
    let y : k.row * d.font.height ≤ rows * d.font.height = mul-le-mul_right d.font.height row in
    let w : 1 * d.font.width ≤ cols * d.font.width =
      mul-le-mul_right d.font.width (omega (arith, p.grid.some_tiles)) in
    let h : 1 * d.font.height ≤ rows * d.font.height =
      mul-le-mul_right d.font.height (omega (arith, p.grid.some_tiles)) in
    omega (arith, x, y, w, h, p.cursor, p.grid.wide, p.grid.tall, p.grid.size)

pub same_style :
    (cols rows : ℕ) (d e : Display)
    → e.font ≡ d.font
    → e.fg ≡ d.fg
    → e.bg ≡ d.bg
    → style_of cols rows e ≡ style_of cols rows d
same_style cols rows d e f a b = λ i. record {
  cols = cols;
  rows = rows;
  glyph = λ c. glyph_tile (f i) (a i) (b i) c;
  blank = λ dx dy. b i;
}

-- A picture on the same device in the same colors, told by the display before.
pub redrawn :
    (cols rows : ℕ) (d e : Display) (k : Console)
    → IsGrid cols rows d.font d.fb
    → IsInked d
    → (e.font ≡ d.font) × (e.fb ≡ d.fb)
    → (e.fg ≡ d.fg) × (e.bg ≡ d.bg)
    → (e.x ≡ k.col * d.font.width) × (e.y ≡ k.row * d.font.height)
    → ((c r dx dy : ℕ)
        → dx < d.font.width
        → dy < d.font.height
        → c * d.font.width + dx < d.fb.width
        → r < rows
        → pixel e (c * d.font.width + dx) (r * d.font.height + dy) ≡ k.tiles c r dx dy)
    → Pictures cols rows e k
redrawn cols rows d e k grid ink (f, b) (fg, bg) cursor tiles =
    let kept : e ≡ record d { mem = e.mem; x = e.x; y = e.y } =
      λ i. record { font = f i; fb = b i; mem = e.mem; x = e.x; y = e.y; fg = fg i; bg = bg i } in
    subst (λ t. Pictures cols rows t k) (sym kept)
      (record {
        grid = grid;
        ink = ink;
        cursor = cursor;
        tiles = λ c r dx dy w h inside low.
            ap
              (λ q.
                word_at e.mem q.base (index_of q (c * d.font.width + dx) (r * d.font.height + dy)))
              (sym b)
            ∙ tiles c r dx dy w h inside low;
      })
