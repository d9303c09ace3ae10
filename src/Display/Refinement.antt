-- ===== src/Display/Refinement.antt =====
-- The text of kernel/driver/image.c on the framebuffer is that of the console.
use trs.Common.{ℕ, ◌+◌, ◌*◌, refl, ◌∙◌, arith, inl, List, [], ◌∷◌}
use mathlib.Core.Path.{subst}
use trs.Display.{Display, dsp_putchar, dsp_print, dsp_clear}
use trs.Display.Pixels.{IsInked}
use trs.Display.Scroll.{lines_order, dsp_clear-Clears}
use trs.Display.Console.{Console, settle, put_at, put, put_all, blank_console, style_of}
use trs.Display.Grid.{IsGrid, Shows, same_style, redrawn}
use trs.Display.Settle.{check-Settled}
use trs.Display.Put.{PutShows, putchar-PutShows}

putchar-Shows :
    {cols rows : ℕ} (c : ℕ) {d : Display} {k : Console}
    → Shows cols rows d k
    → PutShows cols rows d (dsp_putchar c d) (put (style_of cols rows d) c k)
unfolding put
putchar-Shows {cols} {rows} c {d} {k} s =
    let h = check-Settled s in
    let (shows, style) = putchar-PutShows c d h.picture h.col h.row in
    (
      subst
          (λ st. Shows cols rows (dsp_putchar c d) (put_at st c (settle (style_of cols rows d) k)))
          h.style shows,
      style ∙ h.style,
    )

print-PutShows :
    {cols rows : ℕ} (text : List ℕ) {d : Display} {k : Console}
    → Shows cols rows d k
    → PutShows cols rows d (dsp_print text d) (put_all (style_of cols rows d) text k)
unfolding dsp_print put_all
print-PutShows [] s = (s, refl)
print-PutShows {cols} {rows} (c ∷ text) {d} {k} s =
    let st = style_of cols rows d in
    let (one, style) = putchar-Shows c s in
    let (rest, last) = print-PutShows text one in
    (
      subst (λ t. Shows cols rows (dsp_print text (dsp_putchar c d)) (put_all t text (put st c k)))
          style rest,
      last ∙ style,
    )

clear-PutShows :
    {cols rows : ℕ} (d : Display)
    → IsGrid cols rows d.font d.fb
    → IsInked d
    → PutShows cols rows d (dsp_clear d) (blank_console (style_of cols rows d))
unfolding blank_console
clear-PutShows {cols} {rows} d grid ink =
    let c = dsp_clear-Clears d grid.fits ink.1 in
    (
      record {
        picture =
            redrawn cols rows d (dsp_clear d) _ grid ink c.device c.ink
              (omega (arith, c.cursor), omega (arith, c.cursor))
              λ i r dx dy w h inside low.
                c.points (i * d.font.width + dx) (r * d.font.height + dy) inside
                  (ground (arith, lines_order r rows d.font.height dy h, grid.tall));
        col = omega arith;
        row = inl (omega (arith, grid.some_tiles));
      },
      same_style cols rows d (dsp_clear d) c.device.0 c.ink.0 c.ink.1,
    )

-- On a screen of `cols` tiles in a line, as many whole ones as its width has, and of `rows` tiles
-- that fill its height, one of each at least, with 32-bit colors, where a line of the framebuffer
-- is a multiple of four bytes that holds the width, the framebuffer's size is a 32-bit number, and
-- width and height are below 2^30: the display after it was cleared and then printed any text
-- shows, pixel by pixel, what a console of tiles shows: each printed character is the tile of its
-- glyph at the cursor, a line that is full is continued on the next one, a console that is full
-- goes up by a line and gets a blank one, and newline, tab, backspace and carriage return move its
-- cursor. The cursor of the display stands at the tile where the console's does.
pub dsp_print-Shows :
    (cols rows : ℕ) (text : List ℕ) (d : Display)
    → IsGrid cols rows d.font d.fb
    → IsInked d
    → let st = style_of cols rows d in
      Shows cols rows (dsp_print text (dsp_clear d)) (put_all st text (blank_console st))
dsp_print-Shows cols rows text d grid ink =
    let (blank, style) = clear-PutShows d grid ink in
    let st = style_of cols rows d in
    subst (λ t. Shows cols rows (dsp_print text (dsp_clear d)) (put_all t text (blank_console st)))
      style (print-PutShows text blank).0
