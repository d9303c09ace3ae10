-- ===== src/Display/Tests.antt =====
-- A screen of 4 by 4 pixels with a font of 1 by 2, and the theorems there.
use trs.Common.{
  ℕ, ◌+◌, ◌*◌, ◌≡◌, refl, arith, inl, ◌==◌, List, [], ◌∷◌, length, pos, negsuc, if◌then◌else◌,
}
use trs.BootInfo.{Framebuffer}
use trs.Display.{
  Font, Display, check_scroll_or_new_line, wrap_line, dsp_putchar, dsp_print, dsp_clear, clear_loop,
  draw_glyph, draw_rows, draw_row, draw_pixel, glyph_line,
}
use trs.Display.Screen.{IsFitting, Draws, dsp_print-Draws}
use trs.Display.Cursor.{IsReady, IsOnScreen, dsp_print-IsOnScreen}
use trs.Display.Pixels.{pixel, word_at}
use trs.Common.Memory.{store_le}
use trs.BootInfo.{load_le}
use trs.Display.Console.{put_all, blank_console, style_of}
use trs.Display.Grid.{IsGrid, Shows}
use trs.Display.Refinement.{dsp_print-Shows}
use trs.Display.Narrow.{IsNarrow, dsp_print-IsBlank}
use trs.Display.Number.{
  digit_loop, decimal, IsDecimal, AreHexDigits, read_hex, dsp_print_dec, dsp_print_hex,
  dsp_print_dec_lem, dsp_print_hex_lem,
}

-- Glyph `c` is two bytes, the second one's highest bit set.
abbrev narrow : Font
narrow = record {
  headersize = 0;
  length = 128;
  charsize = 4;
  height = 2;
  width = 1;
  bytes = λ a. if a == 4 * b'a' + 2 then 128 else 0;
}

abbrev small_screen : Framebuffer
small_screen = record {
  base = 1000;
  size = 64;
  width = 4;
  height = 4;
  pitch = 16;
  bpp = 32;
  rmask = 0xff0000;
  gmask = 0xff00;
  bmask = 0xff;
  reserved_mask = 0;
}

abbrev small_display : Display
small_display = record {
  font = narrow;
  fb = small_screen;
  mem = λ a. 7;
  x = 0;
  y = 0;
  fg = 0xffffff;
  bg = 0x181513;
}

-- "ab\n"
abbrev text : List ℕ
text = b'a' ∷ b'b' ∷ 10 ∷ []

fitting : IsFitting narrow small_screen
fitting = record { lines = omega arith; size = omega arith; tall = omega arith }

ready : IsReady small_display
ready = record {
  roomy = record { wide = omega arith; high = omega arith; sizes = (omega arith, omega arith) };
  column = omega arith;
  row = inl (omega arith);
}

decimal_text : decimal 1070 ≡ b'1' ∷ b'0' ∷ b'7' ∷ b'0' ∷ []
unfolding digit_loop
decimal_text = refl

-- A new line at the begin of the screen.
second_line : (dsp_putchar 10 small_display).y ≡ 2
unfolding dsp_putchar check_scroll_or_new_line wrap_line
second_line = refl

dsp_print-Draws_example : Draws small_display (dsp_print text small_display)
dsp_print-Draws_example = dsp_print-Draws text small_display fitting

dsp_print_dec_lem_example :
    ((t : List ℕ) × (dsp_print_dec (pos 1070) small_display ≡ dsp_print t small_display)
      × IsDecimal 1070 t)
    × ((t : List ℕ) × (dsp_print_dec (negsuc 1070) small_display
          ≡ dsp_print (b'-' ∷ t) small_display)
        × IsDecimal (1070 + 1) t)
dsp_print_dec_lem_example = dsp_print_dec_lem 1070 small_display (omega arith)

dsp_print_hex_lem_example :
    (t : List ℕ) × (dsp_print_hex 0xdead small_display ≡ dsp_print (b'0' ∷ b'x' ∷ t) small_display)
    × AreHexDigits t
    × (read_hex 0 t ≡ 0xdead)
    × (length t ≡ 16)
dsp_print_hex_lem_example = dsp_print_hex_lem 0xdead small_display (omega arith)

dsp_print-IsOnScreen_example :
    IsReady (dsp_print text small_display)
    × IsOnScreen (check_scroll_or_new_line (dsp_print text small_display))
dsp_print-IsOnScreen_example = dsp_print-IsOnScreen text small_display ready

small_screen-IsGrid : IsGrid 4 2 narrow small_screen
small_screen-IsGrid = record {
  fits = fitting;
  whole = omega arith;
  wide = omega arith;
  tall = omega arith;
  some_tiles = omega arith;
  size = omega arith;
}

-- The second line of the glyph of `a` has its only pixel set.
a_is_shown : pixel (dsp_print (b'a' ∷ []) (dsp_clear small_display)) 0 1 ≡ 0xffffff
unfolding dsp_print dsp_putchar check_scroll_or_new_line wrap_line draw_glyph draw_rows draw_row
    draw_pixel glyph_line dsp_clear clear_loop word_at store_le load_le
a_is_shown = refl

dsp_print-Shows_example :
    let st = style_of 4 2 small_display in
    Shows 4 2 (dsp_print text (dsp_clear small_display)) (put_all st text (blank_console st))
dsp_print-Shows_example = dsp_print-Shows 4 2 text small_display small_screen-IsGrid (omega arith)

-- The same font with one byte for a line.
abbrev byte_font : Font
byte_font = record narrow { charsize = 2; bytes = λ a. 255 }

abbrev byte_display : Display
byte_display = record small_display { font = byte_font }

byte_screen-IsGrid : IsGrid 4 2 byte_font small_screen
byte_screen-IsGrid = record {
  fits = record { lines = omega arith; size = omega arith; tall = omega arith };
  whole = omega arith;
  wide = omega arith;
  tall = omega arith;
  some_tiles = omega arith;
  size = omega arith;
}

byte_font-IsNarrow : IsNarrow byte_font
byte_font-IsNarrow = record { lines = refl; width = omega arith; bytes = λ a. omega arith }

dsp_print-IsBlank_example : pixel (dsp_print text (dsp_clear byte_display)) 2 3 ≡ 0x181513
dsp_print-IsBlank_example =
    dsp_print-IsBlank 4 2 text byte_display 2 1 0 1 byte_screen-IsGrid (omega arith)
      byte_font-IsNarrow (omega arith) (omega arith) (omega arith) (omega arith)
