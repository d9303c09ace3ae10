-- ===== src/Display.antt =====
-- kernel/driver/image.c: text on the framebuffer. Memory holds the framebuffer's words; the font is
-- the linked file, whose bytes are a parameter of the state. `dsp_x` and `dsp_y` are signed 64-bit
-- numbers: they are kept as their bits, and `above` is the signed comparison.
pub mod Number
pub mod Screen
pub mod Pixels
pub mod Glyphs
pub mod Cursor
pub mod Scroll
pub mod Console
pub mod Grid
pub mod Settle
pub mod Put
pub mod Refinement
pub mod Narrow
pub mod Tests
use trs.Common.{
  ℕ, zero, suc, ◌+◌, ◌-◌, ◌*◌, ◌/◌, ◌%◌, ◌^◌, Bool, true, false, not, ◌&&◌, ◌==◌, ltb, leb,
  if◌then◌else◌, u8, u16, u32, u64, bit_and, bit_or, has_bits, List, [], ◌∷◌,
}
use trs.Common.Memory.{Mem, store_le}
use trs.Libc.Memory.{memmove}
use trs.BootInfo.{Framebuffer}

-- `psf_header`, less the fields that nothing reads, and the bytes of the file.
pub record Font : Type 0 where
  pub headersize : ℕ
  pub length : ℕ
  pub charsize : ℕ
  pub height : ℕ
  pub width : ℕ
  pub bytes : Mem

-- The file's static variables, and memory.
pub record Display : Type 0 where
  pub font : Font
  pub fb : Framebuffer
  pub mem : Mem
  pub x : ℕ
  pub y : ℕ
  pub fg : ℕ
  pub bg : ℕ

-- `s > limit` for a `long` and an `unsigned int`.
abbrev pub above : ℕ → ℕ → Bool
above s limit = ltb s (2 ^ 63) && ltb limit s

-- `dst[i] = color`
abbrev pub set_word : Display → ℕ → ℕ → Display
set_word d i color = record d { mem = store_le 4 d.mem (d.fb.base + 4 * i) color }

-- The loop that blanks the last line, from `i` on, for `left` turns.
unfoldable pub blank_loop : ℕ → ℕ → ℕ → Display → Display
blank_loop zero i total d = d
blank_loop (suc left) i total d =
    blank_loop left (i + 1) total (set_word d (u64 (total + 2 ^ 64 - i)) d.bg)

unfoldable pub scroll : Display → Display
scroll d =
    let total = u32 (d.fb.height * d.fb.pitch) / 4 in
    let line = u32 (d.font.height * d.fb.pitch) / 4 in
    let rest = u64 (u64 (total + 2 ^ 64 - line) * 4) in
    let m = memmove d.mem d.fb.base (d.fb.base + 4 * line) rest in
    let blanked = blank_loop line 1 total (record d { mem = m }) in
    record blanked { y = u64 (d.y + 2 ^ 64 - d.font.height); x = 0 }

unfoldable pub wrap_line : Display → Display
wrap_line d =
    if above (u64 (d.x + d.font.width)) d.fb.width
    then record d { y = u64 (d.y + d.font.height); x = 0 }
    else d

unfoldable pub check_scroll_or_new_line : Display → Display
check_scroll_or_new_line d =
    let w = wrap_line d in if above (u64 (w.y + w.font.height)) w.fb.height then scroll w else w

-- `for(i = 0; i < total; ++i) dst[i] = bg;`
unfoldable pub clear_loop : ℕ → ℕ → Display → Display
clear_loop zero i d = d
clear_loop (suc left) i d = clear_loop left (i + 1) (set_word d i d.bg)

unfoldable pub dsp_clear : Display → Display
dsp_clear d =
    let cleared = clear_loop (u32 (d.fb.pitch / 4 * d.fb.height)) 0 d in
    record cleared { x = 0; y = 0 }

unfoldable pub dsp_init : Font → Framebuffer → Display → Display
dsp_init font framebuffer d = dsp_clear (record d { font = font; fb = framebuffer })

-- The bits of row `i` of a glyph, whose bytes begin at `glyph_data` of the file.
unfoldable pub glyph_line : Font → ℕ → ℕ → ℕ
glyph_line font glyph_data i =
    let bytes_per_line = font.charsize / font.height in
    if bytes_per_line == 1
    then font.bytes (glyph_data + i)
    else if bytes_per_line == 2
    then u16 (
        bit_or (font.bytes (glyph_data + u32 (i * 2)) * 2 ^ 8)
          (font.bytes (glyph_data + u32 (i * 2 + 1))))
    else 0

-- Column `j` of row `i`.
unfoldable pub draw_pixel : ℕ → ℕ → ℕ → Display → Display
draw_pixel line i j d =
    let color = if has_bits line (0x8000 / 2 ^ j) then d.fg else d.bg in
    let screen_x = u32 (d.x + j) in
    let screen_y = u32 (d.y + i) in
    if ltb screen_x d.fb.width && ltb screen_y d.fb.height
    then set_word d (u32 (screen_y * (d.fb.pitch / 4) + screen_x)) color
    else d

unfoldable pub draw_row : ℕ → ℕ → ℕ → ℕ → Display → Display
draw_row zero line i j d = d
draw_row (suc left) line i j d = draw_row left line i (j + 1) (draw_pixel line i j d)

unfoldable pub draw_rows : ℕ → ℕ → ℕ → Display → Display
draw_rows zero glyph_data i d = d
draw_rows (suc left) glyph_data i d =
    draw_rows left glyph_data (i + 1) (draw_row d.font.width (glyph_line d.font glyph_data i) i 0 d)

unfoldable pub draw_glyph : ℕ → Display → Display
draw_glyph c d =
    let glyph = if leb d.font.length c then b'?' else c in
    draw_rows d.font.height (d.font.headersize + u32 (glyph * d.font.charsize)) 0 d

-- `c` is the character as an `unsigned char`.
unfoldable pub dsp_putchar : ℕ → Display → Display
dsp_putchar c d0 =
    let d = check_scroll_or_new_line d0 in
    let back : Display =
      if ltb d.x (2 ^ 63) && leb d.font.width d.x then record d { x = d.x - d.font.width } else d in
    let drawn = draw_glyph c d in
    if c == 10
    then record d { y = u64 (d.y + d.font.height); x = 0 }
    else if c == 9
    then record d { x = u64 (d.x + u32 (d.font.width * 4)) }
    else if c == 8
    then draw_glyph b' ' back
    else if c == 13
    then record d { x = 0 }
    else record drawn { x = u64 (d.x + d.font.width) }

-- A text is its bytes before the zero byte, as they stand when it is printed.
unfoldable pub dsp_print : List ℕ → Display → Display
dsp_print [] d = d
dsp_print (c ∷ text) d = dsp_print text (dsp_putchar c d)

-- The part of a color that the masks let through.
abbrev pub masked_color : Framebuffer → ℕ → ℕ
masked_color fb color =
    bit_or (bit_or (bit_and color fb.rmask) (bit_and color fb.gmask)) (bit_and color fb.bmask)

unfoldable pub dsp_set_color : ℕ → ℕ → Display → Display
dsp_set_color col_fg col_bg d = record d {
  fg = masked_color d.fb col_fg;
  bg = masked_color d.fb col_bg;
}

unfoldable pub dsp_set_cursor : ℕ → ℕ → Display → Display
dsp_set_cursor x y d = record d {
  x = if x == 0 then d.x else u32 (x * d.font.width);
  y = if y == 0 then d.y else u32 (y * d.font.height);
}
