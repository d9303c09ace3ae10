-- ===== src/Display/Cursor.antt =====
-- The cursor of the display: every glyph is drawn on the screen as a whole.
use trs.Common.{
  ℕ, zero, suc, ◌+◌, ◌-◌, ◌*◌, ◌/◌, ◌^◌, ◌≤◌, ◌<◌, ◌≡◌, refl, sym, ◌∙◌, ap, arith, ◌⊎◌, inl, inr,
  ◌&&◌, ◌==◌, ltb, leb, Bool-cases, u32, u64, List, [], ◌∷◌,
}
use mathlib.Core.Path.{subst}
use trs.Common.Memory.{Mem}
use trs.Libc.Memory.{memmove}
use trs.BootInfo.{Framebuffer}
use trs.Display.{
  Font, Display, above, set_word, blank_loop, scroll, wrap_line, check_scroll_or_new_line,
  draw_pixel, draw_row, draw_rows, draw_glyph, dsp_putchar, dsp_print, glyph_line,
}

-- Only memory differs.
pub record Stores (d e : Display) : Type 0 where
  pub mem : Mem
  pub same : e ≡ record d { mem = mem }

pub Stores-refl : (d : Display) → Stores d d
Stores-refl d = record { mem = d.mem; same = refl }

pub Stores-trans : {d e f : Display} → Stores d e → Stores e f → Stores d f
Stores-trans {e} p q =
    let on : Display → Display = λ t. record t { mem = q.mem } in
    record { mem = q.mem; same = q.same ∙ ap on p.same }

pub set_word-Stores : (d : Display) (i color : ℕ) → Stores d (set_word d i color)
set_word-Stores d i color = record { mem = _; same = refl }

pub blank_loop-Stores : (left i total : ℕ) (d : Display) → Stores d (blank_loop left i total d)
unfolding blank_loop
blank_loop-Stores zero i total d = Stores-refl d
blank_loop-Stores (suc left) i total d =
    let next = set_word d (u64 (total + 2 ^ 64 - i)) d.bg in
    Stores-trans (set_word-Stores d (u64 (total + 2 ^ 64 - i)) d.bg)
      (blank_loop-Stores left (i + 1) total next)

draw_pixel-Stores : (line i j : ℕ) (d : Display) → Stores d (draw_pixel line i j d)
unfolding draw_pixel
draw_pixel-Stores line i j d =
    elim (Bool-cases (ltb (u32 (d.x + j)) d.fb.width && ltb (u32 (d.y + i)) d.fb.height)) [
      | inl e ↦ rw (draw_pixel, e) (set_word-Stores d _ _)
      | inr e ↦ rw (draw_pixel, e) (Stores-refl d)
    ]

draw_row-Stores : (left line i j : ℕ) (d : Display) → Stores d (draw_row left line i j d)
unfolding draw_row
draw_row-Stores zero line i j d = Stores-refl d
draw_row-Stores (suc left) line i j d =
    Stores-trans (draw_pixel-Stores line i j d)
      (draw_row-Stores left line i (j + 1) (draw_pixel line i j d))

draw_rows-Stores : (left glyph_data i : ℕ) (d : Display) → Stores d (draw_rows left glyph_data i d)
unfolding draw_rows
draw_rows-Stores zero glyph_data i d = Stores-refl d
draw_rows-Stores (suc left) glyph_data i d =
    let line = glyph_line d.font glyph_data i in
    Stores-trans (draw_row-Stores d.font.width line i 0 d)
      (draw_rows-Stores left glyph_data (i + 1) (draw_row d.font.width line i 0 d))

draw_glyph-Stores : (c : ℕ) (d : Display) → Stores d (draw_glyph c d)
unfolding draw_glyph
draw_glyph-Stores c d = draw_rows-Stores _ _ 0 d

-- A screen of at least one glyph in width and two in height; the sizes are 32-bit numbers.
pub record IsRoomy (font : Font) (fb : Framebuffer) : Type 0 where
  pub wide : font.width ≤ fb.width
  pub high : font.height + font.height ≤ fb.height
  pub sizes : (fb.width < 2 ^ 32) × (fb.height < 2 ^ 32)

-- The glyph at the cursor lies on the screen.
pub record IsOnScreen (d : Display) : Type 0 where
  pub right : d.x + d.font.width ≤ d.fb.width
  pub bottom : d.y + d.font.height ≤ d.fb.height

-- Between two characters the cursor may have left the screen, to the right, or downwards by a line
-- at whose begin it stands.
pub record IsReady (d : Display) : Type 0 where
  pub roomy : IsRoomy d.font d.fb
  pub column : d.x ≤ d.fb.width + 4 * d.font.width
  pub row : (d.y + d.font.height ≤ d.fb.height) ⊎ ((d.x ≡ 0) × (d.y ≤ d.fb.height))

-- The display with another cursor, after drawing.
abbrev at : ℕ → ℕ → Display → Display
at x y d = record d { x = x; y = y }

IsOnScreen-IsReady : {d : Display} → IsRoomy d.font d.fb → IsOnScreen d → IsReady d
IsOnScreen-IsReady roomy on = record {
  roomy = roomy;
  column = omega (arith, on.right);
  row = inl on.bottom;
}

-- What the check before a character leaves.
abbrev Ready : Display → Type 0
Ready d = IsRoomy d.font d.fb × IsOnScreen d

scroll-Ready :
    (d : Display)
    → IsRoomy d.font d.fb
    → d.y ≤ d.fb.height
    → d.fb.height < d.y + d.font.height
    → Ready (scroll d)
unfolding scroll
scroll-Ready d roomy below past =
    let total = u32 (d.fb.height * d.fb.pitch) / 4 in
    let line = u32 (d.font.height * d.fb.pitch) / 4 in
    let rest = u64 (u64 (total + 2 ^ 64 - line) * 4) in
    let up : Display = record d { mem = memmove d.mem d.fb.base (d.fb.base + 4 * line) rest } in
    let e = (blank_loop-Stores line 1 total up).same in
    let y = u64 (d.y + 2 ^ 64 - d.font.height) in
    subst (λ t. Ready (at 0 y t)) (sym e)
      (
        roomy,
        record {
          right = omega (arith, roomy.wide);
          bottom = omega (arith, roomy.high, roomy.sizes.1);
        },
      )

-- Behind the test of the column.
record IsWrapped (d : Display) : Type 0 where
  roomy : IsRoomy d.font d.fb
  right : d.x + d.font.width ≤ d.fb.width
  row : d.y ≤ d.fb.height

wrap_line-IsWrapped : (d : Display) → IsReady d → IsWrapped (wrap_line d)
unfolding wrap_line
wrap_line-IsWrapped d ready =
    let wide = ready.roomy.wide in
    let (w, h) = ready.roomy.sizes in
    let column = ready.column in
    elim (Bool-cases (above (u64 (d.x + d.font.width)) d.fb.width)) [
      | inl e ↦
          let past : d.fb.width < d.x + d.font.width = ground arith in
          rw (wrap_line, e)
            (record {
              roomy = ready.roomy;
              right = omega arith;
              row = omega (arith, ready.row, ready.roomy.high);
            })
      | inr e ↦
          rw (wrap_line, e)
            (record { roomy = ready.roomy; right = ground arith; row = omega (arith, ready.row) })
    ]

check-Ready : (d : Display) → IsReady d → Ready (check_scroll_or_new_line d)
unfolding check_scroll_or_new_line
check-Ready d ready =
    let w = wrap_line d in
    let h = wrap_line-IsWrapped d ready in
    let high = h.roomy.high in
    let (wide, tall) = h.roomy.sizes in
    let row = h.row in
    elim (Bool-cases (above (u64 (w.y + w.font.height)) w.fb.height)) [
      | inl e ↦ rw (check_scroll_or_new_line, e) (scroll-Ready w h.roomy row (ground arith))
      | inr e ↦
          rw (check_scroll_or_new_line, e)
            (h.roomy, record { right = h.right; bottom = ground arith })
    ]

-- A drawn glyph, and the column set behind it.
drawn-IsReady : (c : ℕ) (d : Display) → IsReady d → IsReady (draw_glyph c d)
drawn-IsReady c d h =
    subst IsReady (sym (draw_glyph-Stores c d).same)
      (record { roomy = h.roomy; column = h.column; row = h.row })

passed-IsReady :
    (c x : ℕ) (d : Display)
    → IsReady (record d { x = x })
    → IsReady (record (draw_glyph c d) { x = x })
passed-IsReady c x d h =
    subst (λ t. IsReady (record t { x = x })) (sym (draw_glyph-Stores c d).same)
      (record { roomy = h.roomy; column = h.column; row = h.row })

dsp_putchar-IsReady : (c : ℕ) (d : Display) → IsReady d → IsReady (dsp_putchar c d)
unfolding dsp_putchar
dsp_putchar-IsReady c d0 ready =
    let d = check_scroll_or_new_line d0 in
    let (roomy, on) = check-Ready d0 ready in
    let (wide, tall) = roomy.sizes in
    let right = on.right in
    let bottom = on.bottom in
    elim (Bool-cases (c == 10)) [
      | inl a ↦
          rw (dsp_putchar, a)
            (record { roomy = roomy; column = omega arith; row = inr (refl, omega arith) })
      | inr a ↦ elim (Bool-cases (c == 9)) [
        | inl b ↦
            rw (dsp_putchar, a, b)
              (record { roomy = roomy; column = omega (arith, roomy.wide); row = inl bottom })
        | inr b ↦ elim (Bool-cases (c == 8)) [
          | inl e ↦ elim (Bool-cases (ltb d.x (2 ^ 63) && leb d.font.width d.x)) [
            | inl f ↦
                let back : Display = record d { x = d.x - d.font.width } in
                rw (dsp_putchar, a, b, e, f)
                  (drawn-IsReady b' ' back
                    (record { roomy = roomy; column = omega arith; row = inl bottom }))
            | inr f ↦
                rw (dsp_putchar, a, b, e, f) (drawn-IsReady b' ' d (IsOnScreen-IsReady roomy on))
          ]
          | inr e ↦ elim (Bool-cases (c == 13)) [
            | inl f ↦
                rw (dsp_putchar, a, b, e, f)
                  (record { roomy = roomy; column = omega arith; row = inl bottom })
            | inr f ↦
                let x = u64 (d.x + d.font.width) in
                rw (dsp_putchar, a, b, e, f)
                  (passed-IsReady c x d
                    (record { roomy = roomy; column = omega arith; row = inl bottom }))
          ]
        ]
      ]
    ]

dsp_print-IsReady : (text : List ℕ) (d : Display) → IsReady d → IsReady (dsp_print text d)
unfolding dsp_print
dsp_print-IsReady [] d h = h
dsp_print-IsReady (c ∷ text) d h =
    dsp_print-IsReady text (dsp_putchar c d) (dsp_putchar-IsReady c d h)

-- Behind any text, printed from a ready cursor on a screen of one glyph in width and two in height
-- at least, the cursor is ready again, and the check that every character begins with leaves it
-- where the whole glyph lies on the screen.
pub dsp_print-IsOnScreen :
    (text : List ℕ) (d : Display)
    → IsReady d
    → IsReady (dsp_print text d) × IsOnScreen (check_scroll_or_new_line (dsp_print text d))
dsp_print-IsOnScreen text d h =
    let ready = dsp_print-IsReady text d h in (ready, (check-Ready (dsp_print text d) ready).1)
