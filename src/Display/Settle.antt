-- ===== src/Display/Settle.antt =====
-- The check before a character of kernel/driver/image.c: the line that wraps, and the scroll.
use trs.Common.{
  ℕ, ◌+◌, ◌-◌, ◌*◌, ◌≤◌, ◌<◌, ◌≡◌, refl, ◌∙◌, ap, arith, inl, inr, ltb, leb, Bool-cases,
  if◌then◌else◌, u64,
}
use mathlib.Core.Path.{subst}
use trs.Display.{Display, above, scroll, wrap_line, check_scroll_or_new_line}
use trs.Display.Scroll.{lines_order, Scrolls, scroll-Scrolls}
use trs.Display.Console.{Style, Console, wrap, settle, style_of}
use trs.Display.Grid.{Pictures, Shows, past_edge, cursor_bounds, same_style, redrawn}

-- The console's cursor is on the screen, but for the line.
pub record Wrapped (cols rows : ℕ) (d : Display) (k : Console) : Type 0 where
  pub picture : Pictures cols rows d k
  pub col : k.col < cols
  pub row : k.row ≤ rows

pub wrap-Wrapped :
    {cols rows : ℕ} (st : Style) {d : Display} {k : Console}
    → st.cols ≡ cols
    → Shows cols rows d k
    → Wrapped cols rows (wrap_line d) (wrap st k)
unfolding wrap_line wrap
wrap-Wrapped {cols} {rows} st {d} {k} e s =
    let p = s.picture in
    let row = s.row in
    let (x, y, w, h) = cursor_bounds p s.col (omega (arith, s.row)) in
    let edge = past_edge cols k.col d.font.width d.fb.width p.grid.wide.0 p.grid.wide.1 in
    let same : above (u64 (d.x + d.font.width)) d.fb.width ≡ leb st.cols k.col =
      ground (arith, edge, p.cursor.0, x) in
    elim (Bool-cases (leb st.cols k.col)) [
      | inl f ↦
          let g = same ∙ f in
          rw (wrap_line, wrap, g, f)
            (record {
              picture = record {
                grid = p.grid;
                ink = p.ink;
                cursor = (omega arith, omega (arith, p.cursor.1));
                tiles = p.tiles;
              };
              col = omega (arith, p.grid.some_tiles);
              row = ground (arith, p.grid.some_tiles);
            })
      | inr f ↦
          let g = same ∙ f in
          rw (wrap_line, wrap, g, f) (record { picture = p; col = ground arith; row = omega arith })
    ]

-- The cursor is on the screen, and the console's tiles have the display's look.
pub record Settled (cols rows : ℕ) (st : Style) (d : Display) (k : Console) : Type 0 where
  pub picture : Pictures cols rows d k
  pub col : k.col < cols
  pub row : k.row < rows
  pub style : style_of cols rows d ≡ st

pub scroll-Pictures :
    {cols rows : ℕ} {d e : Display} {k : Console}
    → Pictures cols rows d k
    → k.row ≡ rows
    → Scrolls d e
    → Pictures cols rows e (record {
      col = 0;
      row = k.row - 1;
      tiles = λ c r. if ltb (r + 1) rows then k.tiles c (r + 1) else λ dx dy. d.bg;
    })
scroll-Pictures {cols} {rows} {d} {e} {k} p below s =
    let size = d.font.height in
    let last : k.row ≡ k.row - 1 + 1 = omega (arith, p.grid.some_tiles) in
    let up : k.row * size ≡ (k.row - 1 + 1) * size = ap (λ n. n * size) last in
    let bottom : k.row * size ≡ rows * size = ap (λ n. n * size) below in
    redrawn cols rows d e _ p.grid p.ink s.device s.ink
      (
        omega (arith, s.cursor),
        omega (arith, s.cursor, p.cursor, up, bottom, p.grid.tall, p.grid.size),
      )
      λ c r dx dy w h inside low.
        let x = c * d.font.width + dx in
        let shifted : r * size + dy + size ≡ (r + 1) * size + dy = omega arith in
        let order = lines_order (r + 1) rows size dy h in
        let here : r * size + dy < d.fb.height =
          ground (arith, lines_order r rows size dy h, p.grid.tall) in
        let moved =
          rw (shifted, ← p.grid.tall, order) at (s.points x (r * size + dy) inside here) in
        elim (Bool-cases (ltb (r + 1) rows)) [
          | inl g ↦ rw g (rw g at moved ∙ p.tiles c (r + 1) dx dy w h inside (ground arith))
          | inr g ↦ rw g (rw g at moved)
        ]

pub wrap_line_kept :
    (d : Display)
    → ((wrap_line d).font ≡ d.font) × ((wrap_line d).fg ≡ d.fg) × ((wrap_line d).bg ≡ d.bg)
unfolding wrap_line
wrap_line_kept d = elim (Bool-cases (above (u64 (d.x + d.font.width)) d.fb.width)) [
  | inl e ↦ rw (wrap_line, e) (refl, refl, refl)
  | inr e ↦ rw (wrap_line, e) (refl, refl, refl)
]

pub check-Settled :
    {cols rows : ℕ} {d : Display} {k : Console}
    → Shows cols rows d k
    → Settled cols rows
        (style_of cols rows d)
        (check_scroll_or_new_line d)
        (settle (style_of cols rows d) k)
unfolding check_scroll_or_new_line settle
check-Settled {cols} {rows} {d} {k} s =
    let st = style_of cols rows d in
    let w = wrap_line d in
    let v = wrap st k in
    let h = wrap-Wrapped st refl s in
    let (font, fg, bg) = wrap_line_kept d in
    let p = h.picture in
    let (x, y, wide, tall) = cursor_bounds p (omega (arith, h.col)) h.row in
    let edge =
      past_edge rows v.row w.font.height w.fb.height (omega (arith, p.grid.tall))
        (omega (arith, p.grid.tall, p.grid.some_tiles)) in
    let same : above (u64 (w.y + w.font.height)) w.fb.height ≡ leb rows v.row =
      ground (arith, edge, p.cursor.1, y) in
    elim (Bool-cases (leb rows v.row)) [
      | inl e ↦
          let g = same ∙ e in
          let below : v.row ≡ rows = ground (arith, h.row) in
          let sc = scroll-Scrolls w p.grid.fits p.grid.whole p.ink.1 in
          rw (check_scroll_or_new_line, settle, g, e)
            (record {
              picture =
                  subst
                    (λ b. Pictures cols rows (scroll w) (record {
                      col = 0;
                      row = v.row - 1;
                      tiles = λ c r. if ltb (r + 1) rows then v.tiles c (r + 1) else λ dx dy. b;
                    }))
                    bg (scroll-Pictures p below sc);
              col = omega (arith, p.grid.some_tiles);
              row = omega (arith, below, p.grid.some_tiles);
              style =
                  same_style cols rows d (scroll w) (sc.device.0 ∙ font) (sc.ink.0 ∙ fg)
                    (sc.ink.1 ∙ bg);
            })
      | inr e ↦
          let g = same ∙ e in
          rw (check_scroll_or_new_line, settle, g, e)
            (record {
              picture = p;
              col = h.col;
              row = ground arith;
              style = same_style cols rows d w font fg bg;
            })
    ]
