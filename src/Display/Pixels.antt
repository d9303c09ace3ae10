-- ===== src/Display/Pixels.antt =====
-- The framebuffer of kernel/driver/image.c as pixels, and what a glyph paints on it.
use trs.Common.{
  ℕ, zero, suc, ◌+◌, ◌-◌, ◌*◌, ◌/◌, ◌^◌, ◌≤◌, ◌<◌, ◌≡◌, ◌≢◌, refl, sym, ◌∙◌, ap, arith, inl, inr,
  Bool, false, ◌&&◌, ◌||◌, ◌==◌, ltb, leb, Bool-cases, if◌then◌else◌, u32, has_bits,
}
use mathlib.Core.Path.{subst}
use native.Mathlib.Nat.{mul-le-mul_right}
use trs.Common.Memory.{Mem, store_le}
use trs.BootInfo.{Framebuffer, load_le}
use trs.Display.{Display, glyph_line, draw_pixel, draw_row}
use trs.Display.Screen.{IsFitting, pixel_word, lines_fit}

-- The word of the pixel in column `x` of line `y`, and its color.
abbrev pub index_of : Framebuffer → ℕ → ℕ → ℕ
index_of fb x y = y * (fb.pitch / 4) + x

unfoldable pub word_at : Mem → ℕ → ℕ → ℕ
word_at m base i = load_le 4 m (base + 4 * i)

abbrev pub pixel : Display → ℕ → ℕ → ℕ
pixel d x y = word_at d.mem d.fb.base (index_of d.fb x y)

-- Pixels in different places have different words.
index_of-injective :
    (fb : Framebuffer) (x y p q : ℕ)
    → x < fb.pitch / 4
    → p < fb.pitch / 4
    → (index_of fb x y == index_of fb p q) ≡ (x == p && y == q)
index_of-injective fb x y p q h k = elim (Bool-cases (y == q)) [
  | inl e ↦ let same : y ≡ q = ground arith in rw (e, same) (ground arith)
  | inr e ↦ elim (Bool-cases (ltb y q)) [
    | inl f ↦
        let rows : (y + 1) * (fb.pitch / 4) ≤ q * (fb.pitch / 4) =
          mul-le-mul_right (fb.pitch / 4) (ground arith) in
        let apart : index_of fb x y < index_of fb p q = omega (arith, rows, h) in
        ground (arith, apart)
    | inr f ↦
        let rows : (q + 1) * (fb.pitch / 4) ≤ y * (fb.pitch / 4) =
          mul-le-mul_right (fb.pitch / 4) (ground arith) in
        let apart : index_of fb p q < index_of fb x y = omega (arith, rows, k) in
        ground (arith, apart)
  ]
]

-- A word reads back as it was stored, and words do not touch each other.
pub word_at-store_le :
    (m : Mem) (base i k color : ℕ)
    → color < 2 ^ 32
    → word_at (store_le 4 m (base + 4 * i) color) base k
      ≡ (if k == i then color else word_at m base k)
unfolding word_at load_le store_le
word_at-store_le m base i k color small = elim (Bool-cases (k == i)) [
  | inl e ↦ let same : k ≡ i = ground arith in rw (e, same) (ground arith)
  | inr e ↦ let apart : k ≢ i = ground arith in rw e (ground arith)
]

-- `e` is `d` with the pixels of an area painted.
pub record Paints (area : ℕ → ℕ → Bool) (color : ℕ → ℕ → ℕ) (d e : Display) : Type 0 where
  pub cursor : (e.x ≡ d.x) × (e.y ≡ d.y)
  pub ink : (e.fg ≡ d.fg) × (e.bg ≡ d.bg)
  pub device : (e.font ≡ d.font) × (e.fb ≡ d.fb)
  pub points :
      (x y : ℕ)
      → x < d.fb.width
      → y < d.fb.height
      → pixel e x y ≡ (if area x y then color x y else pixel d x y)

pub Paints-none :
    (area : ℕ → ℕ → Bool) (color : ℕ → ℕ → ℕ) (d : Display)
    → ((x y : ℕ) → x < d.fb.width → y < d.fb.height → area x y ≡ false)
    → Paints area color d d
Paints-none area color d none = record {
  cursor = (refl, refl);
  ink = (refl, refl);
  device = (refl, refl);
  points = λ x y h v. rw (none x y h v) refl;
}

pub Paints-trans :
    {a b c : ℕ → ℕ → Bool} {f g : ℕ → ℕ → ℕ} {d e r : Display}
    → Paints a f d e
    → Paints b g e r
    → ((x y : ℕ) → g x y ≡ f x y)
    → ((x y : ℕ) → x < d.fb.width → y < d.fb.height → c x y ≡ (a x y || b x y))
    → Paints c f d r
Paints-trans {a} {b} {c} {f} {g} {d} {e} {r} p q same area = record {
  cursor = (q.cursor.0 ∙ p.cursor.0, q.cursor.1 ∙ p.cursor.1);
  ink = (q.ink.0 ∙ p.ink.0, q.ink.1 ∙ p.ink.1);
  device = (q.device.0 ∙ p.device.0, q.device.1 ∙ p.device.1);
  points = λ x y h v.
      let h' : x < e.fb.width = rw p.device.1 h in
      let v' : y < e.fb.height = rw p.device.1 v in
      ground (arith, p.points x y h v, q.points x y h' v', same x y, area x y h v);
}

-- The color of a pixel under a glyph whose bytes begin at `glyph_data`, with its upper left corner
-- at the cursor.
abbrev pub glyph_color : Display → ℕ → ℕ → ℕ → ℕ
glyph_color d glyph_data x y =
    if has_bits (glyph_line d.font glyph_data (y - d.y)) (0x8000 / 2 ^ (x - d.x))
    then d.fg
    else d.bg

-- Both colors are words.
abbrev pub IsInked : Display → Type 0
IsInked d = (d.fg < 2 ^ 32) × (d.bg < 2 ^ 32)

draw_pixel-Paints :
    (glyph_data i j : ℕ) (d : Display)
    → IsFitting d.font d.fb
    → IsInked d
    → d.x + j < 2 ^ 32
    → d.y + i < 2 ^ 32
    → Paints
        (λ x y. x == d.x + j && y == d.y + i)
        (glyph_color d glyph_data)
        d
        (draw_pixel (glyph_line d.font glyph_data i) i j d)
unfolding draw_pixel
draw_pixel-Paints glyph_data i j d fits ink h v =
    let column : u32 (d.x + j) ≡ d.x + j = omega arith in
    let row : u32 (d.y + i) ≡ d.y + i = omega arith in
    elim (Bool-cases (ltb (d.x + j) d.fb.width && ltb (d.y + i) d.fb.height)) [
      | inr e ↦ rw (draw_pixel, column, row, e) (Paints-none _ _ d (λ x y a b. ground arith))
      | inl e ↦
          let at =
            pixel_word (d.x + j) (d.y + i) d.fb.width d.fb.height (d.fb.pitch / 4) (ground arith)
              fits.lines (ground arith) in
          let small : index_of d.fb (d.x + j) (d.y + i) < 2 ^ 32 =
            omega (arith, at, lines_fit d.fb, fits.size) in
          let word : u32 (index_of d.fb (d.x + j) (d.y + i)) ≡ index_of d.fb (d.x + j) (d.y + i) =
            omega (arith, small) in
          let is_word : color < 2 ^ 32 = ground (arith, ink) in
          rw (draw_pixel, column, row, e, word)
            (record {
              cursor = (refl, refl);
              ink = (refl, refl);
              device = (refl, refl);
              points = λ x y a b.
                  word_at-store_le d.mem d.fb.base (index_of d.fb (d.x + j) (d.y + i))
                    (index_of d.fb x y) color is_word
                  ∙ painted x y a (ground (arith, fits.lines));
            })
    ]
  where
    line : ℕ
    line = glyph_line d.font glyph_data i

    color : ℕ
    color = if has_bits line (0x8000 / 2 ^ j) then d.fg else d.bg

    painted :
        (x y : ℕ)
        → x < d.fb.width
        → d.x + j < d.fb.pitch / 4
        → (if index_of d.fb x y == index_of d.fb (d.x + j) (d.y + i) then color else pixel d x y)
          ≡ (if x == d.x + j && y == d.y + i then glyph_color d glyph_data x y else pixel d x y)
    painted x y h v = elim (Bool-cases (x == d.x + j && y == d.y + i)) [
      | inl e ↦
          let back : x - d.x ≡ j = ground arith in
          let down : y - d.y ≡ i = ground arith in
          rw
            (
              index_of-injective d.fb x y (d.x + j) (d.y + i) (omega (arith, fits.lines)) v,
              e,
              back,
              down,
            )
            refl
      | inr e ↦
          rw (index_of-injective d.fb x y (d.x + j) (d.y + i) (omega (arith, fits.lines)) v, e) refl
    ]

-- What one painting leaves for the next one.
pub record Follows (d e : Display) : Type 0 where
  pub fits : IsFitting e.font e.fb
  pub ink : IsInked e

pub Paints-Follows :
    {area : ℕ → ℕ → Bool} {color : ℕ → ℕ → ℕ} {d e : Display}
    → Paints area color d e
    → IsFitting d.font d.fb
    → IsInked d
    → Follows d e
Paints-Follows {area} {color} {d} {e} p fits ink = record {
  fits =
      subst (λ b. IsFitting e.font b) (sym p.device.1)
        (subst (λ t. IsFitting t d.fb) (sym p.device.0) fits);
  ink = (omega (arith, p.ink.0, ink.0), omega (arith, p.ink.1, ink.1));
}

-- The color depends on nothing that painting changes.
pub same_color :
    {area : ℕ → ℕ → Bool} {color : ℕ → ℕ → ℕ} {d e : Display} (glyph_data x y : ℕ)
    → Paints area color d e
    → glyph_color e glyph_data x y ≡ glyph_color d glyph_data x y
same_color {area} {color} {d} {e} glyph_data x y p =
    let (a, b) = p.cursor in let (c, f) = p.ink in let (g, h) = p.device in cc

pub draw_row-Paints :
    (left line glyph_data i j : ℕ) (d : Display)
    → line ≡ glyph_line d.font glyph_data i
    → IsFitting d.font d.fb
    → IsInked d
    → d.x + j + left ≤ 2 ^ 32
    → d.y + i < 2 ^ 32
    → Paints
        (λ x y. leb (d.x + j) x && ltb x (d.x + j + left) && y == d.y + i)
        (glyph_color d glyph_data)
        d
        (draw_row left line i j d)
unfolding draw_row
draw_row-Paints zero line glyph_data i j d e fits ink h v =
    Paints-none _ _ d (λ x y a b. ground arith)
draw_row-Paints (suc left) line glyph_data i j d e fits ink h v =
    let p = rw (← e) at (draw_pixel-Paints glyph_data i j d fits ink (omega arith) v) in
    let next = draw_pixel line i j d in
    let f = Paints-Follows p fits ink in
    let q =
      draw_row-Paints left line glyph_data i (j + 1) next
        (e ∙ ap (λ t. glyph_line t glyph_data i) (sym p.device.0)) f.fits f.ink
        (omega (arith, p.cursor.0)) (omega (arith, p.cursor.1)) in
    Paints-trans p q (λ x y. same_color glyph_data x y p) (λ x y a b. ground (arith, p.cursor))
