-- ===== src/Display/Scroll.antt =====
-- `scroll` and `dsp_clear` of kernel/driver/image.c, pixel by pixel.
use trs.Common.{
  ℕ, zero, suc, ◌+◌, ◌-◌, ◌*◌, ◌/◌, ◌%◌, ◌^◌, ◌≤◌, ◌<◌, ◌≡◌, refl, ◌∙◌, ap, arith, inl, inr, ◌&&◌,
  ltb, leb, Bool-cases, if◌then◌else◌, u32, u64,
}
use native.Mathlib.Nat.{mul-le-mul_right}
use trs.Common.Memory.{Mem}
use trs.Libc.Memory.{memmove}
use trs.Libc.Memory.Moved.{moved}
use trs.Libc.Memory.Copy.{memmove_lem}
use trs.BootInfo.{Framebuffer, load_le}
use trs.Display.{Display, set_word, blank_loop, scroll, clear_loop, dsp_clear}
use trs.Display.Screen.{IsFitting, pixel_word, lines_fit}
use trs.Display.Pixels.{index_of, word_at, pixel, word_at-store_le}
use trs.Display.Cursor.{Stores, Stores-refl, Stores-trans, set_word-Stores, blank_loop-Stores}

word_at-moved :
    (m : Mem) (base line n k : ℕ)
    → word_at (moved m base (base + 4 * line) (4 * n)) base k
      ≡ (if ltb k n then word_at m base (k + line) else word_at m base k)
unfolding word_at load_le
word_at-moved m base line n k = elim (Bool-cases (ltb k n)) [
  | inl e ↦ rw e (ground arith)
  | inr e ↦ rw e (ground arith)
]

-- The words that are blanked, counted from the end.
blank_loop-word :
    (left i total : ℕ) (d : Display) (k : ℕ)
    → d.bg < 2 ^ 32
    → total < 2 ^ 32
    → 0 < i
    → i + left ≤ total + 1
    → word_at (blank_loop left i total d).mem d.fb.base k
      ≡ (if leb (k + i) total && ltb total (k + i + left) then d.bg else word_at d.mem d.fb.base k)
unfolding blank_loop
blank_loop-word zero i total d k ink small pos room = ground arith
blank_loop-word (suc left) i total d k ink small pos room =
    let at : u64 (total + 2 ^ 64 - i) ≡ total - i = omega arith in
    ground (
      arith,
      at,
      blank_loop-word left (i + 1) total (set_word d (total - i) d.bg) k ink small (omega arith)
          (omega arith),
      word_at-store_le d.mem d.fb.base (total - i) k d.bg ink,
    )

-- The same order of lines and of their words.
pub lines_order : (a b line x : ℕ) → x < line → ltb (a * line + x) (b * line) ≡ ltb a b
lines_order a b line x h = elim (Bool-cases (ltb a b)) [
  | inl e ↦
      let rows : (a + 1) * line ≤ b * line = mul-le-mul_right line (ground arith) in
      let below : a * line + x < b * line = omega (arith, rows, h) in ground arith
  | inr e ↦
      let rows : b * line ≤ a * line = mul-le-mul_right line (ground arith) in
      let above : b * line ≤ a * line + x = omega (arith, rows) in ground arith
]

-- The words of the whole screen and of one line of text, if a line of pixels is whole words.
whole_words : (fb : Framebuffer) (n : ℕ) → fb.pitch % 4 ≡ 0 → n * fb.pitch / 4 ≡ n * (fb.pitch / 4)
whole_words fb n e =
    let quarter : fb.pitch ≡ fb.pitch / 4 * 4 = omega (arith, e) in
    let all : n * fb.pitch ≡ n * (fb.pitch / 4 * 4) = ap (λ p. n * p) quarter in omega (arith, all)

-- `scroll` moves every line of pixels up by the height of the font and fills the lines that come
-- free with the background; the cursor goes up with them, to the left edge.
pub record Scrolls (d e : Display) : Type 0 where
  pub cursor : (e.x ≡ 0) × (e.y ≡ u64 (d.y + 2 ^ 64 - d.font.height))
  pub ink : (e.fg ≡ d.fg) × (e.bg ≡ d.bg)
  pub device : (e.font ≡ d.font) × (e.fb ≡ d.fb)
  pub points :
      (x y : ℕ)
      → x < d.fb.width
      → y < d.fb.height
      → pixel e x y
        ≡ (if ltb (y + d.font.height) d.fb.height then pixel d x (y + d.font.height) else d.bg)

-- The words behind the move and the blanking.
scrolled_word :
    (total line : ℕ) (d : Display) (k : ℕ)
    → line ≤ total
    → total < 2 ^ 32
    → d.bg < 2 ^ 32
    → k < total
    → let up : Display = record d {
      mem = memmove d.mem d.fb.base (d.fb.base + 4 * line) (4 * (total - line));
    } in
      word_at (blank_loop line 1 total up).mem d.fb.base k
      ≡ (if ltb (k + line) total then word_at d.mem d.fb.base (k + line) else d.bg)
scrolled_word total line d k short small ink inside =
    let m = memmove d.mem d.fb.base (d.fb.base + 4 * line) (4 * (total - line)) in
    let words : word_at m d.fb.base k ≡ (
        if ltb k (total - line)
        then word_at d.mem d.fb.base (k + line)
        else word_at d.mem d.fb.base k) =
      ap (λ n. word_at n d.fb.base k)
        (memmove_lem d.mem d.fb.base (d.fb.base + 4 * line) (4 * (total - line)))
      ∙ word_at-moved d.mem d.fb.base line (total - line) k in
    ground (
      arith,
      words,
      blank_loop-word line 1 total (record d { mem = m }) k ink small (omega arith) (omega arith),
    )

pub scroll-Scrolls :
    (d : Display)
    → IsFitting d.font d.fb
    → d.fb.pitch % 4 ≡ 0
    → d.bg < 2 ^ 32
    → Scrolls d (scroll d)
unfolding scroll
scroll-Scrolls d fits whole ink = record {
  cursor = (refl, refl);
  ink = (ap (λ t. t.fg) kept.same, ap (λ t. t.bg) kept.same);
  device = (ap (λ t. t.font) kept.same, ap (λ t. t.fb) kept.same);
  points = λ x y h v.
      ap (λ b. word_at (blank_loop line 1 total up).mem b.base (index_of b x y))
        (ap (λ t. t.fb) kept.same)
      ∙ point x y h v;
}
  where
    total : ℕ
    total = u32 (d.fb.height * d.fb.pitch) / 4

    line : ℕ
    line = u32 (d.font.height * d.fb.pitch) / 4

    rest : ℕ
    rest = u64 (u64 (total + 2 ^ 64 - line) * 4)

    up : Display
    up = record d { mem = memmove d.mem d.fb.base (d.fb.base + 4 * line) rest }

    kept : Stores up (blank_loop line 1 total up)
    kept = blank_loop-Stores line 1 total up

    grows : d.font.height * d.fb.pitch ≤ d.fb.height * d.fb.pitch
    grows = mul-le-mul_right d.fb.pitch fits.tall

    bytes : rest ≡ 4 * (total - line)
    bytes = omega (arith, grows, fits.size)

    total_lem : total ≡ d.fb.height * (d.fb.pitch / 4)
    total_lem = omega (arith, fits.size, whole_words d.fb d.fb.height whole)

    line_lem : line ≡ d.font.height * (d.fb.pitch / 4)
    line_lem = omega (arith, grows, fits.size, whole_words d.fb d.font.height whole)

    point :
        (x y : ℕ)
        → x < d.fb.width
        → y < d.fb.height
        → word_at (blank_loop line 1 total up).mem d.fb.base (index_of d.fb x y)
          ≡ (if ltb (y + d.font.height) d.fb.height then pixel d x (y + d.font.height) else d.bg)
    point x y h v =
        let inside = lines_order y d.fb.height (d.fb.pitch / 4) x (omega (arith, h, fits.lines)) in
        let next =
          lines_order (y + d.font.height) d.fb.height (d.fb.pitch / 4) x
            (omega (arith, h, fits.lines)) in
        let word =
          scrolled_word total line d (index_of d.fb x y) (omega (arith, grows, fits.size))
            (omega (arith, fits.size)) ink (ground (arith, inside, total_lem, v)) in
        let shifted : index_of d.fb x y + line ≡ index_of d.fb x (y + d.font.height) =
          omega (arith, line_lem) in
        let whole_screen : ltb (index_of d.fb x (y + d.font.height)) total
            ≡ ltb (y + d.font.height) d.fb.height =
          ap (λ n. ltb (index_of d.fb x (y + d.font.height)) n) total_lem ∙ next in
        ap
          (λ n.
            word_at
              (blank_loop line 1 total
                (record d { mem = memmove d.mem d.fb.base (d.fb.base + 4 * line) n })).mem
              d.fb.base (index_of d.fb x y))
          bytes
        ∙ rw (shifted, whole_screen) at word

clear_loop-word :
    (left i : ℕ) (d : Display) (k : ℕ)
    → d.bg < 2 ^ 32
    → word_at (clear_loop left i d).mem d.fb.base k
      ≡ (if leb i k && ltb k (i + left) then d.bg else word_at d.mem d.fb.base k)
unfolding clear_loop
clear_loop-word zero i d k ink = ground arith
clear_loop-word (suc left) i d k ink = ground (
  arith,
  clear_loop-word left (i + 1) (set_word d i d.bg) k ink,
  word_at-store_le d.mem d.fb.base i k d.bg ink,
)

clear_loop-Stores : (left i : ℕ) (d : Display) → Stores d (clear_loop left i d)
unfolding clear_loop
clear_loop-Stores zero i d = Stores-refl d
clear_loop-Stores (suc left) i d =
    Stores-trans (set_word-Stores d i d.bg) (clear_loop-Stores left (i + 1) (set_word d i d.bg))

-- `dsp_clear` fills the screen with the background and puts the cursor into its corner.
pub record Clears (d e : Display) : Type 0 where
  pub cursor : (e.x ≡ 0) × (e.y ≡ 0)
  pub ink : (e.fg ≡ d.fg) × (e.bg ≡ d.bg)
  pub device : (e.font ≡ d.font) × (e.fb ≡ d.fb)
  pub points : (x y : ℕ) → x < d.fb.width → y < d.fb.height → pixel e x y ≡ d.bg

pub dsp_clear-Clears :
    (d : Display) → IsFitting d.font d.fb → d.bg < 2 ^ 32 → Clears d (dsp_clear d)
unfolding dsp_clear
dsp_clear-Clears d fits ink = record {
  cursor = (refl, refl);
  ink = (ap (λ t. t.fg) kept.same, ap (λ t. t.bg) kept.same);
  device = (ap (λ t. t.font) kept.same, ap (λ t. t.fb) kept.same);
  points = λ x y h v.
      ap (λ b. word_at cleared.mem b.base (index_of b x y)) (ap (λ t. t.fb) kept.same)
      ∙ point x y h v;
}
  where
    size : ℕ
    size = u32 (d.fb.pitch / 4 * d.fb.height)

    cleared : Display
    cleared = clear_loop size 0 d

    kept : Stores d cleared
    kept = clear_loop-Stores size 0 d

    point :
        (x y : ℕ)
        → x < d.fb.width
        → y < d.fb.height
        → word_at cleared.mem d.fb.base (index_of d.fb x y) ≡ d.bg
    point x y h v =
        let inside = pixel_word x y d.fb.width d.fb.height (d.fb.pitch / 4) h fits.lines v in
        let all : size ≡ d.fb.height * (d.fb.pitch / 4) =
          omega (arith, lines_fit d.fb, fits.size) in
        ground (arith, inside, all, clear_loop-word size 0 d (index_of d.fb x y) ink)
