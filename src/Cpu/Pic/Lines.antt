-- ===== src/Cpu/Pic/Lines.antt =====
-- The mask of interrupt lines that pic.c leaves in a controller.
use trs.Common.{
  ℕ, ◌/◌, ◌%◌, ◌^◌, ◌<◌, ◌≡◌, refl, ap, ◌∙◌, arith, Bool, true, ◌==◌, if◌then◌else◌, u8, bit_or,
  ◌∷◌,
}
use trs.Common.Bits.{holds_below, holds_below_lem}
use trs.Ports.{World, in8, out8, inb, outb}
use trs.Cpu.Pic.{mask_port, line_bit, without, pic_mask, pic_unmask}

-- Line `k` of a controller is masked.
abbrev pub masked : ℕ → ℕ → ℕ
masked byte k = byte / 2 ^ k % 2

-- The byte, with line `k` masked or not.
abbrev pub is_set_to : ℕ → ℕ → ℕ → ℕ → ℕ → Bool
is_set_to value m line k v = masked v k == (if k == line then value else masked m k)

abbrev unmask_ok : ℕ → Bool
unmask_ok m =
    holds_below 8 (λ line. holds_below 8 (λ k. is_set_to 0 m line k (u8 (without m (2 ^ line)))))

abbrev mask_ok : ℕ → Bool
mask_ok m =
    holds_below 8 (λ line. holds_below 8 (λ k. is_set_to 1 m line k (u8 (bit_or m (2 ^ line)))))

unmask_table : holds_below 256 unmask_ok ≡ true
unfolding holds_below
unmask_table = refl

mask_table : holds_below 256 mask_ok ≡ true
unfolding holds_below
mask_table = refl

bit_table : holds_below 16 (λ line. line_bit line == 2 ^ (line % 8)) ≡ true
unfolding holds_below
bit_table = refl

line_bit_lem : (line : ℕ) → line < 16 → line_bit line ≡ 2 ^ (line % 8)
line_bit_lem line h =
    let t = holds_below_lem 16 (λ l. line_bit l == 2 ^ (l % 8)) line bit_table h in ground arith

abbrev set_row : (ℕ → ℕ → ℕ) → ℕ → ℕ → ℕ → ℕ → Bool
set_row f value m line k = is_set_to value m line k (u8 (f m (2 ^ line)))

table_entry :
    (f : ℕ → ℕ → ℕ) (value m line k : ℕ)
    → holds_below 256 (λ b. holds_below 8 (λ l. holds_below 8 (set_row f value b l))) ≡ true
    → m < 256
    → line < 8
    → k < 8
    → masked (u8 (f m (2 ^ line))) k ≡ (if k == line then value else masked m k)
table_entry f value m line k table p q r =
    let rows =
      holds_below_lem 256 (λ b. holds_below 8 (λ l. holds_below 8 (set_row f value b l))) m table
        p in
    let row = holds_below_lem 8 (λ l. holds_below 8 (set_row f value m l)) line rows q in
    let entry = holds_below_lem 8 (set_row f value m line) k row r in ground arith

-- A log with one more reading of a controller's mask and the write that follows it: of the mask
-- read, line `line % 8` is set to `value`, and the other seven are as they were.
pub record SetsLine (value line : ℕ) (w t : World) : Type 0 where
  pub byte : ℕ
  pub log : t.log ≡ out8 (mask_port line) byte ∷ in8 (mask_port line) ∷ w.log
  pub lines :
      (k : ℕ)
      → k < 8
      → masked byte k ≡ (if k == line % 8 then value else masked (u8 (w.answer w.reads)) k)

-- `pic_unmask` clears the bit of its line in the mask of the line's controller, and no other.
pub pic_unmask_lem : (line : ℕ) (w : World) → line < 16 → SetsLine 0 line w (pic_unmask line w)
unfolding pic_unmask inb outb
pic_unmask_lem line w h =
    let m = u8 (w.answer w.reads) in
    let e = line_bit_lem line h in
    record {
      byte = u8 (without m (line_bit line));
      log = refl;
      lines = λ k p.
          ap (λ b. masked (u8 (without m b)) k) e
          ∙ table_entry without 0 m (line % 8) k unmask_table (omega arith) (omega arith) p;
    }

-- `pic_mask` sets the bit of its line in the mask of the line's controller, and no other.
pub pic_mask_lem : (line : ℕ) (w : World) → line < 16 → SetsLine 1 line w (pic_mask line w)
unfolding pic_mask inb outb
pic_mask_lem line w h =
    let m = u8 (w.answer w.reads) in
    let e = line_bit_lem line h in
    record {
      byte = u8 (bit_or m (line_bit line));
      log = refl;
      lines = λ k p.
          ap (λ b. masked (u8 (bit_or m b)) k) e
          ∙ table_entry bit_or 1 m (line % 8) k mask_table (omega arith) (omega arith) p;
    }
