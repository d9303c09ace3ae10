-- ===== src/Libc/Memory/Copy.antt =====
-- memcpy and memmove of libc/string.c move exactly the bytes asked for.
use trs.Common.{
  ℕ, zero, suc, ◌+◌, ◌≤◌, ◌≡◌, refl, ◌∙◌, ap, ◌⊎◌, inl, inr, Bool, not, ◌&&◌, arith, ltb, leb,
  Bool-cases,
}
use trs.Common.Memory.{Mem}
use trs.Libc.Memory.{
  Cursor, is_aligned, advance, copy_byte, copy_word, copy_words, align_loop, block_loop, word_loop,
  byte_loop, memcpy, memmove,
}
use trs.Libc.Memory.Moved.{
  moved, IsForward, moved-zero, moved_self, moved-moved, copy_byte_lem, copy_word_lem,
  copy_words_lem, copy_back_lem,
}

-- What is left to copy can be copied from the front.
abbrev IsSafe : Cursor → Type 0
IsSafe c = IsForward c.d c.s c.len

-- A stretch of the work: `k` more bytes are moved and `k` fewer are left.
record Moves (c : Cursor) (t : Cursor) : Type 0 where
  k : ℕ
  mem : t.mem ≡ moved c.mem c.d c.s k
  d : t.d ≡ c.d + k
  s : t.s ≡ c.s + k
  len : t.len + k ≡ c.len

Moves-refl : (c : Cursor) → Moves c c
Moves-refl c = record {
  k = 0;
  mem = moved-zero c.mem c.d c.s;
  d = omega arith;
  s = omega arith;
  len = omega arith;
}

Moves-trans : {c t u : Cursor} → IsSafe c → Moves c t → Moves t u → Moves c u
Moves-trans {c} {t} {u} safe p q = record {
  k = p.k + q.k;
  mem =
      q.mem
      ∙ ap (λ m. moved m t.d t.s q.k) p.mem
      ∙ ap (λ x. moved (moved c.mem c.d c.s p.k) x t.s q.k) p.d
      ∙ ap (λ x. moved (moved c.mem c.d c.s p.k) (c.d + p.k) x q.k) p.s
      ∙ moved-moved c.mem c.d c.s p.k q.k (omega (arith, p.len, q.len));
  d = omega (arith, p.d, q.d);
  s = omega (arith, p.s, q.s);
  len = omega (arith, p.len, q.len);
}

Moves-IsSafe : {c t : Cursor} → IsSafe c → Moves c t → IsSafe t
Moves-IsSafe safe p = omega (arith, p.d, p.s, p.len)

Moves-advance :
    (k : ℕ) (m : Mem) (c : Cursor) → k ≤ c.len → m ≡ moved c.mem c.d c.s k → Moves c (advance k m c)
Moves-advance k m c h e = record { k = k; mem = e; d = refl; s = refl; len = omega arith }

align_loop-Moves : (fuel : ℕ) (c : Cursor) → IsSafe c → Moves c (align_loop fuel c)
unfolding align_loop
align_loop-Moves zero c safe = Moves-refl c
align_loop-Moves (suc fuel) c safe = elim (Bool-cases (ltb 0 c.len && not (is_aligned c.d))) [
  | inl e ↦
      let step =
        Moves-advance 1 (copy_byte c.mem c.d c.s) c (ground arith) (copy_byte_lem c.mem c.d c.s) in
      rw e (
        Moves-trans safe step
          (align_loop-Moves fuel (advance 1 (copy_byte c.mem c.d c.s) c) (Moves-IsSafe safe step)))
  | inr e ↦ rw e (Moves-refl c)
]

block_loop-Moves : (fuel : ℕ) (a : Bool) (c : Cursor) → IsSafe c → Moves c (block_loop fuel a c)
unfolding block_loop
block_loop-Moves zero a c safe = Moves-refl c
block_loop-Moves (suc fuel) a c safe = elim (Bool-cases (leb 32 c.len && a)) [
  | inl e ↦
      let room : 32 ≤ c.len = ground arith in
      let step =
        Moves-advance 32 (copy_words 8 c.mem c.d c.s) c room
          (copy_words_lem 8 c.mem c.d c.s (omega arith)) in
      rw e (
        Moves-trans safe step (
          block_loop-Moves fuel a (advance 32 (copy_words 8 c.mem c.d c.s) c)
            (Moves-IsSafe safe step)))
  | inr e ↦ rw e (Moves-refl c)
]

word_loop-Moves : (fuel : ℕ) (a : Bool) (c : Cursor) → IsSafe c → Moves c (word_loop fuel a c)
unfolding word_loop
word_loop-Moves zero a c safe = Moves-refl c
word_loop-Moves (suc fuel) a c safe = elim (Bool-cases (leb 4 c.len && a)) [
  | inl e ↦
      let step =
        Moves-advance 4 (copy_word c.mem c.d c.s) c (ground arith) (copy_word_lem c.mem c.d c.s) in
      rw e (
        Moves-trans safe step
          (word_loop-Moves fuel a (advance 4 (copy_word c.mem c.d c.s) c) (Moves-IsSafe safe step)))
  | inr e ↦ rw e (Moves-refl c)
]

byte_loop-Moves :
    (fuel : ℕ) (c : Cursor)
    → IsSafe c
    → c.len ≤ fuel
    → Moves c (byte_loop fuel c) × ((byte_loop fuel c).len ≡ 0)
unfolding byte_loop
byte_loop-Moves zero c safe enough = (Moves-refl c, omega arith)
byte_loop-Moves (suc fuel) c safe enough = elim (Bool-cases (ltb 0 c.len)) [
  | inl e ↦
      let step =
        Moves-advance 1 (copy_byte c.mem c.d c.s) c (ground arith) (copy_byte_lem c.mem c.d c.s) in
      let (rest, done) =
        byte_loop-Moves fuel (advance 1 (copy_byte c.mem c.d c.s) c) (Moves-IsSafe safe step)
          (omega arith) in
      rw e (Moves-trans safe step rest, done)
  | inr e ↦ rw e (Moves-refl c, ground arith)
]

-- Where the destination does not begin inside the source, `memcpy` moves exactly `len` bytes,
-- for any alignment, and changes no other byte.
pub memcpy_lem :
    (m : Mem) (dst src len : ℕ)
    → (dst ≤ src) ⊎ (src + len ≤ dst)
    → memcpy m dst src len ≡ moved m dst src len
unfolding memcpy
memcpy_lem m dst src len safe =
    let c : Cursor = record { mem = m; d = dst; s = src; len = len } in
    let p = align_loop-Moves len c safe in
    let c1 = align_loop len c in
    let a = is_aligned c1.s in
    let q = Moves-trans safe p (block_loop-Moves len a c1 (Moves-IsSafe safe p)) in
    let c2 = block_loop len a c1 in
    let r = Moves-trans safe q (word_loop-Moves len a c2 (Moves-IsSafe safe q)) in
    let c3 = word_loop len a c2 in
    let (t, done) = byte_loop-Moves len c3 (Moves-IsSafe safe r) (omega (arith, r.len)) in
    let all = Moves-trans safe r t in
    all.mem ∙ ap (moved m dst src) {x = all.k} {y = len} (omega (arith, all.len, done))

-- `memmove` moves exactly `len` bytes however the two ranges overlap: the destination ends up
-- with the bytes that the source held before the call, and no other byte changes.
pub memmove_lem : (m : Mem) (dst src len : ℕ) → memmove m dst src len ≡ moved m dst src len
unfolding memmove
memmove_lem m dst src len = elim (Bool-cases (ltb src dst)) [
  | inl e ↦ rw e (copy_back_lem m dst src len (ground arith))
  | inr e ↦ elim (Bool-cases (ltb dst src)) [
    | inl f ↦ rw (e, f) (memcpy_lem m dst src len (ground arith))
    | inr f ↦ let same : dst ≡ src = ground arith in rw (e, f) (rw same (moved_self m src len))
  ]
]
