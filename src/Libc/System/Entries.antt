-- ===== src/Libc/System/Entries.antt =====
-- What `readdir` of libc/dirent.c returns, and after how many turns.
use trs.Common.{
  ℕ, zero, suc, ◌+◌, ◌-◌, ◌<◌, ◌≡◌, ◌≢◌, refl, ap, ◌∙◌, arith, ◌⊎◌, inl, inr, Bool, true, false,
  not, ◌&&◌, ◌||◌, ◌==◌, Bool-cases, if◌then◌else◌, List, some, ℤ, pos,
}
use trs.Common.Memory.{Mem}
use trs.Libc.Memory.Moved.{moved}
use trs.Fat32.{FatDir, is_ok}
use trs.Sys.{Sys, DirInfo, int_of}
use trs.Libc.System.{is_label, is_dots, next_entry, readdir_loop, readdir, info_size}

-- An entry of the directory: no label, and neither "." nor "..".
abbrev pub is_listed : Mem → ℕ → Bool
is_listed m inf = not (is_label m inf) && not (is_dots m inf)

moved-at : (m : Mem) (d s i : ℕ) → i < info_size → moved m d s info_size (d + i) ≡ m (s + i)
moved-at m d s i h = let back : s + (d + i - d) ≡ s + i = omega arith in ground (arith, ap m back)

is_listed-moved : (m : Mem) (d s : ℕ) → is_listed (moved m d s info_size) d ≡ is_listed m s
is_listed-moved m d s =
    let zeroth : moved m d s info_size d ≡ m s = ground arith in
    rw
      (
        zeroth,
        moved-at m d s 1 (omega arith),
        moved-at m d s 2 (omega arith),
        moved-at m d s 40 (omega arith),
      )
      refl

module _ {D F : Type 0} (lib : FatDir D F DirInfo) (text_at : Mem → ℕ → List ℕ)
    (dir info inf : ℕ) where
  -- The kernel's answers to so many calls that `readdir` passes over.
  pub data Skips : Sys D F → ℕ → Sys D F → Type 0 where
    none_skipped : {s : Sys D F} → Skips s zero s
    skipped :
        {s t u : Sys D F} {r n : ℕ}
        → next_entry lib text_at dir inf s ≡ some (r, t)
        → is_ok (int_of r) ≡ true
        → is_listed t.mem inf ≡ false
        → Skips t n u
        → Skips s (suc n) u

  -- What `readdir` makes of the first answer that it does not pass over.
  abbrev pub returned : ℕ → Sys D F → ℤ × Sys D F
  returned r v =
      if is_ok (int_of r)
      then (pos 0, record v { mem = moved v.mem info inf info_size })
      else (int_of r, v)

  last_turn :
      (turns r : ℕ) (u v : Sys D F)
      → next_entry lib text_at dir inf u ≡ some (r, v)
      → is_ok (int_of r) ≡ false ⊎ is_listed v.mem inf ≡ true
      → readdir_loop lib text_at (suc turns) dir info inf u ≡ some (returned r v)
  unfolding readdir_loop
  last_turn turns r u v e h = elim (Bool-cases (is_ok (int_of r))) [
    | inl ok ↦
        let label : is_label v.mem inf ≡ false = ground arith in
        let dots : is_dots v.mem inf ≡ false = ground arith in
        rw (readdir_loop, e, ok, label, dots) refl
    | inr bad ↦ rw (readdir_loop, e, bad) refl
  ]

  skip_turn :
      (turns r : ℕ) (s t : Sys D F)
      → next_entry lib text_at dir inf s ≡ some (r, t)
      → is_ok (int_of r) ≡ true
      → is_listed t.mem inf ≡ false
      → readdir_loop lib text_at (suc turns) dir info inf s
        ≡ readdir_loop lib text_at turns dir info inf t
  unfolding readdir_loop
  skip_turn turns r s t e ok h = elim (Bool-cases (is_label t.mem inf)) [
    | inl label ↦ rw (readdir_loop, e, ok, label) refl
    | inr label ↦
        let dots : is_dots t.mem inf ≡ true = ground arith in
        rw (readdir_loop, e, ok, label, dots) refl
  ]

  all_turns :
      (turns : ℕ) {s u : Sys D F} {n : ℕ} (r : ℕ) (v : Sys D F)
      → Skips s n u
      → n < turns
      → next_entry lib text_at dir inf u ≡ some (r, v)
      → is_ok (int_of r) ≡ false ⊎ is_listed v.mem inf ≡ true
      → readdir_loop lib text_at turns dir info inf s ≡ some (returned r v)
  all_turns zero r v skips few e h = absurd (omega arith)
  all_turns (suc turns) {u} r v none_skipped few e h = last_turn turns r u v e h
  all_turns (suc turns) r v (skipped {s} {t} {r = q} answer ok passed skips) few e h =
      skip_turn turns q s t answer ok passed ∙ all_turns turns r v skips (omega arith) e h

  shown :
      (r : ℕ) (v : Sys D F)
      → is_ok (int_of r) ≡ false ⊎ is_listed v.mem inf ≡ true
      → is_ok (returned r v).0 ≡ false ⊎ is_listed (returned r v).1.mem info ≡ true
  shown r v h = elim (Bool-cases (is_ok (int_of r))) [
    | inl ok ↦
        let listed : is_listed v.mem inf ≡ true = ground arith in
        rw ok (inr (is_listed-moved v.mem info inf ∙ listed))
    | inr bad ↦ rw bad (inl bad)
  ]

  -- If the kernel answers `n` calls with labels, "." or "..", and the next with an error or another
  -- entry, `readdir` ends within `n + 1` turns and returns that answer: what it leaves at `info`
  -- where it returns 0 is the entry, neither a label nor "." nor "..".
  pub readdir-Skips :
      {s u : Sys D F} {n : ℕ} (turns r : ℕ) (v : Sys D F)
      → dir ≢ 0
      → info ≢ 0
      → Skips s n u
      → n < turns
      → next_entry lib text_at dir inf u ≡ some (r, v)
      → is_ok (int_of r) ≡ false ⊎ is_listed v.mem inf ≡ true
      → (readdir lib text_at turns inf dir info s ≡ some (returned r v))
        × (is_ok (returned r v).0 ≡ false ⊎ is_listed (returned r v).1.mem info ≡ true)
  unfolding readdir
  readdir-Skips turns r v nd ni skips few e h =
      let given : (dir == 0 || info == 0) ≡ false = ground arith in
      (rw given (all_turns turns r v skips few e h), shown r v h)
