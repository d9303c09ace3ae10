-- ===== src/Fat32/Handles.antt =====
-- What a handle of the driver gives: the entries of its directory, until it is closed.
use trs.Common.{
  inl, inr, ℕ, ◌<◌, ◌≡◌, ◌≢◌, refl, sym, ◌∙◌, ap, arith, Bool, true, false, ltb, Bool-cases,
  if◌then◌else◌, length, length-set, set, Option, none, some, ℤ, pos,
}
use mathlib.Core.Path.{subst}
use trs.Fat32.{
  FatDir, Driver, DirSlot, is_ok, fat_err_param, fat_err_none, zero_slot, slot_at, with_slot,
  fat32_dir_read, fat32_dir_close, slot_of, read_entry,
}
use trs.Fat32.Table.{get_or-set_self, get_or-set_ne}

module _ {D F Info : Type 0} (lib : FatDir D F Info) where
  in_use :
      (i : ℕ) (d : Driver D F)
      → i < 10
      → (slot_at lib d i).used ≡ true
      → slot_of lib (pos i) d ≡ some i
  unfolding slot_of
  in_use i d lt u = let t : ltb i 10 ≡ true = ground arith in rw (t, u) refl

  not_in_use :
      (i : ℕ) (d : Driver D F) → (slot_at lib d i).used ≡ false → slot_of lib (pos i) d ≡ none
  unfolding slot_of
  not_in_use i d u = ground (arith, u)

  -- The directory at whose entry the next read looks, and the code on which it fails before that.
  abbrev look : Bool → Driver D F → ℕ → D × F × ℤ
  look move d i =
      let s = slot_at lib d i in
      let n = lib.fat_dir_next s.dir d.fat in
      if move then (n.dir, n.fat, n.result) else (s.dir, d.fat, fat_err_none)

  abbrev pub looks_at : Driver D F → ℕ → D × F × ℤ
  looks_at d i = look (slot_at lib d i).need_next d i

  -- What reading the entry of slot `i` leaves.
  abbrev Reads : ℕ → D × F × ℤ → Driver D F → (ℤ × Option Info) × Driver D F → Type 0
  Reads i at d r =
      let c = lib.fat_dir_read at.0 at.1 in
      (r.0 ≡ (c.result.0, some c.result.1))
      × (slot_at lib r.1 i ≡ record { dir = c.dir; used = true; need_next = true })
      × (r.1.fat ≡ c.fat)
      × ((j : ℕ) → i ≢ j → slot_at lib r.1 j ≡ slot_at lib d j)

  Reads-at :
      (i : ℕ) (d : Driver D F) {a b : D × F × ℤ} {r t : (ℤ × Option Info) × Driver D F}
      → a ≡ b
      → r ≡ t
      → Reads i b d t
      → Reads i a d r
  Reads-at i d {b = b} {r = r} p q h =
      subst (λ x. Reads i x d r) (sym p) (subst (λ x. Reads i b d x) (sym q) h)

  read_entry-Reads :
      (i : ℕ) (dir : D) (d : Driver D F)
      → length d.dirs ≡ 10
      → i < 10
      → (slot_at lib d i).used ≡ true
      → Reads i (dir, d.fat, fat_err_none) d (read_entry lib i dir d)
  unfolding read_entry
  read_entry-Reads i dir d len lt u =
      let c = lib.fat_dir_read dir d.fat in
      let after : DirSlot D = record {
        dir = c.dir;
        used = (slot_at lib d i).used;
        need_next = true;
      } in
      (
        refl,
        get_or-set_self d.dirs i after (zero_slot lib) (omega (arith, len))
            ∙ (λ k. record { dir = c.dir; used = u k; need_next = true }),
        refl,
        λ j ne. get_or-set_ne d.dirs i j after (zero_slot lib) ne,
      )

  read_first :
      (i : ℕ) (d : Driver D F)
      → i < 10
      → (slot_at lib d i).used ≡ true
      → (slot_at lib d i).need_next ≡ false
      → fat32_dir_read lib (pos i) true d ≡ read_entry lib i (slot_at lib d i).dir d
  unfolding fat32_dir_read
  read_first i d lt u n = rw (fat32_dir_read, in_use i d lt u, n) refl

  -- The driver after the move to the next entry.
  abbrev moved_on : Driver D F → ℕ → Driver D F
  moved_on d i =
      let s = slot_at lib d i in with_slot lib d i (lib.fat_dir_next s.dir d.fat) s.used s.need_next

  read_next :
      (i : ℕ) (d : Driver D F)
      → i < 10
      → (slot_at lib d i).used ≡ true
      → (slot_at lib d i).need_next ≡ true
      → is_ok (lib.fat_dir_next (slot_at lib d i).dir d.fat).result ≡ true
      → fat32_dir_read lib (pos i) true d
        ≡ read_entry lib i (lib.fat_dir_next (slot_at lib d i).dir d.fat).dir (moved_on d i)
  unfolding fat32_dir_read
  read_next i d lt u n ok = rw (fat32_dir_read, in_use i d lt u, n, ok) refl

  -- A read of an open handle moves to the next entry first, unless it is the handle's first read;
  -- if that succeeds, it returns what the library reads there, and leaves the handle open, to move
  -- on at the next read. The other handles stay as they are.
  pub fat32_dir_read_lem :
      (i : ℕ) (d : Driver D F)
      → length d.dirs ≡ 10
      → i < 10
      → (slot_at lib d i).used ≡ true
      → is_ok (looks_at d i).2 ≡ true
      → (let c = lib.fat_dir_read (looks_at d i).0 (looks_at d i).1 in
          let r = fat32_dir_read lib (pos i) true d in
          (r.0 ≡ (c.result.0, some c.result.1))
          × (slot_at lib r.1 i ≡ record { dir = c.dir; used = true; need_next = true })
          × (r.1.fat ≡ c.fat)
          × ((j : ℕ) → i ≢ j → slot_at lib r.1 j ≡ slot_at lib d j))
  fat32_dir_read_lem i d len lt u ok = elim (Bool-cases (slot_at lib d i).need_next) [
    | inl n ↦
        let s = slot_at lib d i in
        let x = lib.fat_dir_next s.dir d.fat in
        let moved = moved_on d i in
        let after : DirSlot D = record { dir = x.dir; used = s.used; need_next = s.need_next } in
        let kept = get_or-set_self d.dirs i after (zero_slot lib) (omega (arith, len)) in
        let (answer, slot, fat, others) =
          read_entry-Reads i x.dir moved (length-set d.dirs i after ∙ len) lt
            (ap (λ t. t.used) kept ∙ u) in
        let looks = ap (λ b. look b d i) n in
        let ok' = subst (λ a. is_ok a.2 ≡ true) looks ok in
        Reads-at i d looks (read_next i d lt u n ok') (
          answer,
          slot,
          fat,
          λ j ne. others j ne ∙ get_or-set_ne d.dirs i j after (zero_slot lib) ne,
        )
    | inr n ↦
        let looks = ap (λ b. look b d i) n in
        Reads-at i d looks (read_first i d lt u n)
          (read_entry-Reads i (slot_at lib d i).dir d len lt u)
  ]

  abbrev closed_at : Driver D F → ℕ → Driver D F
  closed_at d i = record d { dirs = set d.dirs i (zero_slot lib) }

  close_open :
      (i : ℕ) (d : Driver D F)
      → i < 10
      → (slot_at lib d i).used ≡ true
      → fat32_dir_close lib (pos i) d ≡ (fat_err_none, closed_at d i)
  unfolding fat32_dir_close
  close_open i d lt u = rw (fat32_dir_close, in_use i d lt u) refl

  close_unused :
      (i : ℕ) (d : Driver D F)
      → (slot_at lib d i).used ≡ false
      → fat32_dir_close lib (pos i) d ≡ (fat_err_param, d)
  unfolding fat32_dir_close
  close_unused i d u = rw (fat32_dir_close, not_in_use i d u) refl

  read_unused :
      (i : ℕ) (given : Bool) (d : Driver D F)
      → (slot_at lib d i).used ≡ false
      → fat32_dir_read lib (pos i) given d ≡ ((fat_err_param, none), d)
  unfolding fat32_dir_read
  read_unused i given d u = rw (fat32_dir_read, not_in_use i d u) refl

  -- Closing an open handle succeeds and changes no other handle. Behind it a second close, and a
  -- read, of the handle are refused with FAT_ERR_PARAM and change nothing.
  pub fat32_dir_close_lem :
      (i : ℕ) (given : Bool) (d : Driver D F)
      → length d.dirs ≡ 10
      → i < 10
      → (slot_at lib d i).used ≡ true
      → (let t = (fat32_dir_close lib (pos i) d).1 in
          ((fat32_dir_close lib (pos i) d).0 ≡ fat_err_none)
          × (fat32_dir_close lib (pos i) t ≡ (fat_err_param, t))
          × (fat32_dir_read lib (pos i) given t ≡ ((fat_err_param, none), t))
          × ((j : ℕ) → i ≢ j → slot_at lib t j ≡ slot_at lib d j))
  fat32_dir_close_lem i given d len lt u =
      let self = get_or-set_self d.dirs i (zero_slot lib) (zero_slot lib) (omega (arith, len)) in
      let closed = ap (λ s. s.used) self in
      rw (close_open i d lt u) (
        refl,
        close_unused i (closed_at d i) closed,
        read_unused i given (closed_at d i) closed,
        λ j ne. get_or-set_ne d.dirs i j (zero_slot lib) (zero_slot lib) ne,
      )
