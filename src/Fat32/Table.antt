-- ===== src/Fat32/Table.antt =====
-- The table of open directories: where a directory is opened, and what stays as it is.
use trs.Common.{
  ℕ, zero, suc, ◌+◌, ◌≤◌, ◌<◌, ◌≡◌, ◌≢◌, refl, sym, ap, arith, ◌⊎◌, inl, inr, true, false, not, ltb,
  Bool-cases, if◌then◌else◌, List, [], ◌∷◌, length, set, get_or, some, ℤ, pos,
}
use mathlib.Core.Path.{subst}
use trs.Fat32.{
  FatDir, Driver, is_ok, fat_err_full, fat_err_param, slot_at, with_slot, open_loop, fat32_dir_open,
  max_opendirs,
}

module _ {A : Type 0} where
  pub get_or-set_self :
      (xs : List A) (i : ℕ) (v w : A) → i < length xs → get_or (set xs i v) i w ≡ v
  get_or-set_self [] i v w h = absurd (omega arith)
  get_or-set_self (x ∷ xs) zero v w h = refl
  get_or-set_self (x ∷ xs) (suc i) v w h = get_or-set_self xs i v w (omega arith)

  pub get_or-set_ne :
      (xs : List A) (i j : ℕ) (v w : A) → i ≢ j → get_or (set xs i v) j w ≡ get_or xs j w
  get_or-set_ne [] i j v w h = refl
  get_or-set_ne (x ∷ xs) zero zero v w h = absurd (h refl)
  get_or-set_ne (x ∷ xs) zero (suc j) v w h = refl
  get_or-set_ne (x ∷ xs) (suc i) zero v w h = refl
  get_or-set_ne (x ∷ xs) (suc i) (suc j) v w h = get_or-set_ne xs i j v w (λ e. h (ap suc e))

module _ {D F Info : Type 0} (lib : FatDir D F Info) where
  -- Every slot from `i` on, below `n`, is in use.
  abbrev pub AllUsed : Driver D F → ℕ → ℕ → Type 0
  AllUsed d i n = (j : ℕ) → i ≤ j → j < n → (slot_at lib d j).used ≡ true

  -- What opening a directory in slot `i` leaves: the handle and a slot that is fresh, or the
  -- library's error and no slot taken.
  abbrev pub opened_at : Driver D F → List ℕ → ℕ → ℤ × Driver D F
  opened_at d path i =
      let s = slot_at lib d i in
      let c = lib.fat_dir_open s.dir path d.fat in
      if is_ok c.result
      then (pos i, with_slot lib d i c true false)
      else (c.result, with_slot lib d i c false s.need_next)

  -- The first slot that is free, if there is one.
  abbrev pub Opens : Driver D F → List ℕ → ℕ → ℕ → ℤ × Driver D F → Type 0
  Opens d path i n r =
      (AllUsed d i n × (r ≡ (fat_err_full, d)))
      ⊎ ((k : ℕ) × (i ≤ k)
          × (k < n)
          × AllUsed d i k
          × ((slot_at lib d k).used ≡ false)
          × (r ≡ opened_at d path k))

  AllUsed-cons :
      (d : Driver D F) (i n : ℕ)
      → (slot_at lib d i).used ≡ true
      → AllUsed d (i + 1) n
      → AllUsed d i n
  AllUsed-cons d i n e h j p q = elim (Bool-cases (ltb i j)) [
    | inl lt ↦ h j (ground arith) q
    | inr ge ↦ let same : i ≡ j = ground arith in subst (λ x. (slot_at lib d x).used ≡ true) same e
  ]

  open_loop-Opens :
      (left i : ℕ) (path : List ℕ) (d : Driver D F)
      → Opens d path i (i + left) (open_loop lib left i path d)
  unfolding open_loop
  open_loop-Opens zero i path d = inl (λ j p q. absurd (omega arith), refl)
  open_loop-Opens (suc left) i path d = elim (Bool-cases (slot_at lib d i).used) [
    | inl e ↦ rw e (elim (open_loop-Opens left (i + 1) path d) [
      | inl (h, r) ↦ inl (AllUsed-cons d i (i + suc left) e (λ j p q. h j p (omega arith)), r)
      | inr (k, p, q, h, f, r) ↦ inr (k, omega arith, omega arith, AllUsed-cons d i k e h, f, r)
    ])
    | inr e ↦
        let opens : open_loop lib (suc left) i path d ≡ opened_at d path i =
          elim (Bool-cases (is_ok (lib.fat_dir_open (slot_at lib d i).dir path d.fat).result)) [
            | inl o ↦ rw (e, o) refl
            | inr o ↦ rw (e, o) refl
          ] in
        inr (i, omega arith, omega arith, λ j p q. absurd (omega arith), e, opens)
  ]

  -- With a mounted volume and a path, `fat32_dir_open` opens the directory in the first slot that
  -- is free, below 10: it returns that slot as the handle, or the library's error with the slot
  -- still free. With no free slot it returns FAT_ERR_FULL and changes nothing.
  pub fat32_dir_open_lem :
      (path : List ℕ) (d : Driver D F)
      → d.mounted ≡ true
      → Opens d path 0 10 (fat32_dir_open lib (some path) d)
  unfolding fat32_dir_open
  fat32_dir_open_lem path d m =
      let e : fat32_dir_open lib (some path) d ≡ open_loop lib 10 0 path d =
        ap (λ b. if not b then (fat_err_param, d) else open_loop lib max_opendirs 0 path d) m in
      subst (Opens d path 0 10) (sym e) (open_loop-Opens 10 0 path d)
