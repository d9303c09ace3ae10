-- ===== src/Boot/Mode.antt =====
-- The choice of the video mode in bootloader/uefi/boot.c.
use trs.Common.{
  ℕ, zero, suc, ◌+◌, ◌*◌, ◌%◌, ◌^◌, ◌≤◌, ◌≡◌, refl, arith, ◌⊎◌, inl, inr, ltb, Bool-cases, List, [],
  ◌∷◌, Option, none, some,
}
use trs.Boot.{Firmware, ModeInfo, pixels, mode_loop}

option_cases : {A : Type 0} (o : Option A) → (o ≡ none) ⊎ ((x : A) × (o ≡ some x))
option_cases none = inl refl
option_cases (some x) = inr (x, refl)

-- The number of a mode's pixels, as a 32-bit number holds it: the product of its width and height,
-- less the multiples of 2^32.
abbrev pub area : ModeInfo → ℕ
area mi = mi.width * mi.height % 2 ^ 32

-- Pairs of a mode and its pixels.
abbrev pub AreAtMost : ℕ → List (ℕ × ℕ) → Type 0
AreAtMost n [] = 0 ≤ n
AreAtMost n (q ∷ qs) = (q.1 ≤ n) × AreAtMost n qs

abbrev pub IsAmong : ℕ × ℕ → List (ℕ × ℕ) → Type 0
IsAmong b [] = ⊥
IsAmong b (q ∷ qs) = (b ≡ q) ⊎ IsAmong b qs

module _ {W : Type 0} (fw : Firmware W) where
  -- The modes that the firmware describes, with their pixels.
  unfoldable pub described : ℕ → ℕ → W → List (ℕ × ℕ)
  described zero i w = []
  described (suc left) i w =
      let q = fw.query_mode i w in
      elim q.0 [
        | none ↦ described left (i + 1) q.1
        | some mi ↦ (i, area mi) ∷ described left (i + 1) (fw.free_info q.1)
      ]

  -- The best of a list, from one at hand on.
  record IsBest (from best : ℕ × ℕ) (modes : List (ℕ × ℕ)) : Type 0 where
    grows : from.1 ≤ best.1
    most : AreAtMost best.1 modes
    found : (best ≡ from) ⊎ IsAmong best modes

  mode_loop-IsBest :
      (left i : ℕ) (best : ℕ × ℕ) (w : W)
      → IsBest best (mode_loop fw left i best w).0 (described left i w)
  unfolding mode_loop described
  mode_loop-IsBest zero i best w = record {
    grows = omega arith;
    most = omega arith;
    found = inl refl;
  }
  mode_loop-IsBest (suc left) i best w = elim (option_cases (fw.query_mode i w).0) [
    | inl e ↦
        rw (mode_loop, described, e) (mode_loop-IsBest left (i + 1) best (fw.query_mode i w).1)
    | inr (mi, e) ↦
        let w' = fw.free_info (fw.query_mode i w).1 in
        elim (Bool-cases (ltb best.1 (pixels mi))) [
          | inl more ↦
              let h = mode_loop-IsBest left (i + 1) (i, pixels mi) w' in
              let grows = h.grows in
              rw (mode_loop, described, e, more)
                (record {
                  grows = ground (arith, grows, more);
                  most = (grows, h.most);
                  found = inr h.found;
                })
          | inr less ↦
              let h = mode_loop-IsBest left (i + 1) best w' in
              let grows = h.grows in
              rw (mode_loop, described, e, less)
                (record {
                  grows = grows;
                  most = (ground (arith, grows, less), h.most);
                  found = elim h.found [ inl same ↦ inl same | inr among ↦ inr (inr among) ];
                })
        ]
  ]

  -- From no pixels on, the loop over the modes ends with a mode that no described mode exceeds in
  -- pixels, a described one with its pixels, or the mode at the begin where none has any. A mode's
  -- pixels are its width times its height modulo 2^32, as its 32-bit product has them, so a mode of
  -- 2^32 pixels or more counts for less than it has.
  pub mode_loop_lem :
      (left mode : ℕ) (w : W)
      → AreAtMost (mode_loop fw left 0 (mode, 0) w).0.1 (described left 0 w)
        × (((mode_loop fw left 0 (mode, 0) w).0 ≡ (mode, 0))
            ⊎ IsAmong (mode_loop fw left 0 (mode, 0) w).0 (described left 0 w))
  mode_loop_lem left mode w = let h = mode_loop-IsBest left 0 (mode, 0) w in (h.most, h.found)
