-- ===== src/Terminal/Current/Up.antt =====
-- `cd ..` of terminal/tmain.c.
use trs.Common.{
  ℕ, suc, ◌+◌, ◌≤◌, ◌<◌, ◌≡◌, ◌≢◌, refl, sym, ap, ◌∙◌, arith, inl, inr, false, not, ◌&&◌, ◌==◌,
  Bool-cases, if◌then◌else◌, List, [], ◌∷◌, length, some,
}
use mathlib.Core.Path.{subst}
use trs.Common.Memory.{Mem, store}
use trs.Libc.Text.{strrchr}
use trs.Libc.Text.Spec.{IsText}
use trs.Libc.Text.Copy.{strrchr_lem, last_at}
use trs.Terminal.{current_size, Image, cd_up}
use trs.Terminal.Current.{has_slash, parent, Leads, stays-Leads}

-- The loop of `strrchr`: the place of the last slash.
last_slash :
    (a last : ℕ) (xs : List ℕ)
    → last_at a xs b'/' last ≡ (if has_slash xs then a + length (parent xs) else last)
last_slash a last [] = refl
last_slash a last (x ∷ xs) =
    let rest = last_slash (a + 1) (if x == b'/' then a else last) xs in
    elim (Bool-cases (has_slash xs)) [
      | inl more ↦ ground (arith, rest)
      | inr single ↦ elim (Bool-cases (x == b'/')) [
        | inl here ↦ ground (arith, rest)
        | inr other ↦ ground (arith, rest)
      ]
    ]

parent_short : (xs : List ℕ) → length (parent xs) ≤ length xs
parent_short [] = omega arith
parent_short (x ∷ xs) = elim (Bool-cases (x == b'/' && not (has_slash xs))) [
  | inl e ↦ rw e (omega arith)
  | inr e ↦ rw e (omega (arith, parent_short xs))
]

no_parent : (xs : List ℕ) → has_slash xs ≡ false → parent xs ≡ xs
no_parent [] h = refl
no_parent (x ∷ xs) h = ground (arith, no_parent xs)

parent-IsText :
    (m m' : Mem) (a : ℕ) (xs : List ℕ)
    → IsText m a xs
    → ((b : ℕ) → a ≤ b → b < a + length (parent xs) → m' b ≡ m b)
    → m' (a + length (parent xs)) ≡ 0
    → IsText m' a (parent xs)
parent-IsText m m' a [] t same ends = ground arith
parent-IsText m m' a (x ∷ xs) (e, ne, t) same ends =
    elim (Bool-cases (x == b'/' && not (has_slash xs))) [
      | inl stops ↦
          let none_left : parent (x ∷ xs) ≡ [] = rw stops refl in
          let here : m' a ≡ 0 =
            ap m' {x = a} {y = a + 0} (omega arith)
            ∙ ap (λ w. m' (a + length w)) (sym none_left)
            ∙ ends in
          rw stops here
      | inr goes ↦
          let more : parent (x ∷ xs) ≡ x ∷ parent xs = rw goes refl in
          let longer : length (parent (x ∷ xs)) ≡ suc (length (parent xs)) = ap length more in
          let next =
            parent-IsText m m' (a + 1) xs t (λ b p q. same b (omega arith) (omega (arith, longer)))
              (ap m' (omega (arith, longer)) ∙ ends) in
          rw goes (same a (omega arith) (omega (arith, longer)) ∙ e, ne, next)
    ]

module _ (turns : ℕ) (image : Image) (many : current_size ≤ turns) (set : image.current ≢ 0) where
  pub cd_up-Leads :
      (m : Mem) (xs : List ℕ)
      → IsText m image.current xs
      → length xs < current_size
      → Leads image m (parent xs) (cd_up turns image m)
  unfolding cd_up
  cd_up-Leads m xs t short =
      let at = image.current + length (parent xs) in
      let found : strrchr turns m image.current b'/' ≡ some (if has_slash xs then at else 0) =
        strrchr_lem turns m image.current b'/' xs t (omega arith) (omega arith) (omega arith)
        ∙ ap some (last_slash image.current 0 xs) in
      let shorter = parent_short xs in
      elim (Bool-cases (has_slash xs)) [
        | inl e ↦
            let cut : (at == 0) ≡ false = ground arith in
            rw (found, e, cut)
              (record {
                mem = store m at 0;
                runs = refl;
                text =
                    parent-IsText m (store m at 0) image.current xs t (λ b p q. ground arith)
                      (ground arith);
                short = omega (arith, shorter);
                kept = λ a p. ground (arith, shorter);
              })
        | inr e ↦
            rw (found, e)
              (subst (λ p. Leads image m p (some m)) (sym (no_parent xs e))
                (stays-Leads image m xs t short))
      ]
