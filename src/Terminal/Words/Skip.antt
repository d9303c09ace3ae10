-- ===== src/Terminal/Words/Skip.antt =====
-- The loops over the blanks and over a word of terminal/tmain.c.
use trs.Common.{
  ℕ, zero, suc, ◌+◌, ◌≤◌, ◌<◌, ◌≡◌, refl, sym, ap, ◌∙◌, arith, inl, inr, Bool, true, false, not,
  ◌&&◌, Bool-cases, List, [], ◌∷◌, length, some, nonzero,
}
use trs.Common.Memory.{Mem}
use trs.Libc.Text.Spec.{IsText}
use trs.Terminal.{is_blank, skip_blanks, skip_word}
use trs.Terminal.Words.{drop_blanks, before, from}

pub skip_blanks_lem :
    (turns : ℕ) (m : Mem) (a : ℕ) (xs : List ℕ)
    → IsText m a xs
    → length xs < turns
    → (b : ℕ) × (skip_blanks turns m a ≡ some b)
      × IsText m b (drop_blanks xs)
      × (a ≤ b)
      × (b + length (drop_blanks xs) ≡ a + length xs)
unfolding skip_blanks
skip_blanks_lem zero m a xs t h = absurd (omega arith)
skip_blanks_lem (suc turns) m a [] t h = (a, ground arith, t, omega arith, refl)
skip_blanks_lem (suc turns) m a (x ∷ xs) (e, ne, t) h = elim (Bool-cases (is_blank x)) [
  | inl blank ↦
      let (b, runs, text, later, same) = skip_blanks_lem turns m (a + 1) xs t (omega arith) in
      rw (e, blank) (b, runs, text, omega arith, omega (arith, same))
  | inr other ↦ rw (e, other) (a, refl, (e, ne, t), omega arith, refl)
]

pub skip_word_lem :
    (turns : ℕ) (stop : ℕ → Bool) (m : Mem) (a : ℕ) (xs : List ℕ)
    → IsText m a xs
    → length xs < turns
    → (b : ℕ) × (skip_word turns stop m a ≡ some b)
      × IsText m b (from stop xs)
      × (b ≡ a + length (before stop xs))
      × (b + length (from stop xs) ≡ a + length xs)
unfolding skip_word
skip_word_lem zero stop m a xs t h = absurd (omega arith)
skip_word_lem (suc turns) stop m a [] t h = (a, ground arith, t, omega arith, refl)
skip_word_lem (suc turns) stop m a (x ∷ xs) (e, ne, t) h = elim (Bool-cases (stop x)) [
  | inl stops ↦
      let ends : (nonzero x && not (stop x)) ≡ false = ground arith in
      rw (e, stops) (a, ground arith, (e, ne, t), omega arith, refl)
  | inr goes ↦
      let (b, runs, text, at, same) = skip_word_lem turns stop m (a + 1) xs t (omega arith) in
      let more : nonzero x ≡ true = ground arith in
      rw (e, more, goes) (b, runs, text, omega (arith, at), omega (arith, same))
]

-- What stands before the stop is a text where a zero byte is put in the stop's place.
pub before-IsText :
    (stop : ℕ → Bool) (m m' : Mem) (a : ℕ) (xs : List ℕ)
    → IsText m a xs
    → ((b : ℕ) → a ≤ b → b < a + length (before stop xs) → m' b ≡ m b)
    → m' (a + length (before stop xs)) ≡ 0
    → IsText m' a (before stop xs)
before-IsText stop m m' a [] t same ends = ground arith
before-IsText stop m m' a (x ∷ xs) (e, ne, t) same ends = elim (Bool-cases (stop x)) [
  | inl stops ↦
      let none_left : before stop (x ∷ xs) ≡ [] = rw stops refl in
      let here : m' a ≡ 0 =
        ap m' {x = a} {y = a + 0} (omega arith)
        ∙ ap (λ w. m' (a + length w)) (sym none_left)
        ∙ ends in
      rw stops here
  | inr goes ↦
      let more : before stop (x ∷ xs) ≡ x ∷ before stop xs = rw goes refl in
      let longer : length (before stop (x ∷ xs)) ≡ suc (length (before stop xs)) = ap length more in
      let next =
        before-IsText stop m m' (a + 1) xs t (λ b p q. same b (omega arith) (omega (arith, longer)))
          (ap m' (omega (arith, longer)) ∙ ends) in
      rw goes (same a (omega arith) (omega (arith, longer)) ∙ e, ne, next)
]
