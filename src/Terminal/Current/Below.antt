-- ===== src/Terminal/Current/Below.antt =====
-- `cd` to a directory below, of terminal/tmain.c.
use trs.Common.{
  ℕ, suc, ◌+◌, ◌-◌, ◌≤◌, ◌<◌, ◌≡◌, ◌≢◌, refl, ◌∙◌, arith, inl, inr, true, ◌==◌, ltb, Bool-cases,
  if◌then◌else◌, List, [], ◌∷◌, ◌++◌, length, length-append,
}
use trs.Common.Memory.{Mem}
use trs.Libc.Text.Spec.{IsText, IsText-ext}
use trs.Libc.Text.Compare.{strlen_lem}
use trs.Libc.Text.Copy.{strcat_lem}
use trs.Terminal.{current_size, Image, cd_join, cd_below}
use trs.Terminal.Current.{ends_in_slash, joint, Leads, stays-Leads, IsClear}

module _ (turns : ℕ) (image : Image) (many : current_size ≤ turns) (set : image.current ≢ 0) where
  last_byte :
      (m : Mem) (a x : ℕ) (xs : List ℕ)
      → IsText m a (x ∷ xs)
      → (m (a + length (x ∷ xs) - 1) == b'/') ≡ ends_in_slash (x ∷ xs)
  last_byte m a x [] (e, ne, t) = let here : a + 1 - 1 ≡ a = omega arith in rw (here, e) refl
  last_byte m a x (y ∷ ys) (e, ne, t) =
      let shift : a + suc (suc (length ys)) - 1 ≡ a + 1 + suc (length ys) - 1 = omega arith in
      rw shift (last_byte m (a + 1) y ys t)

  joint_long : (xs : List ℕ) → length (joint xs) ≤ length xs + 1
  joint_long [] = omega arith
  joint_long (x ∷ xs) = elim (Bool-cases (ends_in_slash (x ∷ xs))) [
    | inl e ↦ rw e (omega arith)
    | inr e ↦ rw e (omega (arith, length-append (x ∷ xs) (b'/' ∷ [])))
  ]

  cd_join-Leads :
      (m : Mem) (xs : List ℕ)
      → IsText m image.current xs
      → length xs + 1 < current_size
      → IsText m (image.literal (b'/' ∷ [])) (b'/' ∷ [])
      → IsClear image (image.literal (b'/' ∷ [])) 1
      → Leads image m (joint xs) (cd_join turns image (length xs) m)
  unfolding cd_join
  cd_join-Leads m [] t short slash clear = stays-Leads image m [] t (omega arith)
  cd_join-Leads m (x ∷ xs) t short slash clear =
      let last = last_byte m image.current x xs t in
      let some_byte : ltb 0 (suc (length xs)) ≡ true = ground arith in
      elim (Bool-cases (ends_in_slash (x ∷ xs))) [
        | inl e ↦ rw (last, some_byte, e) (stays-Leads image m (x ∷ xs) t (omega arith))
        | inr e ↦
            let (r, runs, text, kept) =
              strcat_lem turns m image.current (image.literal (b'/' ∷ [])) (x ∷ xs) (b'/' ∷ []) t
                slash (omega (arith, clear)) (omega arith) (omega arith) in
            rw (last, some_byte, e, runs)
              (record {
                mem = r;
                runs = refl;
                text = text;
                short = omega (arith, length-append (x ∷ xs) (b'/' ∷ []));
                kept = λ a p. kept a (omega (arith, p));
              })
      ]

  pub cd_below-Leads :
      (m : Mem) (trgt : ℕ) (xs ys : List ℕ)
      → IsText m image.current xs
      → length xs < current_size
      → IsText m trgt ys
      → IsClear image trgt (length ys)
      → length ys < turns
      → IsText m (image.literal (b'/' ∷ [])) (b'/' ∷ [])
      → IsClear image (image.literal (b'/' ∷ [])) 1
      → Leads image m
          (if ltb (length xs + 1 + length ys) current_size then joint xs ++ ys else xs)
          (cd_below turns image trgt m)
  unfolding cd_below
  cd_below-Leads m trgt xs ys t short u clear room slash apart =
      let here = strlen_lem turns m image.current xs t (omega arith) in
      let more = strlen_lem turns m trgt ys u room in
      elim (Bool-cases (ltb (length xs + 1 + length ys) current_size)) [
        | inl fits ↦
            let small : length xs + 1 + length ys < current_size = ground arith in
            let j = cd_join-Leads m xs t (omega arith) slash apart in
            let long = joint_long xs in
            let u' =
              IsText-ext m j.mem trgt trgt ys (λ i p. j.kept (trgt + i) (omega (arith, clear))) u in
            let (r, runs, text, kept) =
              strcat_lem turns j.mem image.current trgt (joint xs) ys j.text u'
                (omega (arith, clear, j.short)) (omega (arith, j.short)) room in
            rw (here, more, fits, j.runs, runs)
              (record {
                mem = r;
                runs = refl;
                text = text;
                short = omega (arith, length-append (joint xs) ys, long);
                kept = λ a p. kept a (omega (arith, p, long)) ∙ j.kept a p;
              })
        | inr over ↦ rw (here, more, over) (stays-Leads image m xs t short)
      ]
