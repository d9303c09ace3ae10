-- ===== src/Terminal/Current/Target.antt =====
-- `cd` of terminal/tmain.c with any target.
use trs.Common.{
  ℕ, zero, suc, ◌+◌, ◌≤◌, ◌<◌, ◌≡◌, ◌≢◌, refl, ap, ◌∙◌, arith, inl, inr, true, false, not, ◌&&◌,
  ◌==◌, ltb, Bool-cases, if◌then◌else◌, List, [], ◌∷◌, length, some, ℤ, pos, negsuc,
}
use trs.Common.Memory.{Mem}
use trs.Fat32.{is_ok}
use trs.Libc.Text.{strlen}
use trs.Libc.Text.Spec.{IsText, text_order}
use trs.Libc.Text.Compare.{strlen_lem, strcmp_lem}
use trs.Libc.Text.Copy.{strcpy_lem}
use trs.Terminal.{current_size, Image, cd_root, cd}
use trs.Terminal.Current.{
  is_dot, is_dot_dot, rooted, without_first, target_of, Leads, stays-Leads, IsClear,
}
use trs.Terminal.Current.Up.{cd_up-Leads}
use trs.Terminal.Current.Below.{cd_below-Leads}

module _ (turns : ℕ) (image : Image) (many : current_size ≤ turns) (set : image.current ≢ 0) where
  cd_root-Leads :
      (m : Mem) (trgt : ℕ) (xs ys : List ℕ)
      → IsText m image.current xs
      → length xs < current_size
      → IsText m trgt (b'/' ∷ ys)
      → IsClear image trgt (suc (length ys))
      → length ys + 1 < turns
      → (r : Mem) × (cd_root turns image trgt m ≡ some (r, not (ltb (length ys + 1) current_size)))
        × Leads image m (if ltb (length ys + 1) current_size then ys else xs) (some r)
  unfolding cd_root
  cd_root-Leads m trgt xs ys t short (e, ne, u) clear room =
      let long : strlen turns m trgt ≡ some (length ys + 1) =
        strlen_lem turns m trgt (b'/' ∷ ys) (e, ne, u) (omega arith) ∙ ap some (omega arith) in
      elim (Bool-cases (ltb (length ys + 1) current_size)) [
        | inl fits ↦
            let (r, runs, text, kept) =
              strcpy_lem turns m image.current (trgt + 1) ys set (omega arith) u
                (omega (arith, clear)) (omega arith) in
            let below : length ys + 1 < current_size = ground arith in
            (
              r,
              rw (long, fits, runs) refl,
              rw fits (record {
                mem = r;
                runs = refl;
                text = text;
                short = omega arith;
                kept = λ a p. kept a (omega (arith, p));
              }),
            )
        | inr over ↦ (m, rw (long, over) refl, rw over (stays-Leads image m xs t short))
      ]

  dot_test :
      (m : Mem) (trgt : ℕ) (ys : List ℕ)
      → IsText m trgt ys
      → (length ys == 1 && m trgt == b'.') ≡ is_dot ys
  dot_test m trgt [] u = refl
  dot_test m trgt (y ∷ []) (e, ne, u) = rw e refl
  dot_test m trgt (y ∷ z ∷ zs) (e, ne, u) = ground arith

  slash_test : (m : Mem) (trgt : ℕ) (ys : List ℕ) → IsText m trgt ys → (m trgt == b'/') ≡ rooted ys
  slash_test m trgt [] u = ground arith
  slash_test m trgt (y ∷ ys) (e, ne, u) = rw e refl

  dot_is_free : (ys : List ℕ) → is_dot ys ≡ true → rooted ys ≡ false
  dot_is_free [] h = refl
  dot_is_free (y ∷ []) h = ground arith
  dot_is_free (y ∷ z ∷ zs) h = absurd (ground arith)

  ok_zero : (z : ℤ) → is_ok z ≡ true → z ≡ pos 0
  ok_zero (pos zero) h = refl
  ok_zero (pos (suc n)) h = absurd (ground arith)
  ok_zero (negsuc n) h = absurd (ground arith)

  rooted_case :
      (m : Mem) (trgt : ℕ) (xs ys : List ℕ)
      → IsText m image.current xs
      → length xs < current_size
      → IsText m trgt ys
      → IsClear image trgt (length ys)
      → length ys < turns
      → rooted ys ≡ true
      → (r : Mem) × (cd_root turns image trgt m ≡ some (r, not (ltb (length ys) current_size)))
        × Leads image m (if ltb (length ys) current_size then without_first ys else xs) (some r)
  rooted_case m trgt xs [] t short u clear room h = absurd (ground arith)
  rooted_case m trgt xs (y ∷ ys) t short (e, ne, u) clear room h =
      let is : y ≡ b'/' = ground arith in
      let one : length ys + 1 ≡ suc (length ys) = omega arith in
      rw one at (cd_root-Leads m trgt xs ys t short (e ∙ is, omega arith, u) clear (omega arith))

  -- `cd`, from a path that fits the array `current`, with any target outside it: the array then
  -- holds the path that the target leads to, which fits again, and no other byte changes. A target
  -- from the root that does not fit is reported; nothing else is.
  pub cd_lem :
      (m : Mem) (trgt : ℕ) (xs ys : List ℕ)
      → IsText m image.current xs
      → length xs < current_size
      → IsText m trgt ys
      → IsClear image trgt (length ys)
      → length ys < turns
      → IsText m (image.literal (b'/' ∷ [])) (b'/' ∷ [])
      → IsClear image (image.literal (b'/' ∷ [])) 1
      → IsText m (image.literal (b'.' ∷ b'.' ∷ [])) (b'.' ∷ b'.' ∷ [])
      → (r : Mem) × (cd turns image trgt m
          ≡ some (r, rooted ys && not (ltb (length ys) current_size)))
        × Leads image m (target_of xs ys) (some r)
  unfolding cd
  cd_lem m trgt xs ys t short u clear room slash apart dots =
      let long = strlen_lem turns m trgt ys u room in
      let (order, zero_iff) =
        strcmp_lem turns m trgt (image.literal (b'.' ∷ b'.' ∷ [])) ys (b'.' ∷ b'.' ∷ []) u dots
          room in
      let dot = dot_test m trgt ys u in
      let first = slash_test m trgt ys u in
      elim (Bool-cases (is_dot ys)) [
        | inl e ↦ (
          m,
          rw (long, order, dot, e, dot_is_free ys e) refl,
          rw e (stays-Leads image m xs t short),
        )
        | inr e ↦ elim (Bool-cases (is_dot_dot ys)) [
          | inl f ↦
              let up = cd_up-Leads turns image many set m xs t short in
              let free : rooted ys ≡ false =
                ap rooted (zero_iff.0 (ok_zero (text_order ys (b'.' ∷ b'.' ∷ [])) f)) in
              (
                up.mem,
                rw (long, order, dot, e, f, up.runs, free) refl,
                rw (e, f)
                    (record {
                      mem = up.mem;
                      runs = refl;
                      text = up.text;
                      short = up.short;
                      kept = up.kept;
                    }),
              )
          | inr f ↦ elim (Bool-cases (rooted ys)) [
            | inl g ↦
                let (r, runs, leads) = rooted_case m trgt xs ys t short u clear room g in
                (r, rw (long, order, dot, e, f, first, g, runs) refl, rw (e, f, g) leads)
            | inr g ↦
                let b =
                  cd_below-Leads turns image many set m trgt xs ys t short u clear room slash
                    apart in
                (
                  b.mem,
                  rw (long, order, dot, e, f, first, g, b.runs) refl,
                  rw (e, f, g)
                      (record {
                        mem = b.mem;
                        runs = refl;
                        text = b.text;
                        short = b.short;
                        kept = b.kept;
                      }),
                )
          ]
        ]
      ]
