-- ===== src/Libc/Text/Compare.antt =====
-- strlen, strcmp and strncmp of libc/string.c.
use trs.Common.{
  ℕ, zero, suc, ◌+◌, ◌<◌, ◌≡◌, ◌≢◌, ◌↔◌, refl, sym, ◌∙◌, ap, List, [], ◌∷◌, arith, length, take,
  ◌==◌, false, pos, some,
}
use trs.Common.Memory.{Mem}
use trs.Libc.Text.{strlen_loop, strlen, strcmp, strncmp_loop, strncmp}
use trs.Libc.Text.Spec.{IsText, text_order}

strlen_loop_lem :
    (fuel : ℕ) (m : Mem) (s len : ℕ) (xs : List ℕ)
    → IsText m s xs
    → length xs < fuel
    → strlen_loop fuel m s len ≡ some (len + length xs)
unfolding strlen_loop
strlen_loop_lem zero m s len xs t h = absurd (omega arith)
strlen_loop_lem (suc fuel) m s len [] t h = ground arith
strlen_loop_lem (suc fuel) m s len (x ∷ xs) (e, ne, t) h =
    ground (arith, strlen_loop_lem fuel m (s + 1) (len + 1) xs t (omega arith))

-- `strlen` returns the number of bytes before the zero byte, in one turn more than that.
pub strlen_lem :
    (fuel : ℕ) (m : Mem) (s : ℕ) (xs : List ℕ)
    → IsText m s xs
    → length xs < fuel
    → strlen fuel m s ≡ some (length xs)
unfolding strlen
strlen_lem fuel m s xs t h = strlen_loop_lem fuel m s 0 xs t h ∙ ap some (omega arith)

strcmp-order :
    (fuel : ℕ) (m : Mem) (a b : ℕ) (xs ys : List ℕ)
    → IsText m a xs
    → IsText m b ys
    → length xs < fuel
    → strcmp fuel m a b ≡ some (text_order xs ys)
unfolding strcmp
strcmp-order zero m a b xs ys t u h = absurd (omega arith)
strcmp-order (suc f) m a b [] [] t u h = ground arith
strcmp-order (suc f) m a b [] (y ∷ ys) t u h = ground arith
strcmp-order (suc f) m a b (x ∷ xs) [] t u h = ground arith
strcmp-order (suc f) m a b (x ∷ xs) (y ∷ ys) (e, ne, t) (g, ng, u) h =
    ground (arith, strcmp-order f m (a + 1) (b + 1) xs ys t u (omega arith))

text_order-zero :
    (m : Mem) (a b : ℕ) (xs ys : List ℕ)
    → IsText m a xs
    → IsText m b ys
    → text_order xs ys ≡ pos 0
    → xs ≡ ys
text_order-zero m a b [] [] t u e = refl
text_order-zero m a b [] (y ∷ ys) t (g, ng, u) e = absurd (ground arith)
text_order-zero m a b (x ∷ xs) [] (f, nf, t) u e = absurd (ground arith)
text_order-zero m a b (x ∷ xs) (y ∷ ys) (f, nf, t) (g, ng, u) e =
    ground (arith, text_order-zero m (a + 1) (b + 1) xs ys t u)

text_order_self : (xs : List ℕ) → text_order xs xs ≡ pos 0
text_order_self [] = refl
text_order_self (x ∷ xs) = ground (arith, text_order_self xs)

-- `strcmp` returns, within the turns that the first text allows, a result that is 0 exactly when
-- the texts are equal, and that is the difference of the first bytes that are not.
pub strcmp_lem :
    (fuel : ℕ) (m : Mem) (a b : ℕ) (xs ys : List ℕ)
    → IsText m a xs
    → IsText m b ys
    → length xs < fuel
    → (strcmp fuel m a b ≡ some (text_order xs ys)) × ((text_order xs ys ≡ pos 0) ↔ (xs ≡ ys))
strcmp_lem fuel m a b xs ys t u h = (
  strcmp-order fuel m a b xs ys t u h,
  (text_order-zero m a b xs ys t u, λ e. ap (text_order xs) (sym e) ∙ text_order_self xs),
)

strncmp_loop_lem :
    (len : ℕ) (m : Mem) (a b : ℕ) (xs ys : List ℕ)
    → IsText m a xs
    → IsText m b ys
    → strncmp_loop len m a b ≡ text_order (take (suc len) xs) (take (suc len) ys)
unfolding strncmp_loop
strncmp_loop_lem zero m a b [] [] t u = ground arith
strncmp_loop_lem zero m a b [] (y ∷ ys) t u = ground arith
strncmp_loop_lem zero m a b (x ∷ xs) [] t u = ground arith
strncmp_loop_lem zero m a b (x ∷ xs) (y ∷ ys) t u = ground arith
strncmp_loop_lem (suc len) m a b [] [] t u = ground arith
strncmp_loop_lem (suc len) m a b [] (y ∷ ys) t u = ground arith
strncmp_loop_lem (suc len) m a b (x ∷ xs) [] t u = ground arith
strncmp_loop_lem (suc len) m a b (x ∷ xs) (y ∷ ys) (e, ne, t) (g, ng, u) =
    ground (arith, strncmp_loop_lem len m (a + 1) (b + 1) xs ys t u)

-- `strncmp` with a limit of `len ≢ 0` compares one byte more than its limit: it returns the order
-- of the first `len + 1` bytes of the texts.
pub strncmp_lem :
    (m : Mem) (a b len : ℕ) (xs ys : List ℕ)
    → IsText m a xs
    → IsText m b ys
    → len ≢ 0
    → strncmp m a b len ≡ text_order (take (len + 1) xs) (take (len + 1) ys)
unfolding strncmp
strncmp_lem m a b len xs ys t u ne =
    let runs : (len == 0) ≡ false = ground arith in
    let one_more : len + 1 ≡ suc len = omega arith in
    rw (runs, one_more) (strncmp_loop_lem len m a b xs ys t u)
