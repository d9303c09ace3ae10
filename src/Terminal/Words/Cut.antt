-- ===== src/Terminal/Words/Cut.antt =====
-- The loop of terminal/tmain.c that cuts the command into words.
use trs.Common.{
  ℕ, zero, suc, ◌+◌, ◌≤◌, ◌<◌, ◌≡◌, refl, sym, ap, ◌∙◌, arith, ◌⊎◌, inl, inr, Bool, true, false,
  Bool-cases, if◌then◌else◌, List, [], ◌∷◌, ◌++◌, length, Option, some, ◌>>=◌, nonzero,
}
use mathlib.Core.List.{append_assoc, append-nil}
use trs.Common.Memory.{Mem, store}
use trs.Libc.Text.Spec.{IsText, IsText-ext}
use trs.Terminal.{is_break, is_quote, skip_word, word_start, word_stop, cut, args_loop}
use trs.Terminal.Words.{
  drop_blanks, before, from, rest_of, unquoted, stop_of, words_from, words, ArePointers,
  no_pointers, pointer, Cuts,
}
use trs.Terminal.Words.Skip.{skip_blanks_lem, skip_word_lem, before-IsText}

wider :
    {m : Mem} {low high low' high' : ℕ} {argv : List ℕ} {xs : List (List ℕ)}
    → ArePointers m low high argv xs
    → low' ≤ low
    → high ≤ high'
    → ArePointers m low' high' argv xs
wider no_pointers p q = no_pointers
wider (pointer t l h ps) p q = pointer t (omega arith) (omega arith) (wider ps p q)

nothing_cut : (m : Mem) (command n : ℕ) (argv : List ℕ) → Cuts m command n [] argv (some (m, argv))
nothing_cut m command n argv = record {
  mem = m;
  pointers = [];
  runs = ap (λ l. some (m, l)) (sym (append-nil argv));
  args = no_pointers;
  kept = λ b p. refl;
}

-- The zero byte behind a word, and the text that follows.
record AfterWord (m : Mem) (last n : ℕ) (next : Mem × ℕ) (rest : List ℕ) : Type 0 where
  text : IsText next.0 next.1 rest
  ends : next.0 last ≡ 0
  same : (b : ℕ) → (b < last) ⊎ (last + n ≤ b) → next.0 b ≡ m b
  bound : (last ≤ next.1) × (next.1 + length rest ≤ last + n)
  stop : (n ≡ 0) ⊎ (last < next.1)

cut-AfterWord :
    (m : Mem) (last : ℕ) (xs : List ℕ)
    → IsText m last xs
    → AfterWord m last (length xs) (cut m last) (rest_of xs)
cut-AfterWord m last [] t =
    let ends : nonzero (m last) ≡ false = ground arith in
    rw ends (record {
      text = t;
      ends = t;
      same = λ b p. refl;
      bound = (omega arith, omega arith);
      stop = inl refl;
    })
cut-AfterWord m last (x ∷ xs) (e, ne, t) =
    let goes : nonzero (m last) ≡ true = ground arith in
    rw goes (record {
      text = IsText-ext m (store m last 0) (last + 1) (last + 1) xs (λ i p. ground arith) t;
      ends = ground arith;
      same = λ b p. ground arith;
      bound = (omega arith, omega arith);
      stop = inr (omega arith);
    })

-- A word that begins at `start`, and the loop behind it.
word_step :
    (m : Mem) (command n start last : ℕ) (stop : ℕ → Bool) (zs : List ℕ) (next : Mem × ℕ)
    {found : List (List ℕ)} (argv : List ℕ) {result : Option (Mem × List ℕ)}
    → IsText m start zs
    → command ≤ start
    → start + length zs ≡ command + n
    → last ≡ start + length (before stop zs)
    → last + length (from stop zs) ≡ start + length zs
    → AfterWord m last (length (from stop zs)) next (rest_of (from stop zs))
    → Cuts next.0 next.1 (length (rest_of (from stop zs))) found (argv ++ start ∷ []) result
    → Cuts m command n (before stop zs ∷ found) argv result
word_step m command n start last stop zs next argv text later size at total after cuts = record {
  mem = cuts.mem;
  pointers = start ∷ cuts.pointers;
  runs = cuts.runs ∙ ap (λ l. some (cuts.mem, l)) (append_assoc argv (start ∷ []) cuts.pointers);
  args =
      pointer
        (before-IsText stop m cuts.mem start zs text
          (λ b p q.
            cuts.kept b (inl (omega (arith, after.bound.0))) ∙ after.same b (inl (omega arith)))
          (ap cuts.mem (sym at)
            ∙ cuts.kept last (omega (arith, after.stop, after.bound))
            ∙ after.ends))
        later (omega (arith, at, size, total))
        (wider cuts.args (omega (arith, after.bound)) (omega (arith, after.bound, total, size)));
  kept = λ b out. cuts.kept b (omega (arith, out, after.bound)) ∙ after.same b (omega (arith, out));
}

-- A text that a word begins, with the quote passed over.
start_text :
    (m : Mem) (at : ℕ) (y : ℕ) (ys : List ℕ)
    → IsText m at (y ∷ ys)
    → IsText m (word_start m at) (unquoted (y ∷ ys))
      × (at ≤ word_start m at)
      × (word_start m at + length (unquoted (y ∷ ys)) ≡ at + length (y ∷ ys))
start_text m at y ys (e, ne, t) = elim (Bool-cases (is_quote y)) [
  | inl quote ↦ rw (e, quote) (t, omega arith, omega arith)
  | inr other ↦ rw (e, other) ((e, ne, t), omega arith, refl)
]

module _ (left turns : ℕ) (m : Mem) (command n at : ℕ) (argv : List ℕ) where
  -- The turn behind the blanks.
  abbrev turn : Option (Mem × List ℕ)
  turn =
      let word = skip_word turns (word_stop m at) m (word_start m at) >>= λ last.
      args_loop left turns (cut m last).0 (cut m last).1 (argv ++ word_start m at ∷ []) in
      if nonzero (m at) then word else some (m, argv)

  turn-Cuts :
      (ys : List ℕ)
      → ((m' : Mem) (command' : ℕ) (xs argv' : List ℕ)
          → IsText m' command' xs
          → length xs < turns
          → Cuts m' command'
              (length xs)
              (words left xs)
              argv'
              (args_loop left turns m' command' argv'))
      → IsText m at ys
      → command ≤ at
      → at + length ys ≡ command + n
      → length ys < turns
      → Cuts m command n (words_from (words left) ys) argv turn
  turn-Cuts [] loop t later size h =
      let ends : nonzero (m at) ≡ false = ground arith in rw ends (nothing_cut m command n argv)
  turn-Cuts (y ∷ ys) loop (e, ne, t) later size h =
      let stop = stop_of (y ∷ ys) in
      let zs = unquoted (y ∷ ys) in
      let goes : nonzero (m at) ≡ true = ground arith in
      let same_stop : word_stop m at ≡ stop =
        ap (λ c. if is_quote c then is_quote else is_break) e in
      let (text, start, total) = start_text m at y ys (e, ne, t) in
      let (last, runs, rest, place, whole) =
        skip_word_lem turns stop m (word_start m at) zs text (omega (arith, total, start)) in
      let after = cut-AfterWord m last (from stop zs) rest in
      let next =
        loop (cut m last).0 (cut m last).1 (rest_of (from stop zs)) (argv ++ word_start m at ∷ [])
          after.text (omega (arith, after.bound, whole, total, start)) in
      rw (goes, same_stop, runs)
        (word_step m command n (word_start m at) last stop zs (cut m last) argv text
          (omega (arith, start)) (omega (arith, total, size)) place whole after next)

-- The loop cuts a text into the words that the specification finds, at most `left`: it returns, a
-- pointer to each, in order, behind those that it had, the words stand there as texts within the
-- command, and memory outside the command is as it was.
pub args_loop-Cuts :
    (left turns : ℕ) (m : Mem) (command : ℕ) (xs argv : List ℕ)
    → IsText m command xs
    → length xs < turns
    → Cuts m command (length xs) (words left xs) argv (args_loop left turns m command argv)
unfolding args_loop words
args_loop-Cuts zero turns m command xs argv t h = nothing_cut m command (length xs) argv
args_loop-Cuts (suc left) turns m command [] argv t h =
    let ends : nonzero (m command) ≡ false = ground arith in rw ends (nothing_cut m command 0 argv)
args_loop-Cuts (suc left) turns m command (x ∷ xs) argv (e, ne, t) h =
    let goes : nonzero (m command) ≡ true = ground arith in
    let (at, runs, text, later, size) = skip_blanks_lem turns m command (x ∷ xs) (e, ne, t) h in
    rw (goes, runs)
      (turn-Cuts left turns m command (length (x ∷ xs)) at argv (drop_blanks (x ∷ xs))
        (λ m' c ys argv' u k. args_loop-Cuts left turns m' c ys argv' u k) text later size
        (omega (arith, size, later)))
