-- ===== src/Terminal/Commands/Change.antt =====
-- A `cd` typed in the terminal, from the text of the command to the array `current`.
use trs.Common.{
  ℕ, ◌+◌, ◌≤◌, ◌<◌, ◌≡◌, ◌≢◌, refl, sym, ap, ◌∙◌, arith, ◌⊎◌, inl, inr, false, not, ◌&&◌, ◌||◌,
  ◌==◌, ltb, Bool-cases, List, [], ◌∷◌, length, none, some,
}
use mathlib.Core.Path.{subst}
use mathlib.Core.List.{cons-ne-nil}
use trs.Common.Memory.{Mem}
use trs.Common.Texts.{codes}
use trs.Fat32.{FatDir, is_ok}
use trs.Sys.{Sys, DirInfo, syscall_handler}
use trs.Libc.Text.Spec.{IsText, IsText-ext, text_order}
use trs.Libc.Text.Compare.{strcmp_lem}
use trs.Libc.System.{printf, syscall1}
use trs.Terminal.{Image, current_size}
use trs.Terminal.Words.{words, ArePointers, pointer}
use trs.Terminal.Words.Cut.{args_loop-Cuts}
use trs.Terminal.Current.{target_of, IsClear, rooted, Leads}
use trs.Terminal.Current.Target.{cd_lem}
use trs.Terminal.Commands.{
  Frame, cd_command, named, command_of, cd_branch, run_command, run_words, command_parser,
}

-- A literal, outside the command's `n` bytes with the zero byte and outside `current`.
pub record IsLinked (image : Image) (m : Mem) (command n : ℕ) (t : List ℕ) : Type 0 where
  pub text : IsText m (image.literal t) t
  pub apart : (image.literal t + length t < command) ⊎ (command + n ≤ image.literal t)
  pub clear : IsClear image (image.literal t) (length t)

-- The literals that a `cd` is compared with or appends.
pub record AreLinked (image : Image) (m : Mem) (command n : ℕ) : Type 0 where
  pub view : IsLinked image m command n (codes "view")
  pub clr : IsLinked image m command n (codes "clr")
  pub pwd : IsLinked image m command n (codes "pwd")
  pub wh : IsLinked image m command n (codes "wh")
  pub cd : IsLinked image m command n (codes "cd")
  pub up : IsLinked image m command n (codes "..")
  pub slash : IsLinked image m command n (codes "/")

module _ {D F : Type 0} (lib : FatDir D F DirInfo) (text_at : Mem → ℕ → List ℕ) (turns : ℕ)
    (image : Image) (frame : Frame) where
  printf_mem :
      (str : ℕ) (s : Sys D F)
      → (t : Sys D F) × (printf lib text_at str s ≡ some t) × (t.mem ≡ s.mem)
  unfolding printf syscall1 syscall_handler
  printf_mem str s = elim (Bool-cases (str == 0)) [
    | inl e ↦ rw e (_, refl, refl)
    | inr e ↦ rw e (_, refl, refl)
  ]

  named_lem :
      (m : Mem) (name : ℕ) (x t : List ℕ)
      → IsText m name x
      → IsText m (image.literal t) t
      → length x < turns
      → named lib text_at turns image frame m name t ≡ some (is_ok (text_order x t))
  named_lem m name x t u v h =
      let (order, iff) = strcmp_lem turns m name (image.literal t) x t u v h in rw order refl

  command_of-cd :
      (m : Mem) (name : ℕ)
      → 100 ≤ turns
      → IsText m name (codes "cd")
      → IsText m (image.literal (codes "view")) (codes "view")
      → IsText m (image.literal (codes "clr")) (codes "clr")
      → IsText m (image.literal (codes "pwd")) (codes "pwd")
      → IsText m (image.literal (codes "wh")) (codes "wh")
      → IsText m (image.literal (codes "cd")) (codes "cd")
      → command_of lib text_at turns image frame m name ≡ some cd_command
  unfolding command_of
  command_of-cd m name many t view clr pwd wh cd =
      let small : 2 < turns = omega arith in
      let n : (u : List ℕ)
          → IsText m (image.literal u) u
          → named lib text_at turns image frame m name u
            ≡ some (is_ok (text_order (codes "cd") u)) =
        λ u v. named_lem m name (codes "cd") u t v small in
      rw
        (
          n (codes "view") view,
          n (codes "clr") clr,
          n (codes "pwd") pwd,
          n (codes "wh") wh,
          n (codes "cd") cd,
        )
        refl

  cd_branch_lem :
      (s : Sys D F) (trgt : ℕ) (args xs ys : List ℕ)
      → 100 ≤ turns
      → image.current ≢ 0
      → IsText s.mem image.current xs
      → length xs < current_size
      → IsText s.mem trgt ys
      → IsClear image trgt (length ys)
      → length ys < turns
      → IsText s.mem (image.literal (codes "/")) (codes "/")
      → IsClear image (image.literal (codes "/")) 1
      → IsText s.mem (image.literal (codes "..")) (codes "..")
      → (t : Sys D F) × (cd_branch lib text_at turns image frame (trgt ∷ args) s ≡ some t)
        × Leads image s.mem (target_of xs ys) (some t.mem)
  unfolding cd_branch
  cd_branch_lem s trgt args xs ys many set t short u clear room slash apart up =
      let (r, runs, leads) =
        cd_lem turns image many set s.mem trgt xs ys t short u clear room slash apart up in
      let moved : Sys D F = record s { mem = r } in
      let flag = rooted ys && not (ltb (length ys) current_size) in
      let (v, says, same) = printf_mem (image.literal (codes "t3rm: path too long")) moved in
      elim (Bool-cases flag) [
        | inl e ↦ (
          v,
          rw (runs, e) says,
          subst (λ q. Leads image s.mem (target_of xs ys) (some q)) (sym same) leads,
        )
        | inr e ↦ (moved, rw (runs, e) refl, leads)
      ]

  linked-IsText :
      (m m' : Mem) (command n : ℕ) (t : List ℕ)
      → IsLinked image m command n t
      → ((b : ℕ) → (b < command) ⊎ (command + n ≤ b) → m' b ≡ m b)
      → IsText m' (image.literal t) t
  linked-IsText m m' command n t l same =
      IsText-ext m m' (image.literal t) (image.literal t) t
        (λ i p. same (image.literal t + i) (omega (arith, l.apart))) l.text

  run_words-cd :
      (m : Mem) (s : Sys D F) (command n : ℕ) (path ys : List ℕ) {pointers : List ℕ}
      {rest : List (List ℕ)}
      → 100 ≤ turns
      → n < turns
      → image.current ≢ 0
      → AreLinked image m command n
      → ((b : ℕ) → (b < command) ⊎ (command + n ≤ b) → s.mem b ≡ m b)
      → IsText s.mem image.current path
      → length path < current_size
      → IsClear image command n
      → ArePointers s.mem command (command + n) pointers (codes "cd" ∷ ys ∷ rest)
      → (t : Sys D F) × (run_words lib text_at turns image frame pointers s ≡ some t)
        × Leads image s.mem (target_of path ys) (some t.mem)
  unfolding run_command
  run_words-cd m s command n path ys many room set linked same text short clear
        (pointer {a = name} u l h (pointer {a = trgt} {argv} v l' h' ps)) =
      let still : (t : List ℕ) → IsLinked image m command n t → IsText s.mem (image.literal t) t =
        λ t k. linked-IsText m s.mem command n t k same in
      let known =
        command_of-cd s.mem name many u (still (codes "view") linked.view)
          (still (codes "clr") linked.clr) (still (codes "pwd") linked.pwd)
          (still (codes "wh") linked.wh) (still (codes "cd") linked.cd) in
      let (t, runs, leads) =
        cd_branch_lem s trgt argv path ys many set text short v (omega (arith, clear)) (omega arith)
          (still (codes "/") linked.slash) linked.slash.clear (still (codes "..") linked.up) in
      (t, rw known runs, leads)

  Leads-IsText :
      (m r : Mem) (path : List ℕ)
      → Leads image m path (some r)
      → IsText r image.current path
        × ((a : ℕ) → (a < image.current) ⊎ (image.current + current_size ≤ a) → r a ≡ m a)
  Leads-IsText m r path l =
      let same : r ≡ l.mem = ap (λ o. elim o [ none ↦ r | some x ↦ x ]) l.runs in
      (
        subst (λ q. IsText q image.current path) (sym same) l.text,
        λ a p. ap (λ q. q a) same ∙ l.kept a p,
      )

  -- A command whose first two words are `cd` and a target, typed where the literals and the array
  -- `current` lie outside the command: the parser returns, the array holds the path that the target
  -- leads to from the one before, it fits again, and no byte outside the array and the command's
  -- text changes.
  pub command_parser-Leads :
      (s : Sys D F) (command : ℕ) (xs path ys : List ℕ) (rest : List (List ℕ))
      → 100 ≤ turns
      → length xs < turns
      → command ≢ 0
      → image.current ≢ 0
      → IsText s.mem command xs
      → words 16 xs ≡ codes "cd" ∷ ys ∷ rest
      → AreLinked image s.mem command (length xs)
      → IsText s.mem image.current path
      → length path < current_size
      → IsClear image command (length xs)
      → (t : Sys D F) × (command_parser lib text_at turns image frame command s ≡ some t)
        × IsText t.mem image.current (target_of path ys)
        × (length (target_of path ys) < current_size)
        × ((a : ℕ)
            → (a < image.current) ⊎ (image.current + current_size ≤ a)
            → (a < command) ⊎ (command + length xs ≤ a)
            → t.mem a ≡ s.mem a)
  unfolding command_parser words
  command_parser-Leads s command [] path ys rest many room given set u two linked text short clear =
      absurd (cons-ne-nil (codes "cd") (ys ∷ rest) (sym two))
  command_parser-Leads s command (x ∷ xs) path ys rest many room given set (e, ne, u) two linked
        text short clear =
      let c = args_loop-Cuts 16 turns s.mem command (x ∷ xs) [] (e, ne, u) room in
      let cut : Sys D F = record s { mem = c.mem } in
      let reads : (command == 0 || s.mem command == 0) ≡ false = ground arith in
      let text' =
        IsText-ext s.mem c.mem image.current image.current path
          (λ i p. c.kept (image.current + i) (omega (arith, clear))) text in
      let args =
        subst (λ w. ArePointers c.mem command (command + length (x ∷ xs)) c.pointers w) two
          c.args in
      let (t, runs, leads) =
        run_words-cd s.mem cut command (length (x ∷ xs)) path ys many room set linked c.kept text'
          short clear args in
      let (reached, kept) = Leads-IsText c.mem t.mem (target_of path ys) leads in
      (
        t,
        rw (command_parser, reads, c.runs) runs,
        reached,
        leads.short,
        λ a p q. kept a p ∙ c.kept a q,
      )
