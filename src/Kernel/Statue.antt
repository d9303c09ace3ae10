-- ===== src/Kernel/Statue.antt =====
-- The lines of the statue that the start of the kernel prints, one for each of its messages.
use trs.Common.{
  ℕ, zero, suc, ◌+◌, ◌≤◌, ◌<◌, ◌≡◌, refl, arith, List, [], ◌∷◌, length, get_elem?, some,
}
use trs.Common.Texts.{codes}
use trs.Display.{Display, dsp_print, dsp_set_color, dsp_set_cursor}
use trs.Libc.Colors.{red, peach, sapphire, crust}
use trs.Kernel.{
  Kernel, Stage, running, stopped, waiting, outside, Step, run_steps, shows, say, colored, yes,
  print_statue, statue,
}

-- A stage whose statements have used the lines below `n` at most, and none past the end.
abbrev pub IsWithin : {K D F : Type 0} → ℕ → Stage K D F → Type 0
IsWithin n (running k) = k.i ≤ n
IsWithin n (stopped m) = 0 ≤ n
IsWithin n waiting = 0 ≤ n
IsWithin n outside = ⊥

abbrev pub total : List ℕ → ℕ
total [] = 0
total (w ∷ ws) = w + total ws

get_elem?-some :
    (xs : List (List ℕ)) (i : ℕ) → i < length xs → (x : List ℕ) × (get_elem? xs i ≡ some x)
get_elem?-some [] i h = absurd (omega arith)
get_elem?-some (x ∷ xs) zero h = (x, refl)
get_elem?-some (x ∷ xs) (suc i) h = get_elem?-some xs i (omega arith)

module _ {K D F : Type 0} where
  -- A statement that prints `w` lines at most.
  abbrev pub Prints : ℕ → Step K D F → Type 0
  Prints w step = (n : ℕ) (k : Kernel K D F) → n + w ≤ 24 → k.i ≤ n → IsWithin (n + w) (step k)

  -- Statements with the lines that each prints at most.
  pub data AllPrint : List ℕ → List (Step K D F) → Type 1 where
    done : AllPrint [] []
    next :
        {w : ℕ} {ws : List ℕ} {step : Step K D F} {steps : List (Step K D F)}
        → Prints w step
        → AllPrint ws steps
        → AllPrint (w ∷ ws) (step ∷ steps)

  pub weaker : {n m : ℕ} (s : Stage K D F) → n ≤ m → IsWithin n s → IsWithin m s
  weaker (running k) p h = omega arith
  weaker (stopped m) p h = omega arith
  weaker waiting p h = omega arith
  weaker outside p h = h

  -- The statements behind one that has ended in `s`.
  behind :
      (n w v : ℕ) (steps : List (Step K D F)) (s : Stage K D F)
      → Prints v (run_steps steps)
      → n + (w + v) ≤ 24
      → IsWithin (n + w) s
      → IsWithin (n + (w + v)) (elim s [
        | running k' ↦ run_steps steps k'
        | stopped m ↦ stopped m
        | waiting ↦ waiting
        | outside ↦ outside
      ])
  behind n w v steps (running k') p room h =
      weaker (run_steps steps k') (omega arith) (p (n + w) k' (omega arith) h)
  behind n w v steps (stopped m) p room h = omega arith
  behind n w v steps waiting p room h = omega arith
  behind n w v steps outside p room h = h

  pub run_steps-Prints :
      {ws : List ℕ} {steps : List (Step K D F)}
      → AllPrint ws steps
      → Prints (total ws) (run_steps steps)
  unfolding run_steps
  run_steps-Prints done n k room h = omega arith
  run_steps-Prints (next {w} {ws} {step} {steps} p ps) n k room h =
      behind n w (total ws) steps (step k) (run_steps-Prints ps) room (p n k (omega arith) h)

  -- A statement that leaves `i` and goes on.
  pub shows-Prints : (call : Display → Display) → Prints 0 (shows {K = K} {D = D} {F = F} call)
  shows-Prints call n k room h = omega arith

  pub say-Prints : (text : List ℕ) → Prints 0 (say {K = K} {D = D} {F = F} text)
  say-Prints text = shows-Prints (dsp_print text)

  pub colored-Prints : (fg bg : ℕ) → Prints 0 (colored {K = K} {D = D} {F = F} fg bg)
  colored-Prints fg bg = shows-Prints (dsp_set_color fg bg)

  pub yes-Prints : Prints 0 (yes {K = K} {D = D} {F = F})
  unfolding yes
  yes-Prints =
      run_steps-Prints (next (colored-Prints peach crust) (next (say-Prints (codes "[+]\n")) done))

  pub print_statue-Prints : Prints 1 (print_statue {K = K} {D = D} {F = F})
  unfolding print_statue
  print_statue-Prints n k room h =
      let (line, there) = get_elem?-some statue k.i (omega arith) in
      let listed : AllPrint (0 ∷ 0 ∷ 0 ∷ 0 ∷ []) (
          colored red crust
          ∷ say line
          ∷ shows (dsp_set_cursor 30 0)
          ∷ colored sapphire crust
          ∷ []) =
        next (colored-Prints red crust) (
          next (say-Prints line) (
            next (shows-Prints (dsp_set_cursor 30 0))
              (next (colored-Prints sapphire crust) done))) in
      let printed =
        run_steps-Prints listed (n + 1) (record k { i = k.i + 1 }) (omega arith) (omega arith) in
      let same : n + 1 + 0 ≡ n + 1 = omega arith in rw there (rw same at printed)
